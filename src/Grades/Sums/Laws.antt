-- ===== src/Grades/Sums/Laws.antt =====
-- The range that `do_sums` leaves in the statistics of a section.
use c_language.Prelude.{ℕ, suc, ◌≡◌, refl, ap, ◌∙◌, true, false, ◌==◌, Bool-cases, inl, inr}
use c_language.Prelude.{List, [], ◌∷◌, arith}
use c_language.Grades.Float.{FloatOps}
use c_language.Grades.Data.{Tally, Score, counts}
use c_language.Grades.Sums.{start_range, add_sums, sum_score}

module _ (F : FloatOps) where
  -- The scores of one class and section, one after another.
  pub sum_all : List (Score F) → Tally F → Tally F → Tally F × Tally F
  sum_all [] c t = (c, t)
  sum_all (s ∷ rest) c t = let (c', t') = sum_score F s c t in sum_all rest c' t'

  later_score :
      (s : Score F) (c t : Tally F) (n : ℕ)
      → t.valid_count ≡ suc n
      → ((sum_score F s c t).1.min ≡ t.min)
        × ((sum_score F s c t).1.max ≡ t.max)
        × ((m : ℕ) × ((sum_score F s c t).1.valid_count ≡ suc m))
  unfolding sum_score add_sums
  later_score s c t n e =
      let k : (t.valid_count == 0) ≡ false = ground arith in
      elim (Bool-cases (counts s.flag s.subst)) [
        | inl h ↦ rw (k, h) (refl, refl, (t.valid_count, refl))
        | inr h ↦ rw (k, h) (refl, refl, (n, e))
      ]

  later_scores :
      (rest : List (Score F)) (c t : Tally F) (n : ℕ)
      → t.valid_count ≡ suc n
      → ((sum_all rest c t).1.min ≡ t.min) × ((sum_all rest c t).1.max ≡ t.max)
  unfolding sum_all
  later_scores [] c t n e = (refl, refl)
  later_scores (s ∷ rest) c t n e =
      let (lo, hi, (m, k)) = later_score s c t n e in
      let (l, h) = later_scores rest (sum_score F s c t).0 (sum_score F s c t).1 m k in
      (l ∙ lo, h ∙ hi)

  first_score :
      (s : Score F) (c t : Tally F)
      → counts s.flag s.subst ≡ true
      → t.valid_count ≡ 0
      → ((sum_score F s c t).1.min ≡ F.narrow s.grade)
        × ((sum_score F s c t).1.max ≡ F.narrow s.grade)
        × ((sum_score F s c t).1.valid_count ≡ 1)
  unfolding sum_score add_sums start_range
  first_score s c t h e =
      let k : (t.valid_count == 0) ≡ true = ground arith in rw (k, h) (refl, refl, ap suc e)

  -- Whatever valid scores a section has after its first, do_sums leaves the first one as both
  -- the minimum and the maximum of the section.
  pub section_range_stays :
      (s : Score F) (rest : List (Score F)) (c t : Tally F)
      → counts s.flag s.subst ≡ true
      → t.valid_count ≡ 0
      → ((sum_all (s ∷ rest) c t).1.min ≡ F.narrow s.grade)
        × ((sum_all (s ∷ rest) c t).1.max ≡ F.narrow s.grade)
  unfolding sum_all
  section_range_stays s rest c t h e =
      let (lo, hi, k) = first_score s c t h e in
      let (l, m) = later_scores rest (sum_score F s c t).0 (sum_score F s c t).1 0 k in
      (l ∙ lo, m ∙ hi)
