-- ===== src/Grades/Normal/Average.antt =====
-- The average of a student's scores on assignments of one type.
use c_language.Prelude.{same_text}
use c_language.Prelude.{ℕ, ◌≡◌, refl, ◌∙◌, true, false, ◌&&◌, some}
use c_language.Prelude.{List, [], ◌∷◌, ◌==◌, Bool-cases, inl, inr}
use c_language.Grades.Float.{FloatOps}
use c_language.Grades.Data.{Classstats, Score, Assignment, counts, no_weight}
use c_language.Grades.Normal.{
  Linked, follow, AverageState, add_weighted, average_score, average_loop, average_of, studentavg,
}

module _ (F : FloatOps) (asgts : List (Assignment F)) (cs : List (Classstats F)) where
  -- Every score leads to an assignment that has no weight.
  unfoldable pub Unweighted : List (Score F) → Type 0
  Unweighted [] = Unit
  Unweighted (s ∷ rest) =
      ((l : Linked F) × (follow F asgts cs s ≡ some l) × (l.asgt.wpolicy ≡ no_weight))
      × Unweighted rest

  weightless :
      (type : List ℕ) (s : Score F) (l : Linked F) (v : AverageState F)
      → l.asgt.wpolicy ≡ no_weight
      → (average_score F type s l v).w ≡ v.w
  unfolding average_score add_weighted
  weightless type s l v e =
      elim (Bool-cases (same_text l.asgt.atype type && counts s.flag s.subst)) [
        | inl h ↦ rw (h, e) refl
        | inr h ↦ rw h refl
      ]

  loop_weightless :
      (type : List ℕ) (scores : List (Score F)) (v : AverageState F)
      → Unweighted scores
      → (r : AverageState F) × (average_loop F asgts cs type scores v ≡ some r) × (r.w ≡ v.w)
  unfolding average_loop Unweighted
  loop_weightless type [] v u = (v, refl, refl)
  loop_weightless type (s ∷ rest) v ((l, e, p), u) =
      let (r, q, k) = loop_weightless type rest (average_score F type s l v) u in
      (r, rw (e, q) refl, k ∙ weightless type s l v p)

  -- A student's average is 0 whatever the scores, when all of the assignments have no weight.
  pub studentavg_zero :
      (scores : List (Score F)) (type : List ℕ)
      → F.same (F.of_int 0) (F.of_int 0) ≡ true
      → Unweighted scores
      → studentavg F asgts cs scores type ≡ some (F.of_int 0)
  unfolding studentavg average_of
  studentavg_zero scores type z u =
      let (r, q, k) =
        loop_weightless type scores (record { n = 0; wp = false; sum = F.of_int 0; w = F.of_int 0 })
          u in
      elim (Bool-cases (r.n == 0)) [ inl h ↦ rw (q, k, z, h) refl | inr h ↦ rw (q, k, z, h) refl ]
