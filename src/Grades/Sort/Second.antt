-- ===== src/Grades/Sort/Second.antt =====
-- After a `partition` that has only moved its part down by one place, the next one divides
-- behind the low end.
use c_language.Prelude.{
  ℕ, suc, ◌+◌, ◌-◌, ◌≤◌, ◌<◌, ◌≡◌, ◌≢◌, inl, inr, refl, sym, ap, ◌∙◌, true, some,
}
use c_language.Prelude.{List, length, get_elem?, arith, ◌==◌, Bool-cases, ==_iff, ==_ne}
use mathlib.Core.Option.{some-injective}
use c_language.Grades.Sort.{Sign, negative, null, positive, partition_loop}
use c_language.Grades.Sort.Parts.{high_sign, is_high, Parts}
use c_language.Grades.Sort.Rotation.{Rotated, loop_rotates}
use c_language.Grades.Sort.Nulls.{two_nulls}
use c_language.Grades.Sort.Order.{IsCompare}

module _ {A : Type 0} (compare : A → A → Sign) where
  -- Where an element of the part stands after the rotation.
  in_rotated :
      (pivot : A) (stab s' : List A) (l h i : ℕ)
      → Rotated compare pivot stab s' l h
      → l ≤ i
      → i < h
      → (k : ℕ) × (l ≤ k) × (k < h) × (get_elem? s' k ≡ get_elem? stab i)
  in_rotated pivot stab s' l h i r p q = elim (Bool-cases (i == l)) [
    | inl e ↦
        let k = (==_iff i l).0 e in
        (
          h - 1,
          omega arith,
          omega arith,
          r.first_last (h - 1) (omega arith) (omega arith) ∙ ap (get_elem? stab) (sym k),
        )
    | inr e ↦
        let n = ==_ne i l e in
        let back : suc (i - 1) ≡ i = omega arith in
        (
          i - 1,
          omega arith,
          omega arith,
          r.moved (i - 1) (omega arith) (omega arith) ∙ ap (get_elem? stab) back,
        )
  ]

  positive_of : (s : Sign) → high_sign s ≡ true → s ≢ null → s ≡ positive
  unfolding high_sign
  positive_of negative h n = cc
  positive_of null h n = absurd (n refl)
  positive_of positive h n = refl

  not_high : (s : Sign) → s ≡ negative → high_sign s ≢ true
  unfolding high_sign
  not_high negative e h = cc
  not_high null e h = cc
  not_high positive e h = cc

  module _ (o : IsCompare compare) (stab s1 s2 : List A) (p q : A) (l n mid next m : ℕ)
      (first : Rotated compare p stab s1 l (l + n)) (highs : Parts compare p stab s1 l l (l + n))
      (r1 : partition_loop compare n stab p l (l + n) true ≡ some (l, s1))
      (r2 : partition_loop compare n s1 q l (l + n) true ≡ some (m, s2))
      (parts : Parts compare q s1 s2 l m (l + n)) (l_mid : l ≤ mid) (mid_h : mid < l + n)
      (l_next : l ≤ next) (next_h : next < l + n) (apart : mid ≢ next) (room : l + n ≤ length stab)
      (p_at : get_elem? stab mid ≡ some p) (q_next : get_elem? stab next ≡ some q)
      (q_at : get_elem? s1 mid ≡ some q) where
    -- The new pivot is greater than the old one, since only one element went to the high end as
    -- an equal of the old pivot.
    new_greater : compare q p ≡ positive
    unfolding is_high
    new_greater =
        let (x, at, hi) = highs.highs mid l_mid mid_h in
        let same : x ≡ q = some-injective x q (sym at ∙ q_at) in
        positive_of (compare q p) (ap (λ t. high_sign (compare t p)) (sym same) ∙ hi) λ e.
          let h =
            two_nulls compare p n stab s1 l l mid next p q room r1 l_mid mid_h l_next next_h apart
              p_at q_next (o.same p) e in
          absurd (omega arith)

    pub divides_behind : l < m
    unfolding is_high
    divides_behind =
        let lower = o.flip q p new_greater in
        let len = highs.length_same in
        elim (loop_rotates compare q n s1 s2 l (l + n) m true refl (omega arith) r2) [
          | inl more ↦ more
          | inr (same, second) ↦
              let (i, a, b, e) = in_rotated p stab s1 l (l + n) mid first l_mid mid_h in
              let (k, c, d, f) = in_rotated q s1 s2 l (l + n) i second a b in
              let (x, at, hi) = parts.highs k (omega arith) d in
              let old : x ≡ p = some-injective x p (sym at ∙ f ∙ e ∙ p_at) in
              absurd
                (not_high (compare p q) lower (ap (λ t. high_sign (compare t q)) (sym old) ∙ hi))
        ]
