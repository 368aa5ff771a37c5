-- ===== src/Grades/Sort/Compare/Keys.antt =====
-- Comparisons that tell any two keys apart, on records with such a key, and on pairs of keys.
use c_language.Prelude.{◌≡◌, ◌⊎◌, inl, inr, refl, sym, ap, ◌∙◌, true}
use c_language.Grades.Sort.{Sign, negative, null, positive}
use c_language.Grades.Sort.Parts.{low_sign, high_sign}
use c_language.Grades.Sort.Order.{IsCompare}
use c_language.Grades.Sort.Compare.{or_else}

-- A comparison that tells any two keys apart.
pub record IsTotal {K : Type 0} (cmp : K → K → Sign) : Type 0 where
  pub same : (a : K) → cmp a a ≡ null
  pub null_same : (a b : K) → cmp a b ≡ null → a ≡ b
  pub flip : (a b : K) → cmp a b ≡ positive → cmp b a ≡ negative
  pub strict : (a p b : K) → cmp a p ≡ negative → cmp b p ≡ positive → cmp a b ≡ negative

low_cases : (s : Sign) → low_sign s ≡ true → (s ≡ negative) ⊎ (s ≡ null)
unfolding low_sign
low_cases negative e = inl refl
low_cases null e = inr refl
low_cases positive e = cc

high_cases : (s : Sign) → high_sign s ≡ true → (s ≡ positive) ⊎ (s ≡ null)
unfolding high_sign
high_cases negative e = cc
high_cases null e = inr refl
high_cases positive e = inl refl

negative_low : (s : Sign) → s ≡ negative → low_sign s ≡ true
unfolding low_sign
negative_low s e = rw e refl

null_low : (s : Sign) → s ≡ null → low_sign s ≡ true
unfolding low_sign
null_low s e = rw e refl

module _ {K : Type 0} (cmp : K → K → Sign) (t : IsTotal cmp) where
  between_keys :
      (a p b : K)
      → low_sign (cmp a p) ≡ true
      → high_sign (cmp b p) ≡ true
      → low_sign (cmp a b) ≡ true
  between_keys a p b lo hi = elim (high_cases (cmp b p) hi) [
    | inl g ↦ elim (low_cases (cmp a p) lo) [
      | inl l ↦ negative_low _ (t.strict a p b l g)
      | inr l ↦ let q = t.null_same a p l in negative_low _ (ap (λ z. cmp z b) q ∙ t.flip b p g)
    ]
    | inr g ↦ let q = t.null_same b p g in ap (λ z. low_sign (cmp a z)) q ∙ lo
  ]

  -- Records compared by a key.
  pub by_key-IsCompare : {B : Type 0} (key : B → K) → IsCompare (λ x y. cmp (key x) (key y))
  by_key-IsCompare key = record {
    same = λ x. t.same (key x);
    flip = λ x y. t.flip (key x) (key y);
    between = λ x p y. between_keys (key x) (key p) (key y);
  }

  -- One key after another.
  module _ {L : Type 0} (cmp2 : L → L → Sign) (u : IsTotal cmp2) where
    abbrev pub both : K × L → K × L → Sign
    both a b = or_else (cmp a.0 b.0) (cmp2 a.1 b.1)

    or_else-null : (s d : Sign) → or_else s d ≡ null → (s ≡ null) × (d ≡ null)
    unfolding or_else
    or_else-null negative d e = cc
    or_else-null null d e = (refl, e)
    or_else-null positive d e = cc

    or_else-positive :
        (s d : Sign) → or_else s d ≡ positive → (s ≡ positive) ⊎ ((s ≡ null) × (d ≡ positive))
    unfolding or_else
    or_else-positive negative d e = cc
    or_else-positive null d e = inr (refl, e)
    or_else-positive positive d e = inl refl

    or_else-negative :
        (s d : Sign) → or_else s d ≡ negative → (s ≡ negative) ⊎ ((s ≡ null) × (d ≡ negative))
    unfolding or_else
    or_else-negative negative d e = inl refl
    or_else-negative null d e = inr (refl, e)
    or_else-negative positive d e = cc

    first_decides : (s d : Sign) → s ≡ negative → or_else s d ≡ negative
    unfolding or_else
    first_decides s d e = rw e refl

    second_decides : (s d e : Sign) → s ≡ null → d ≡ e → or_else s d ≡ e
    unfolding or_else
    second_decides s d e p q = rw p q

    both_flip : (a b : K × L) → both a b ≡ positive → both b a ≡ negative
    both_flip a b e = elim (or_else-positive _ _ e) [
      | inl g ↦ first_decides _ _ (t.flip a.0 b.0 g)
      | inr (n, g) ↦
          let q = t.null_same a.0 b.0 n in
          second_decides _ _ negative (ap (λ z. cmp z a.0) (sym q) ∙ t.same a.0) (u.flip a.1 b.1 g)
    ]

    both_strict : (a p b : K × L) → both a p ≡ negative → both b p ≡ positive → both a b ≡ negative
    both_strict a p b e f = elim (or_else-negative _ _ e) [
      | inl l ↦ elim (or_else-positive _ _ f) [
        | inl g ↦ first_decides _ _ (t.strict a.0 p.0 b.0 l g)
        | inr (n, g) ↦
            let q = t.null_same b.0 p.0 n in first_decides _ _ (ap (λ z. cmp a.0 z) q ∙ l)
      ]
      | inr (m, l) ↦
          let r = t.null_same a.0 p.0 m in
          elim (or_else-positive _ _ f) [
            | inl g ↦ first_decides _ _ (ap (λ z. cmp z b.0) r ∙ t.flip b.0 p.0 g)
            | inr (n, g) ↦
                let q = t.null_same b.0 p.0 n in
                second_decides _ _ negative (ap (λ z. cmp a.0 z) q ∙ m) (u.strict a.1 p.1 b.1 l g)
          ]
    ]

    pub both-IsTotal : IsTotal both
    both-IsTotal = record {
      same = λ a. second_decides _ _ null (t.same a.0) (u.same a.1);
      null_same = λ a b e.
          let (p, q) = or_else-null _ _ e in
          ap (λ z. (z, a.1)) (t.null_same a.0 b.0 p) ∙ ap (λ z. (b.0, z)) (u.null_same a.1 b.1 q);
      flip = both_flip;
      strict = both_strict;
    }
