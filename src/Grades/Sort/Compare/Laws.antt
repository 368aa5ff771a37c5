-- ===== src/Grades/Sort/Compare/Laws.antt =====
-- The comparison functions of hw2/src/sort.c are orders that sorting can use.
use c_language.Prelude.{
  ℕ, ◌≡◌, inl, inr, refl, ap, ◌∙◌, true, false, List, [], ◌∷◌, arith, if◌then◌else◌, Bool-cases,
}
use c_language.Grades.Float.{FloatOps}
use c_language.Grades.Sort.{Sign, negative, null, positive}
use c_language.Grades.Sort.Order.{IsCompare}
use c_language.Grades.Sort.Compare.Keys.{IsTotal, both, both-IsTotal, by_key-IsCompare}
use c_language.Grades.Freqs.Laws.{IsOrder}
use c_language.Grades.Sort.Compare.{strcmp, comparename, compareid, comparescore}

strcmp_same : (a : List ℕ) → strcmp a a ≡ null
unfolding strcmp
strcmp_same [] = refl
strcmp_same (c ∷ a) = let ih = strcmp_same a in ground arith

pub strcmp_null : (a b : List ℕ) → strcmp a b ≡ null → a ≡ b
unfolding strcmp
strcmp_null [] [] e = refl
strcmp_null [] (d ∷ b) e = cc
strcmp_null (c ∷ a) [] e = cc
strcmp_null (c ∷ a) (d ∷ b) e =
    let (q, r) : (c ≡ d) × (strcmp a b ≡ null) = ground arith in
    ap (λ z. z ∷ a) q ∙ ap (λ z. d ∷ z) (strcmp_null a b r)

strcmp_flip : (a b : List ℕ) → strcmp a b ≡ positive → strcmp b a ≡ negative
unfolding strcmp
strcmp_flip [] [] e = cc
strcmp_flip [] (d ∷ b) e = cc
strcmp_flip (c ∷ a) [] e = refl
strcmp_flip (c ∷ a) (d ∷ b) e = let ih = strcmp_flip a b in ground arith

strcmp_strict :
    (a p b : List ℕ) → strcmp a p ≡ negative → strcmp b p ≡ positive → strcmp a b ≡ negative
unfolding strcmp
strcmp_strict [] [] b e f = cc
strcmp_strict [] (d ∷ p) [] e f = cc
strcmp_strict [] (d ∷ p) (g ∷ b) e f = refl
strcmp_strict (c ∷ a) [] b e f = cc
strcmp_strict (c ∷ a) (d ∷ p) [] e f = cc
strcmp_strict (c ∷ a) (d ∷ p) (g ∷ b) e f = let ih = strcmp_strict a p b in ground arith

pub strcmp-IsTotal : IsTotal strcmp
strcmp-IsTotal = record {
  same = strcmp_same;
  null_same = strcmp_null;
  flip = strcmp_flip;
  strict = strcmp_strict;
}

module _ (F : FloatOps) where
  pub comparename-IsCompare : IsCompare (comparename F)
  unfolding comparename
  comparename-IsCompare =
      by_key-IsCompare (both strcmp strcmp-IsTotal strcmp strcmp-IsTotal)
        (both-IsTotal strcmp strcmp-IsTotal strcmp strcmp-IsTotal) (λ s. (s.surname, s.name))

  pub compareid-IsCompare : IsCompare (compareid F)
  unfolding compareid
  compareid-IsCompare = by_key-IsCompare strcmp strcmp-IsTotal (λ s. s.id)

  -- The score that comes first is the greater one.
  by_score : F.Num → F.Num → Sign
  by_score a b = if F.less b a then negative else (if F.less a b then positive else null)

  module _ (o : IsOrder F) where
    pub asymmetric : (a b : F.Num) → F.less a b ≡ true → F.less b a ≡ false
    asymmetric a b e = elim (Bool-cases (F.less b a)) [
      | inl f ↦ let t = o.transitive a b a e f in let i = o.irreflexive a in cc
      | inr f ↦ f
    ]

    by_score-null : (a b : F.Num) → by_score a b ≡ null → a ≡ b
    unfolding by_score
    by_score-null a b e = elim (Bool-cases (F.less b a)) [
      | inl f ↦ let g : negative ≡ null = (rw f at e) in cc
      | inr f ↦ elim (Bool-cases (F.less a b)) [
        | inl g ↦ let h : positive ≡ null = (rw (f, g) at e) in cc
        | inr g ↦ elim (Bool-cases (F.same a b)) [
          | inl h ↦ (o.same_iff a b).0 h
          | inr h ↦ let k = o.total_order a b h f in cc
        ]
      ]
    ]

    by_score-positive : (a b : F.Num) → by_score a b ≡ positive → F.less a b ≡ true
    unfolding by_score
    by_score-positive a b e = elim (Bool-cases (F.less b a)) [
      | inl f ↦ let g : negative ≡ positive = (rw f at e) in cc
      | inr f ↦ elim (Bool-cases (F.less a b)) [
        | inl g ↦ g
        | inr g ↦ let h : null ≡ positive = (rw (f, g) at e) in cc
      ]
    ]

    by_score-negative : (a b : F.Num) → by_score a b ≡ negative → F.less b a ≡ true
    unfolding by_score
    by_score-negative a b e = elim (Bool-cases (F.less b a)) [
      | inl f ↦ f
      | inr f ↦ elim (Bool-cases (F.less a b)) [
        | inl g ↦ let h : positive ≡ negative = (rw (f, g) at e) in cc
        | inr g ↦ let h : null ≡ negative = (rw (f, g) at e) in cc
      ]
    ]

    first_score : (a b : F.Num) → F.less b a ≡ true → by_score a b ≡ negative
    unfolding by_score
    first_score a b e = rw e refl

    by_score_same : (a : F.Num) → by_score a a ≡ null
    unfolding by_score
    by_score_same a = rw (o.irreflexive a) refl

    pub comparescore-IsCompare : IsCompare (comparescore F)
    unfolding comparescore by_score
    comparescore-IsCompare =
        by_key-IsCompare by_score
          (record {
            same = by_score_same;
            null_same = by_score-null;
            flip = λ a b e. first_score b a (by_score-positive a b e);
            strict = λ a p b e f.
                first_score a b
                  (o.transitive b p a (by_score-positive b p f) (by_score-negative a p e));
          })
          (λ s. s.composite)
