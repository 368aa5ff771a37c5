-- ===== src/Grades/Sort/Compare/Order.antt =====
-- The orders that hw2 sorts students in, apart from the comparison functions of hw2/src/sort.c.
use c_language.Prelude.{
  ℕ, ◌<◌, ◌≡◌, ◌⊎◌, inl, inr, refl, true, false, List, [], ◌∷◌, arith, ltb, Bool-cases,
}
use c_language.Grades.Float.{FloatOps}
use c_language.Grades.Sort.{Sign, negative, null, positive}
use c_language.Grades.Sort.Parts.{low_sign}
use c_language.Grades.Sort.Compare.{Student, strcmp, or_else, comparename, compareid, comparescore}
use c_language.Grades.Sort.Compare.Laws.{strcmp_null}

-- The first bytes that differ decide, and a text is in front of the longer ones that it begins.
abbrev pub Precedes : List ℕ → List ℕ → Type 0
Precedes a [] = ⊥
Precedes [] (d ∷ b) = Unit
Precedes (c ∷ a) (d ∷ b) = (c < d) ⊎ ((c ≡ d) × Precedes a b)

abbrev pub TextOrder : List ℕ → List ℕ → Type 0
TextOrder a b = Precedes a b ⊎ (a ≡ b)

strcmp-Precedes : (a b : List ℕ) → strcmp a b ≡ negative → Precedes a b
unfolding strcmp
strcmp-Precedes [] [] e = cc
strcmp-Precedes (c ∷ a) [] e = cc
strcmp-Precedes [] (d ∷ b) e = tt
strcmp-Precedes (c ∷ a) (d ∷ b) e = elim (Bool-cases (ltb c d)) [
  | inl l ↦ inl (ground arith)
  | inr l ↦
      let (q, r) : (c ≡ d) × (strcmp a b ≡ negative) = ground arith in
      inr (q, strcmp-Precedes a b r)
]

low_order : (P : Type 0) (s : Sign) → low_sign s ≡ true → (s ≡ negative → P) → (s ≡ null → P) → P
unfolding low_sign
low_order P negative e f g = f refl
low_order P null e f g = g refl
low_order P positive e f g = cc

strcmp-TextOrder : (a b : List ℕ) → low_sign (strcmp a b) ≡ true → TextOrder a b
strcmp-TextOrder a b e =
    low_order _ (strcmp a b) e (λ n. inl (strcmp-Precedes a b n)) (λ n. inr (strcmp_null a b n))

module _ (F : FloatOps) where
  -- By surname, and by name among those of one surname.
  abbrev pub NameOrder : Student F → Student F → Type 0
  NameOrder s t = Precedes s.surname t.surname ⊎ ((s.surname ≡ t.surname) × TextOrder s.name t.name)

  abbrev pub IdOrder : Student F → Student F → Type 0
  IdOrder s t = TextOrder s.id t.id

  -- No student is behind one with a smaller composite score.
  abbrev pub ScoreOrder : Student F → Student F → Type 0
  ScoreOrder s t = F.less s.composite t.composite ≡ false

  by_surname :
      (s t : Student F) (sign : Sign)
      → strcmp s.surname t.surname ≡ sign
      → low_sign (or_else sign (strcmp s.name t.name)) ≡ true
      → NameOrder s t
  unfolding or_else low_sign
  by_surname s t negative e h = inl (strcmp-Precedes _ _ e)
  by_surname s t null e h = inr (strcmp_null _ _ e, strcmp-TextOrder _ _ h)
  by_surname s t positive e h = cc

  pub comparename-NameOrder :
      (s t : Student F) → low_sign (comparename F s t) ≡ true → NameOrder s t
  unfolding comparename
  comparename-NameOrder s t h = by_surname s t _ refl h

  pub compareid-IdOrder : (s t : Student F) → low_sign (compareid F s t) ≡ true → IdOrder s t
  unfolding compareid
  compareid-IdOrder s t h = strcmp-TextOrder _ _ h

  module _ (asymmetric : (a b : F.Num) → F.less a b ≡ true → F.less b a ≡ false) where
    pub comparescore-ScoreOrder :
        (s t : Student F) → low_sign (comparescore F s t) ≡ true → ScoreOrder s t
    unfolding comparescore low_sign
    comparescore-ScoreOrder s t h = elim (Bool-cases (F.less t.composite s.composite)) [
      | inl e ↦ asymmetric _ _ e
      | inr e ↦ elim (Bool-cases (F.less s.composite t.composite)) [
        | inl f ↦ let g : false ≡ true = (rw (e, f) at h) in cc
        | inr f ↦ f
      ]
    ]
