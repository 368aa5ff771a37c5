-- ===== src/Grades/Sort/Swap.antt =====
-- Two elements of a table exchanged.
use mathlib.Core.Option.{some-injective}
use c_language.Prelude.{
  ℕ, zero, suc, ◌+◌, ◌<◌, ◌≡◌, ◌≢◌, inl, inr, sym, ap, ◌∙◌, Bool, true, false, some,
}
use c_language.Prelude.{
  List, [], ◌∷◌, length, get_elem?, set, length-set, get_elem?-set_self, get_elem?-set_ne, arith,
  ◌==◌, Bool-cases, ==_iff, ==_ne,
}

unfoldable pub one_if : Bool → ℕ
one_if true = 1
one_if false = 0

module _ {A : Type 0} where
  -- How many elements pass a test.
  unfoldable pub tally : (A → Bool) → List A → ℕ
  tally p [] = 0
  tally p (x ∷ xs) = one_if (p x) + tally p xs

  tally-set :
      (p : A → Bool) (xs : List A) (i : ℕ) (v w : A)
      → get_elem? xs i ≡ some v
      → tally p (set xs i w) + one_if (p v) ≡ tally p xs + one_if (p w)
  unfolding tally
  tally-set p [] i v w e = cc
  tally-set p (x ∷ xs) zero v w e =
      let q : p x ≡ p v = ap p (some-injective x v e) in rw q (omega arith)
  tally-set p (x ∷ xs) (suc i) v w e = let ih = tally-set p xs i v w e in omega arith

  -- Two elements exchanged, and nothing else.
  pub record Swaps (stab stab' : List A) (l h : ℕ) (x y : A) : Type 0 where
    pub at_l : get_elem? stab' l ≡ some y
    pub at_h : get_elem? stab' h ≡ some x
    pub elsewhere : (i : ℕ) → i ≢ l → i ≢ h → get_elem? stab' i ≡ get_elem? stab i
    pub length_same : length stab' ≡ length stab
    pub tally_same : (p : A → Bool) → tally p stab' ≡ tally p stab

  module _ (stab : List A) (l h : ℕ) (x y : A) (l_in : l < length stab) (h_in : h < length stab)
      (l_is : get_elem? stab l ≡ some x) (h_is : get_elem? stab h ≡ some y) where
    unfoldable pub swapped : List A
    swapped = set (set stab h x) l y

    middle_l : get_elem? (set stab h x) l ≡ some x
    middle_l = elim (Bool-cases (l == h)) [
      | inl e ↦ let q = (==_iff l h).0 e in rw q (get_elem?-set_self stab h x h_in)
      | inr e ↦ get_elem?-set_ne stab h l x (λ q. ==_ne l h e (sym q)) ∙ l_is
    ]

    pub swapped-Swaps : Swaps stab swapped l h x y
    unfolding swapped
    swapped-Swaps = record {
      at_l = get_elem?-set_self (set stab h x) l y (let e = length-set stab h x in omega arith);
      at_h = elim (Bool-cases (l == h)) [
        | inl e ↦
            let q = (==_iff l h).0 e in
            ap (get_elem? (set (set stab h x) l y)) (sym q)
            ∙ get_elem?-set_self (set stab h x) l y (let n = length-set stab h x in omega arith)
            ∙ sym h_is
            ∙ ap (get_elem? stab) (sym q)
            ∙ l_is
        | inr e ↦
            get_elem?-set_ne (set stab h x) l h y (==_ne l h e) ∙ get_elem?-set_self stab h x h_in
      ];
      elsewhere = λ i a b.
          get_elem?-set_ne (set stab h x) l i y (λ q. a (sym q))
          ∙ get_elem?-set_ne stab h i x (λ q. b (sym q));
      length_same = length-set (set stab h x) l y ∙ length-set stab h x;
      tally_same = λ p.
          let a = tally-set p stab h y x h_is in
          let b = tally-set p (set stab h x) l x y middle_l in omega arith;
    }
