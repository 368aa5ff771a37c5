-- ===== src/Grades/Sort/Parts.antt =====
-- A part of the table divided at a place, and how it grows by one element at either end.
use c_language.Prelude.{
  ℕ, suc, ◌≤◌, ◌<◌, ◌≡◌, ◌⊎◌, inl, inr, refl, sym, ap, ◌∙◌, Bool, true, false, some,
}
use c_language.Prelude.{List, length, get_elem?, arith, ◌==◌, Bool-cases, ==_iff, ==_ne}
use c_language.Grades.Sort.{Sign, negative, null, positive, goes_high}
use c_language.Grades.Sort.Swap.{tally, Swaps}

unfoldable pub low_sign : Sign → Bool
low_sign negative = true
low_sign null = true
low_sign positive = false

unfoldable pub high_sign : Sign → Bool
high_sign negative = false
high_sign null = true
high_sign positive = true

module _ {A : Type 0} where
  module _ (compare : A → A → Sign) (pivot : A) where
    -- The element may stand on the low side of the pivot, or on its high side.
    unfoldable pub is_low : A → Bool
    is_low x = low_sign (compare x pivot)

    unfoldable pub is_high : A → Bool
    is_high x = high_sign (compare x pivot)

    -- The part of the table from `l` to `h`, and its division at `m`.
    pub record Parts (stab stab' : List A) (l m h : ℕ) : Type 0 where
      pub l_le : l ≤ m
      pub le_h : m ≤ h
      pub length_same : length stab' ≡ length stab
      pub tally_same : (p : A → Bool) → tally p stab' ≡ tally p stab
      pub outside : (i : ℕ) → (i < l) ⊎ (h ≤ i) → get_elem? stab' i ≡ get_elem? stab i
      pub lows :
          (i : ℕ) → l ≤ i → i < m → (x : A) × (get_elem? stab' i ≡ some x) × (is_low x ≡ true)
      pub highs :
          (i : ℕ) → m ≤ i → i < h → (x : A) × (get_elem? stab' i ≡ some x) × (is_high x ≡ true)
      pub source :
          (i : ℕ)
          → l ≤ i
          → i < h
          → (j : ℕ) × (l ≤ j) × (j < h) × (get_elem? stab' i ≡ get_elem? stab j)

    by_sign :
        (s : Sign) (alt : Bool)
        → (((goes_high compare s alt).0 ≡ true) × (high_sign s ≡ true))
          ⊎ (((goes_high compare s alt).0 ≡ false) × (low_sign s ≡ true))
    unfolding goes_high low_sign high_sign
    by_sign negative alt = inr (refl, refl)
    by_sign null true = inl (refl, refl)
    by_sign null false = inr (refl, refl)
    by_sign positive alt = inl (refl, refl)

    -- The end that an element goes to suits it, whatever `alt` says.
    pub suits :
        (x : A) (alt : Bool)
        → (((goes_high compare (compare x pivot) alt).0 ≡ true) × (is_high x ≡ true))
          ⊎ (((goes_high compare (compare x pivot) alt).0 ≡ false) × (is_low x ≡ true))
    unfolding is_low is_high
    suits x alt = by_sign (compare x pivot) alt

    pub high_step :
        (stab s1 s2 : List A) (x y : A) (l m h : ℕ)
        → l ≤ h
        → get_elem? stab l ≡ some x
        → get_elem? stab h ≡ some y
        → Swaps stab s1 l h x y
        → is_high x ≡ true
        → Parts s1 s2 l m h
        → Parts stab s2 l m (suc h)
    high_step stab s1 s2 x y l m h b l_is h_is w hi r =
        let at_l = w.at_l in
        let from = r.source in
        let len = w.length_same in
        let at_h = w.at_h in
        let else_ = w.elsewhere in
        let out = r.outside in
        let up = r.highs in
        let m_le = r.le_h in
        record {
          l_le = r.l_le;
          le_h = omega arith;
          length_same = r.length_same ∙ len;
          tally_same = λ p. r.tally_same p ∙ w.tally_same p;
          outside = λ i o. elim o [
            | inl below ↦ out i (inl below) ∙ else_ i (omega arith) (omega arith)
            | inr above ↦ out i (inr (omega arith)) ∙ else_ i (omega arith) (omega arith)
          ];
          lows = r.lows;
          highs = λ i p q. elim (Bool-cases (i == h)) [
            | inl e ↦
                let k = (==_iff i h).0 e in
                (x, out i (inr (omega arith)) ∙ ap (get_elem? s1) k ∙ at_h, hi)
            | inr e ↦ let k = ==_ne i h e in up i p (omega arith)
          ];
          source = λ i p q. elim (Bool-cases (i == h)) [
            | inl e ↦
                let k = (==_iff i h).0 e in
                (
                  l,
                  omega arith,
                  omega arith,
                  out i (inr (omega arith)) ∙ ap (get_elem? s1) k ∙ at_h ∙ sym l_is,
                )
            | inr e ↦
                let k = ==_ne i h e in
                let (j, a, c, f) = from i p (omega arith) in
                elim (Bool-cases (j == l)) [
                  | inl g ↦
                      let n = (==_iff j l).0 g in
                      (h, b, omega arith, f ∙ ap (get_elem? s1) n ∙ at_l ∙ sym h_is)
                  | inr g ↦ let n = ==_ne j l g in (j, a, omega arith, f ∙ else_ j n (omega arith))
                ]
          ];
        }

    pub low_step :
        (stab s2 : List A) (x : A) (l m h : ℕ)
        → get_elem? stab l ≡ some x
        → is_low x ≡ true
        → Parts stab s2 (suc l) m h
        → Parts stab s2 l m h
    low_step stab s2 x l m h e lo r =
        let l_le = r.l_le in
        let out = r.outside in
        let down = r.lows in
        let from = r.source in
        record {
          l_le = omega arith;
          le_h = r.le_h;
          length_same = r.length_same;
          tally_same = r.tally_same;
          outside = λ i o. elim o [
            | inl below ↦ out i (inl (omega arith))
            | inr above ↦ out i (inr above)
          ];
          lows = λ i p q. elim (Bool-cases (i == l)) [
            | inl k ↦
                let j = (==_iff i l).0 k in
                (x, out i (inl (omega arith)) ∙ ap (get_elem? stab) j ∙ e, lo)
            | inr k ↦ let j = ==_ne i l k in down i (omega arith) q
          ];
          highs = r.highs;
          source = λ i p q. elim (Bool-cases (i == l)) [
            | inl k ↦
                let j = (==_iff i l).0 k in
                (l, omega arith, omega arith, out i (inl (omega arith)) ∙ ap (get_elem? stab) j)
            | inr k ↦
                let n = ==_ne i l k in
                let (j, a, c, f) = from i (omega arith) q in (j, omega arith, c, f)
          ];
        }
