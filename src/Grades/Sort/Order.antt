-- ===== src/Grades/Sort/Order.antt =====
-- What the sorting of hw2/src/sort.c needs of a comparison function, and what sorting means.
use c_language.Prelude.{ℕ, suc, ◌≤◌, ◌<◌, ◌≡◌, ◌⊎◌, inl, inr, refl, sym, ap, ◌∙◌, Bool, true, some}
use c_language.Prelude.{List, length, get_elem?, arith, ltb, ltb→lt, Bool-cases}
use mathlib.Core.Option.{some-injective}
use c_language.Grades.Sort.{Sign, negative, null, positive}
use c_language.Grades.Sort.Swap.{tally}
use c_language.Grades.Sort.Parts.{low_sign, high_sign, is_low, is_high, Parts}

-- Every element compares as equal to itself, an element that is greater than another is greater
-- the other way round, and an element between two others keeps them in order.
pub record IsCompare {A : Type 0} (compare : A → A → Sign) : Type 0 where
  pub same : (x : A) → compare x x ≡ null
  pub flip : (x y : A) → compare x y ≡ positive → compare y x ≡ negative
  pub between :
      (x p y : A)
      → low_sign (compare x p) ≡ true
      → high_sign (compare y p) ≡ true
      → low_sign (compare x y) ≡ true

-- The part from `l` to `h` has the same elements in order, and nothing else has changed.
pub record Sorts {A : Type 0} (compare : A → A → Sign) (stab stab' : List A) (l h : ℕ)
    : Type 0 where
  pub length_same : length stab' ≡ length stab
  pub tally_same : (p : A → Bool) → tally p stab' ≡ tally p stab
  pub outside : (i : ℕ) → (i < l) ⊎ (h ≤ i) → get_elem? stab' i ≡ get_elem? stab i
  pub source :
      (i : ℕ) → l ≤ i → i < h → (j : ℕ) × (l ≤ j) × (j < h) × (get_elem? stab' i ≡ get_elem? stab j)
  pub ordered :
      (i j : ℕ) (x y : A)
      → l ≤ i
      → i < j
      → j < h
      → get_elem? stab' i ≡ some x
      → get_elem? stab' j ≡ some y
      → low_sign (compare x y) ≡ true

module _ {A : Type 0} (compare : A → A → Sign) where
  -- A part of at most one element is sorted by what keeps its elements.
  pub short-Sorts : (stab : List A) (l h : ℕ) → h ≤ suc l → Sorts compare stab stab l h
  short-Sorts stab l h b = record {
    length_same = refl;
    tally_same = λ p. refl;
    outside = λ i o. refl;
    source = λ i p q. (i, p, q, refl);
    ordered = λ i j x y p q r a c. absurd (omega arith);
  }

  -- A division behind which nothing is compared again.
  pub Parts-Sorts :
      (pivot : A) (stab s1 : List A) (l m : ℕ)
      → Parts compare pivot stab s1 l m (suc l)
      → Sorts compare stab s1 l (suc l)
  Parts-Sorts pivot stab s1 l m d = record {
    length_same = d.length_same;
    tally_same = d.tally_same;
    outside = d.outside;
    source = d.source;
    ordered = λ i j x y p q r a c. absurd (omega arith);
  }

  -- A division, and a sort of the whole part after it.
  pub after-Sorts :
      (pivot : A) (stab s1 s2 : List A) (l m h : ℕ)
      → Parts compare pivot stab s1 l m h
      → Sorts compare s1 s2 l h
      → Sorts compare stab s2 l h
  after-Sorts pivot stab s1 s2 l m h d a = record {
    length_same = a.length_same ∙ d.length_same;
    tally_same = λ p. a.tally_same p ∙ d.tally_same p;
    outside = λ i side. a.outside i side ∙ d.outside i side;
    source = λ i p q.
        let (j, u, v, f) = a.source i p q in let (k, s, t, g) = d.source j u v in (k, s, t, f ∙ g);
    ordered = a.ordered;
  }

module _ {A : Type 0} (compare : A → A → Sign) (o : IsCompare compare) (pivot : A)
    (stab s1 s2 s3 : List A) (l m h : ℕ) (d : Parts compare pivot stab s1 l m h)
    (a : Sorts compare s1 s2 l m) (b : Sorts compare s2 s3 m h) where
  -- After both halves are sorted, the elements before `m` are still low, and the others high.
  low_part :
      (i : ℕ) (x : A) → l ≤ i → i < m → get_elem? s3 i ≡ some x → is_low compare pivot x ≡ true
  low_part i x p q e =
      let (j, u, v, f) = a.source i p q in
      let (y, at, lo) = d.lows j u v in
      let same : y ≡ x = some-injective y x (sym at ∙ sym f ∙ sym (b.outside i (inl q)) ∙ e) in
      ap (is_low compare pivot) (sym same) ∙ lo

  high_part :
      (i : ℕ) (x : A) → m ≤ i → i < h → get_elem? s3 i ≡ some x → is_high compare pivot x ≡ true
  high_part i x p q e =
      let (j, u, v, f) = b.source i p q in
      let (y, at, hi) = d.highs j u v in
      let same : y ≡ x = some-injective y x (sym at ∙ sym (a.outside j (inr u)) ∙ sym f ∙ e) in
      ap (is_high compare pivot) (sym same) ∙ hi

  -- Where the elements of the sorted halves came from.
  source_of :
      (i : ℕ) → l ≤ i → i < h → (j : ℕ) × (l ≤ j) × (j < h) × (get_elem? s3 i ≡ get_elem? s1 j)
  source_of i p q =
      let lm = d.l_le in
      let mh = d.le_h in
      elim (Bool-cases (ltb i m)) [
        | inl e ↦
            let k = ltb→lt i m e in
            let (j, u, v, f) = a.source i p k in (j, u, omega arith, b.outside i (inl k) ∙ f)
        | inr e ↦
            let k : m ≤ i = ground arith in
            let (j, u, v, f) = b.source i k q in (j, omega arith, v, f ∙ a.outside j (inr u))
      ]

  -- A division with both parts sorted is sorted.
  pub halves-Sorts : Sorts compare stab s3 l h
  unfolding is_low is_high
  halves-Sorts =
      let lm = d.l_le in
      let mh = d.le_h in
      record {
        length_same = b.length_same ∙ a.length_same ∙ d.length_same;
        tally_same = λ p. b.tally_same p ∙ a.tally_same p ∙ d.tally_same p;
        outside = λ i side. elim side [
          | inl k ↦ b.outside i (inl (omega arith)) ∙ a.outside i (inl k) ∙ d.outside i (inl k)
          | inr k ↦ b.outside i (inr k) ∙ a.outside i (inr (omega arith)) ∙ d.outside i (inr k)
        ];
        source = λ i p q.
            let (j, u, v, f) = source_of i p q in
            let (k, s, t, g) = d.source j u v in (k, s, t, f ∙ g);
        ordered = λ i j x y p q r e f. elim (Bool-cases (ltb j m)) [
          | inl k ↦
              let jm = ltb→lt j m k in
              let im : i < m = omega arith in
              a.ordered i j x y p q jm (sym (b.outside i (inl im)) ∙ e)
                (sym (b.outside j (inl jm)) ∙ f)
          | inr k ↦
              let mj : m ≤ j = ground arith in
              elim (Bool-cases (ltb i m)) [
                | inl g ↦
                    o.between x pivot y (low_part i x p (ltb→lt i m g) e) (high_part j y mj r f)
                | inr g ↦ let mi : m ≤ i = ground arith in b.ordered i j x y mi q r e f
              ]
        ];
      }
