-- ===== src/Grades/Sort/Sorted.antt =====
-- `sorttable` and `sortroster` of hw2/src/sort.c sort, and the fuel that lasts for them.
use c_language.Prelude.{
  ℕ, zero, suc, ◌+◌, ◌-◌, ◌*◌, ◌/◌, ◌≤◌, ◌<◌, ◌≡◌, ◌≢◌, inl, inr, sym, ap, ◌∙◌, true, some,
}
use c_language.Prelude.{
  List, length, get_elem?, arith, ◌==◌, Bool-cases, ==_iff, ==_ne, leb, leb→le,
}
use mathlib.Core.Path.{subst}
use c_language.Grades.Sort.{Sign, partition_loop, sorttable}
use c_language.Grades.Sort.Parts.{Parts}
use c_language.Grades.Sort.Rotation.{Rotated}
use c_language.Grades.Sort.Order.{IsCompare, Sorts, short-Sorts, Parts-Sorts, after-Sorts}
use c_language.Grades.Sort.Second.{divides_behind}
use c_language.Grades.Sort.Division.{
  Division, divide, sorttable_empty, sorttable_one, sorttable_more, Sorted, Sorter, split_sorts,
}

module _ {A : Type 0} (compare : A → A → Sign) where
  -- Which element a rotation has put into a place that is not the first.
  into_place :
      (p : A) (stab s1 : List A) (l h mid : ℕ)
      → Rotated compare p stab s1 l h
      → l < mid
      → mid < h
      → (next : ℕ) × (l ≤ next)
        × (next < h)
        × (mid ≢ next)
        × (get_elem? s1 mid ≡ get_elem? stab next)
  into_place p stab s1 l h mid r a b = elim (Bool-cases (suc mid == h)) [
    | inl e ↦
        let k = (==_iff (suc mid) h).0 e in
        (l, omega arith, omega arith, (λ q. omega arith), r.first_last mid (omega arith) k)
    | inr e ↦
        let k = ==_ne (suc mid) h e in
        (
          suc mid,
          omega arith,
          omega arith,
          (λ q. omega arith),
          r.moved mid (omega arith) (omega arith),
        )
  ]

  -- A division at the low end only rotates the part, and the next one divides behind it.
  rotation_sorts :
      (o : IsCompare compare) (f k : ℕ)
      → Sorter compare f k
      → (stab : List A) (l : ℕ) (d : Division compare stab l (suc k)) → 0 < k
      → d.m ≡ l
      → Rotated compare d.pivot stab d.result l (l + suc k)
      → l + suc k ≤ length stab
      → Sorted compare (suc (suc f)) stab l (l + suc k)
  rotation_sorts o f k sort stab l d p same rot room =
      let mid = (l + (l + suc k)) / 2 in
      let len = d.parts.length_same in
      let d2 = divide compare o d.result l (suc k) (omega arith) (omega arith) in
      let (next, a, b, apart, from) =
        into_place d.pivot stab d.result l (l + suc k) mid rot (omega arith) (omega arith) in
      let more =
        divides_behind compare o stab d.result d2.result d.pivot d2.pivot l (suc k) mid next d2.m
          rot (subst (λ t. Parts compare d.pivot stab d.result l t (l + suc k)) same d.parts)
          (subst
            (λ t.
              partition_loop compare (suc k) stab d.pivot l (l + suc k) true ≡ some (t, d.result))
            same d.loop)
          d2.loop d2.parts (omega arith) (omega arith) a b apart room d.pivot_at
          (sym from ∙ d2.pivot_at) d2.pivot_at in
      let (s', u, c) = split_sorts compare o f k sort d.result l d2 p more (omega arith) in
      let at_low : sorttable compare (suc f) d.result l d.m ≡ some d.result =
        ap (sorttable compare (suc f) d.result l) same ∙ sorttable_empty compare f d.result l in
      let from_low : sorttable compare (suc f) d.result d.m (l + suc k) ≡ some s' =
        ap (λ t. sorttable compare (suc f) d.result t (l + suc k)) same ∙ u in
      (
        s',
        sorttable_more compare (suc f) stab d.result d.result s' l d.m (l + suc k) (omega arith)
            d.runs at_low from_low,
        after-Sorts compare d.pivot stab d.result s' l d.m (l + suc k) d.parts c,
      )

  one_sorts :
      (o : IsCompare compare) (f : ℕ) (stab : List A) (l : ℕ)
      → l + 1 ≤ length stab
      → Sorted compare (suc f) stab l (l + 1)
  one_sorts o f stab l b =
      let d = divide compare o stab l 1 (omega arith) b in
      (
        d.result,
        sorttable_one compare f stab d.result l d.m d.runs,
        subst (λ t. Sorts compare stab d.result l t) (let e : suc l ≡ l + 1 = omega arith in e)
            (Parts-Sorts compare d.pivot stab d.result l d.m (
              subst (λ t. Parts compare d.pivot stab d.result l d.m t)
                (let e : l + 1 ≡ suc l = omega arith in e) d.parts)),
      )

  -- A part of `suc k` elements, when shorter ones are sorted with any fuel that is enough for them.
  full_sorts :
      (o : IsCompare compare) (f k : ℕ)
      → ((g : ℕ) → 2 * k < g → Sorter compare g k)
      → 2 * suc k < f
      → (stab : List A) (l : ℕ) → l + suc k ≤ length stab
      → Sorted compare f stab l (l + suc k)
  full_sorts o zero k sort e stab l b = absurd (omega arith)
  full_sorts o (suc f) zero sort e stab l b = one_sorts o f stab l b
  full_sorts o (suc zero) (suc k) sort e stab l b = absurd (omega arith)
  full_sorts o (suc (suc f)) (suc k) sort e stab l b =
      let d = divide compare o stab l (suc (suc k)) (omega arith) b in
      elim d.behind [
        | inl more ↦
            split_sorts compare o (suc f) (suc k) (sort (suc f) (omega arith)) stab l d
              (omega arith) more b
        | inr (same, rot) ↦
            rotation_sorts o f (suc k) (sort f (omega arith)) stab l d (omega arith) same rot b
      ]

  sorter : (o : IsCompare compare) (k f : ℕ) → 2 * k < f → Sorter compare f k
  sorter o k zero e stab l h a b c = absurd (omega arith)
  sorter o zero (suc f) e stab l h a b c =
      let same : h ≡ l = omega arith in
      (
        stab,
        ap (sorttable compare (suc f) stab l) same ∙ sorttable_empty compare f stab l,
        short-Sorts compare stab l h (omega arith),
      )
  sorter o (suc k) (suc f) e stab l h a b c = elim (Bool-cases (leb h (l + k))) [
    | inl g ↦ sorter o k (suc f) (omega arith) stab l h a b (leb→le h (l + k) g)
    | inr g ↦
        let full : l + suc k ≡ h = ground arith in
        subst (Sorted compare (suc f) stab l) full
          (full_sorts o (suc f) k (sorter o k) e stab l (omega arith))
  ]

  -- With a comparison function that is an order, and fuel of more than twice their number,
  -- sorttable comes back with the elements from low to high in order, and nothing else changed.
  pub sorttable-Sorts :
      (stab : List A) (low high fuel : ℕ)
      → IsCompare compare
      → low ≤ high
      → high ≤ length stab
      → 2 * (high - low) < fuel
      → (stab' : List A) × (sorttable compare fuel stab low high ≡ some stab')
        × Sorts compare stab stab' low high
  sorttable-Sorts stab low high fuel o a b e =
      sorter o (high - low) fuel e stab low high a b (omega arith)
