-- ===== src/Grades/Sort/Division.antt =====
-- One call of `sorttable` in hw2/src/sort.c whose `partition` divides behind the low end.
use c_language.Prelude.{ℕ, suc, ◌+◌, ◌-◌, ◌/◌, ◌≤◌, ◌<◌, ◌≡◌, ◌⊎◌, refl, true, false, some}
use c_language.Prelude.{List, length, get_elem?, get_elem?_in_range, arith, ◌==◌, ==_refl}
use c_language.Grades.Sort.{Sign, partition_loop, partition, sorttable}
use c_language.Grades.Sort.Parts.{Parts}
use c_language.Grades.Sort.Partition.{partition_loop-Parts}
use c_language.Grades.Sort.Rotation.{Rotated, loop_rotates, divides_below}
use c_language.Grades.Sort.Order.{IsCompare, Sorts, halves-Sorts}

module _ {A : Type 0} (compare : A → A → Sign) where
  -- One call of `partition` on the `n` elements from `l` on.
  pub record Division (stab : List A) (l n : ℕ) : Type 0 where
    pub pivot : A
    pub m : ℕ
    pub result : List A
    pub pivot_at : get_elem? stab ((l + (l + n)) / 2) ≡ some pivot
    pub runs : partition compare stab l (l + n) ≡ some (m, result)
    pub loop : partition_loop compare n stab pivot l (l + n) true ≡ some (m, result)
    pub parts : Parts compare pivot stab result l m (l + n)
    pub below : m < l + n
    pub behind : (l < m) ⊎ ((m ≡ l) × Rotated compare pivot stab result l (l + n))

  pub divide :
      (o : IsCompare compare) (stab : List A) (l n : ℕ)
      → 0 < n
      → l + n ≤ length stab
      → Division stab l n
  unfolding partition
  divide o stab l n p b =
      let middle = (l + (l + n)) / 2 in
      let (pivot, e) = get_elem?_in_range stab middle (omega arith) in
      let (m, s', r, parts) = partition_loop-Parts compare pivot n stab l (l + n) true refl b in
      let fuel : l + n - l ≡ n = omega arith in
      record {
        pivot = pivot;
        m = m;
        result = s';
        pivot_at = e;
        runs = rw (e, fuel) r;
        loop = r;
        parts = parts;
        below =
            divides_below compare pivot n stab s' l (l + n) m middle pivot refl b r (omega arith)
              (omega arith) e (o.same pivot);
        behind = loop_rotates compare pivot n stab s' l (l + n) m true refl b r;
      }

  pub sorttable_empty :
      (f : ℕ) (stab : List A) (l : ℕ) → sorttable compare (suc f) stab l l ≡ some stab
  unfolding sorttable
  sorttable_empty f stab l = rw (==_refl l) refl

  pub sorttable_one :
      (f : ℕ) (stab s' : List A) (l m : ℕ)
      → partition compare stab l (l + 1) ≡ some (m, s')
      → sorttable compare (suc f) stab l (l + 1) ≡ some s'
  unfolding sorttable
  sorttable_one f stab s' l m r =
      let e : (l == l + 1) ≡ false = ground arith in rw (e, r, ==_refl (l + 1)) refl

  pub sorttable_more :
      (f : ℕ) (stab s1 s2 s3 : List A) (l m h : ℕ)
      → l + 1 < h
      → partition compare stab l h ≡ some (m, s1)
      → sorttable compare f s1 l m ≡ some s2
      → sorttable compare f s2 m h ≡ some s3
      → sorttable compare (suc f) stab l h ≡ some s3
  unfolding sorttable
  sorttable_more f stab s1 s2 s3 l m h b r u v =
      let e : (l == h) ≡ false = ground arith in
      let g : (l + 1 == h) ≡ false = ground arith in rw (sorttable, e, r, g, u, v) refl

  abbrev pub Sorted : ℕ → List A → ℕ → ℕ → Type 0
  Sorted f stab l h =
      (s' : List A) × (sorttable compare f stab l h ≡ some s') × Sorts compare stab s' l h

  abbrev pub Sorter : ℕ → ℕ → Type 0
  Sorter f k = (stab : List A) (l h : ℕ) → l ≤ h → h ≤ length stab → h ≤ l + k → Sorted f stab l h

  -- A division behind the low end leaves two smaller parts.
  pub split_sorts :
      (o : IsCompare compare) (f k : ℕ)
      → Sorter f k
      → (stab : List A) (l : ℕ) (d : Division stab l (suc k)) → 0 < k
      → l < d.m
      → l + suc k ≤ length stab
      → Sorted (suc f) stab l (l + suc k)
  split_sorts o f k sort stab l d p b room =
      let below = d.below in
      let len = d.parts.length_same in
      let (s2, u, a) = sort d.result l d.m (omega arith) (omega arith) (omega arith) in
      let len2 = a.length_same in
      let (s3, v, c) = sort s2 d.m (l + suc k) (omega arith) (omega arith) (omega arith) in
      (
        s3,
        sorttable_more f stab d.result s2 s3 l d.m (l + suc k) (omega arith) d.runs u v,
        halves-Sorts compare o d.pivot stab d.result s2 s3 l d.m (l + suc k) d.parts a c,
      )
