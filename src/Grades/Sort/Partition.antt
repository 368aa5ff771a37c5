-- ===== src/Grades/Sort/Partition.antt =====
-- What `partition` makes of the part of the table between `low` and `high`.
use c_language.Prelude.{
  ℕ, zero, suc, ◌+◌, ◌-◌, ◌/◌, ◌≤◌, ◌<◌, ◌≡◌, inl, inr, refl, ◌∙◌, Bool, true, false, some,
}
use c_language.Prelude.{List, length, get_elem?, set, get_elem?_in_range, arith}
use mathlib.Core.Path.{subst}
use c_language.Grades.Sort.{Sign, goes_high, swap, place, partition_loop, partition}
use c_language.Grades.Sort.Swap.{swapped, swapped-Swaps}
use c_language.Grades.Sort.Parts.{Parts, suits, high_step, low_step}

module _ {A : Type 0} where
  module _ (compare : A → A → Sign) (pivot : A) where
    place_high :
        (stab : List A) (x y : A) (l h h' : ℕ)
        → get_elem? stab l ≡ some x
        → get_elem? stab h' ≡ some y
        → h - 1 ≡ h'
        → place compare true stab l h ≡ some (l, h', set (set stab h' x) l y)
    unfolding place swap
    place_high stab x y l h h' a b c = rw (c, b, a) refl

    pub loop_high :
        (fuel : ℕ) (stab : List A) (x y : A) (l h h' : ℕ) (alt : Bool)
        → get_elem? stab l ≡ some x
        → get_elem? stab h' ≡ some y
        → h - 1 ≡ h'
        → (goes_high compare (compare x pivot) alt).0 ≡ true
        → partition_loop compare (suc fuel) stab pivot l h alt
          ≡ partition_loop compare fuel
              (set (set stab h' x) l y)
              pivot
              l
              h'
              (goes_high compare (compare x pivot) alt).1
    unfolding partition_loop
    loop_high fuel stab x y l h h' alt a b c g =
        rw (partition_loop, a, g, place_high stab x y l h h' a b c) refl

    pub loop_low :
        (fuel : ℕ) (stab : List A) (x : A) (l h : ℕ) (alt : Bool)
        → get_elem? stab l ≡ some x
        → (goes_high compare (compare x pivot) alt).0 ≡ false
        → partition_loop compare (suc fuel) stab pivot l h alt
          ≡ partition_loop compare fuel stab pivot
              (suc l)
              h
              (goes_high compare (compare x pivot) alt).1
    unfolding partition_loop place
    loop_low fuel stab x l h alt a g = rw (partition_loop, a, g) refl

    pub partition_loop-Parts :
        (fuel : ℕ) (stab : List A) (l h : ℕ) (alt : Bool)
        → l + fuel ≡ h
        → h ≤ length stab
        → (m : ℕ) × (stab' : List A) × (partition_loop compare fuel stab pivot l h alt
            ≡ some (m, stab'))
          × Parts compare pivot stab stab' l m h
    unfolding partition_loop swap swapped
    partition_loop-Parts zero stab l h alt e b = (
      l,
      stab,
      refl,
      record {
        l_le = omega arith;
        le_h = omega arith;
        length_same = refl;
        tally_same = λ p. refl;
        outside = λ i o. refl;
        lows = λ i p q. absurd (omega arith);
        highs = λ i p q. absurd (omega arith);
        source = λ i p q. (i, p, q, refl);
      },
    )
    partition_loop-Parts (suc fuel) stab l h alt e b =
        let (x, at_l) = get_elem?_in_range stab l (omega arith) in
        let (y, at_h) = get_elem?_in_range stab (l + fuel) (omega arith) in
        let below : h - 1 ≡ l + fuel = omega arith in
        let next = (goes_high compare (compare x pivot) alt).1 in
        elim (suits compare pivot x alt) [
          | inl (g, hi) ↦
              let w = swapped-Swaps stab l (l + fuel) x y (omega arith) (omega arith) at_l at_h in
              let len = w.length_same in
              let (m, s2, r, p) =
                partition_loop-Parts fuel
                  (swapped stab l (l + fuel) x y (omega arith) (omega arith) at_l at_h) l (l + fuel)
                  next refl (omega arith) in
              let q =
                subst (λ k. Parts compare pivot stab s2 l m k)
                  (let z : suc (l + fuel) ≡ h = omega arith in z)
                  (high_step compare pivot stab _ s2 x y l m (l + fuel) (omega arith) at_l at_h w hi
                    p) in
              (m, s2, loop_high fuel stab x y l h (l + fuel) alt at_l at_h below g ∙ r, q)
          | inr (g, lo) ↦
              let (m, s2, r, p) = partition_loop-Parts fuel stab (suc l) h next (omega arith) b in
              (
                m,
                s2,
                loop_low fuel stab x l h alt at_l g ∙ r,
                low_step compare pivot stab s2 x l m h at_l lo p,
              )
        ]

  -- For any comparison function, partition divides the part of the table from low to high, when
  -- that is not empty and lies in the table, at a place m: some element of the table is the
  -- pivot, those before m may stand below it and those from m on above it, by the comparison
  -- alone; nothing outside the part moves, and the table keeps its length and its elements.
  pub partition_divides :
      (compare : A → A → Sign) (stab : List A) (low high : ℕ)
      → low < high
      → high ≤ length stab
      → (pivot : A) × (m : ℕ) × (stab' : List A) × (get_elem? stab ((low + high) / 2) ≡ some pivot)
        × (partition compare stab low high ≡ some (m, stab'))
        × Parts compare pivot stab stab' low m high
  unfolding partition
  partition_divides compare stab low high a b =
      let (pivot, e) = get_elem?_in_range stab ((low + high) / 2) (omega arith) in
      let (m, stab', r, p) =
        partition_loop-Parts compare pivot (high - low) stab low high true (omega arith) b in
      (pivot, m, stab', e, rw e r, p)
