-- ===== src/Grades/Sort/Rotation.antt =====
-- Where `partition` divides: never at the high end, and at the low end only by a rotation.
use c_language.Prelude.{
  ℕ, zero, suc, ◌+◌, ◌-◌, ◌/◌, ◌≤◌, ◌<◌, ◌≡◌, ◌≢◌, ◌⊎◌, inl, inr, refl, sym, ap, ◌∙◌, Bool, true,
  false, some,
}
use c_language.Prelude.{
  List, length, get_elem?, set, get_elem?_in_range, arith, ◌==◌, Bool-cases, ==_iff, ==_ne,
}
use mathlib.Core.Path.{subst}
use mathlib.Core.Option.{some-injective}
use c_language.Grades.Sort.{Sign, negative, null, positive, goes_high, partition_loop, partition}
use c_language.Grades.Sort.Swap.{Swaps, swapped, swapped-Swaps}
use c_language.Grades.Sort.Parts.{suits}
use c_language.Grades.Sort.Partition.{loop_high, loop_low, partition_loop-Parts}

module _ {A : Type 0} (compare : A → A → Sign) (pivot : A) where
  abbrev high? : A → Bool → Bool × Bool
  high? x alt = goes_high compare (compare x pivot) alt

  -- The part from `l` to `h` of `stab'` is that of `stab`, moved down by one place.
  pub record Rotated (stab stab' : List A) (l h : ℕ) : Type 0 where
    pub moved : (i : ℕ) → l ≤ i → suc i < h → get_elem? stab' i ≡ get_elem? stab (suc i)
    pub first_last : (i : ℕ) → l ≤ i → suc i ≡ h → get_elem? stab' i ≡ get_elem? stab l
    pub kept : (i : ℕ) → h ≤ i → get_elem? stab' i ≡ get_elem? stab i

  rotate_step :
      (stab s1 s' : List A) (x y : A) (l h : ℕ)
      → l ≤ h
      → get_elem? stab l ≡ some x
      → get_elem? stab h ≡ some y
      → Swaps stab s1 l h x y
      → Rotated s1 s' l h
      → Rotated stab s' l (suc h)
  rotate_step stab s1 s' x y l h b at_l at_h w r =
      let w_l = w.at_l in
      let w_h = w.at_h in
      let w_else = w.elsewhere in
      let moves = r.moved in
      let lasts = r.first_last in
      let keeps = r.kept in
      record {
        moved = λ i p q. elim (Bool-cases (suc i == h)) [
          | inl e ↦
              let k = (==_iff (suc i) h).0 e in
              lasts i p k ∙ w_l ∙ sym at_h ∙ ap (get_elem? stab) (sym k)
          | inr e ↦
              let k = ==_ne (suc i) h e in moves i p (omega arith) ∙ w_else (suc i) (omega arith) k
        ];
        first_last = λ i p q.
            let k : i ≡ h = omega arith in
            keeps i (omega arith) ∙ ap (get_elem? s1) k ∙ w_h ∙ sym at_l;
        kept = λ i p. keeps i (omega arith) ∙ w_else i (omega arith) (omega arith);
      }

  loop_zero :
      (stab : List A) (l h : ℕ) (alt : Bool)
      → partition_loop compare zero stab pivot l h alt ≡ some (l, stab)
  unfolding partition_loop
  loop_zero stab l h alt = refl

  pub loop_rotates :
      (fuel : ℕ) (stab s' : List A) (l h m : ℕ) (alt : Bool)
      → l + fuel ≡ h
      → h ≤ length stab
      → partition_loop compare fuel stab pivot l h alt ≡ some (m, s')
      → (l < m) ⊎ ((m ≡ l) × Rotated stab s' l h)
  unfolding swapped
  loop_rotates zero stab s' l h m alt e b r =
      let q = some-injective (l, stab) (m, s') (sym (loop_zero stab l h alt) ∙ r) in
      let t : stab ≡ s' = ap (λ k. k.1) q in
      inr (
        sym (ap (λ k. k.0) q),
        record {
          moved = λ i p q. absurd (omega arith);
          first_last = λ i p q. absurd (omega arith);
          kept = λ i p. ap (λ k. get_elem? k i) (sym t);
        },
      )
  loop_rotates (suc fuel) stab s' l h m alt e b r =
      let (x, at_l) = get_elem?_in_range stab l (omega arith) in
      let (y, at_h) = get_elem?_in_range stab (l + fuel) (omega arith) in
      let below : h - 1 ≡ l + fuel = omega arith in
      let next = (high? x alt).1 in
      elim (suits compare pivot x alt) [
        | inl (g, hi) ↦
            let w = swapped-Swaps stab l (l + fuel) x y (omega arith) (omega arith) at_l at_h in
            let s1 = set (set stab (l + fuel) x) l y in
            let len = w.length_same in
            let r1 : partition_loop compare fuel s1 pivot l (l + fuel) next ≡ some (m, s') =
              sym (loop_high compare pivot fuel stab x y l h (l + fuel) alt at_l at_h below g)
              ∙ r in
            elim (loop_rotates fuel s1 s' l (l + fuel) m next refl (omega arith) r1) [
              | inl more ↦ inl more
              | inr (same, rot) ↦ inr (
                same,
                subst (λ k. Rotated stab s' l k) (let z : suc (l + fuel) ≡ h = omega arith in z)
                    (rotate_step stab s1 s' x y l (l + fuel) (omega arith) at_l at_h w rot),
              )
            ]
        | inr (g, lo) ↦
            let r1 = sym (loop_low compare pivot fuel stab x l h alt at_l g) ∙ r in
            let (m', s2, r2, parts) =
              partition_loop-Parts compare pivot fuel stab (suc l) h next (omega arith) b in
            let q : m' ≡ m = ap (λ k. k.0) (some-injective (m', s2) (m, s') (sym r2 ∙ r1)) in
            let le = parts.l_le in inl (omega arith)
      ]

  stays_low :
      (s : Sign)
      → (goes_high compare s true).0 ≡ false
      → (s ≡ negative) × ((goes_high compare s true).1 ≡ true)
  unfolding goes_high
  stays_low negative e = (refl, refl)
  stays_low null e = cc
  stays_low positive e = cc

  -- An element that compares as the pivot itself goes to the high end first.
  pub divides_below :
      (fuel : ℕ) (stab s' : List A) (l h m i : ℕ) (p : A)
      → l + fuel ≡ h
      → h ≤ length stab
      → partition_loop compare fuel stab pivot l h true ≡ some (m, s')
      → l ≤ i
      → i < h
      → get_elem? stab i ≡ some p
      → compare p pivot ≡ null
      → m < h
  unfolding swapped
  divides_below zero stab s' l h m i p e b r li ih at_i c = absurd (omega arith)
  divides_below (suc fuel) stab s' l h m i p e b r li ih at_i c =
      let (x, at_l) = get_elem?_in_range stab l (omega arith) in
      let (y, at_h) = get_elem?_in_range stab (l + fuel) (omega arith) in
      let below : h - 1 ≡ l + fuel = omega arith in
      elim (suits compare pivot x true) [
        | inl (g, hi) ↦
            let w = swapped-Swaps stab l (l + fuel) x y (omega arith) (omega arith) at_l at_h in
            let s1 = set (set stab (l + fuel) x) l y in
            let len = w.length_same in
            let r1 : partition_loop compare fuel s1 pivot l (l + fuel) (high? x true).1
                ≡ some (m, s') =
              sym (loop_high compare pivot fuel stab x y l h (l + fuel) true at_l at_h below g)
              ∙ r in
            let (m', s2, r2, parts) =
              partition_loop-Parts compare pivot fuel s1 l (l + fuel) (high? x true).1 refl
                (omega arith) in
            let q : m' ≡ m = ap (λ k. k.0) (some-injective (m', s2) (m, s') (sym r2 ∙ r1)) in
            let le = parts.le_h in omega arith
        | inr (g, lo) ↦
            let (n, t) = stays_low (compare x pivot) g in
            let r1 : partition_loop compare fuel stab pivot (suc l) h true ≡ some (m, s') =
              ap (λ k. partition_loop compare fuel stab pivot (suc l) h k) (sym t)
              ∙ sym (loop_low compare pivot fuel stab x l h true at_l g)
              ∙ r in
            let other : i ≢ l = λ k.
              let same : p ≡ x = some-injective p x (sym at_i ∙ ap (get_elem? stab) k ∙ at_l) in
              let clash : null ≡ negative = sym c ∙ ap (λ z. compare z pivot) same ∙ n in cc in
            divides_below fuel stab s' (suc l) h m i p (omega arith) b r1 (omega arith) ih at_i c
      ]

-- Where every element compares as equal to itself, partition divides a part of the table that is
-- not empty before its high end, and either behind its low end or at it: in that case the part
-- is moved down by one place, its first element is the last one now, and nothing outside moves.
pub partition_progress :
    {A : Type 0} (compare : A → A → Sign) (stab : List A) (low high : ℕ)
    → ((x : A) → compare x x ≡ null)
    → low < high
    → high ≤ length stab
    → (pivot : A) × (m : ℕ) × (stab' : List A) × (partition compare stab low high ≡ some (m, stab'))
      × (m < high)
      × ((low < m) ⊎ ((m ≡ low) × Rotated compare pivot stab stab' low high))
unfolding partition
partition_progress compare stab low high same lt b =
    let middle = (low + high) / 2 in
    let (pivot, e) = get_elem?_in_range stab middle (omega arith) in
    let (m, s', r, parts) =
      partition_loop-Parts compare pivot (high - low) stab low high true (omega arith) b in
    (
      pivot,
      m,
      s',
      rw e r,
      divides_below compare pivot (high - low) stab s' low high m middle pivot (omega arith) b r
          (omega arith) (omega arith) e (same pivot),
      loop_rotates compare pivot (high - low) stab s' low high m true (omega arith) b r,
    )
