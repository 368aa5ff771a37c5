-- ===== src/Grades/Sort/Nulls.antt =====
-- Two elements of the part that compare as equal to the pivot make `partition` divide behind the
-- low end, since `alt` sends them to different ends.
use c_language.Prelude.{
  ℕ, zero, suc, ◌+◌, ◌≤◌, ◌<◌, ◌≡◌, ◌≢◌, ◌⊎◌, inl, inr, refl, sym, ap, ◌∙◌, Bool, true, false, some,
}
use c_language.Prelude.{
  List, length, get_elem?, set, get_elem?_in_range, arith, ◌==◌, if◌then◌else◌, Bool-cases, ==_iff,
  ==_ne,
}
use mathlib.Core.Option.{some-injective}
use c_language.Grades.Sort.{Sign, negative, null, positive, goes_high, partition_loop}
use c_language.Grades.Sort.Swap.{Swaps, swapped, swapped-Swaps}
use c_language.Grades.Sort.Parts.{suits}
use c_language.Grades.Sort.Partition.{loop_high, loop_low, partition_loop-Parts}

module _ {A : Type 0} (compare : A → A → Sign) (pivot : A) where
  -- Where the element at `i` stands when the one at `l` has gone to `h`.
  abbrev new_place : ℕ → ℕ → ℕ → ℕ
  new_place l h i = if i == h then l else i

  record Moved (stab s1 : List A) (l h i : ℕ) (x : A) : Type 0 where
    from_l : l ≤ new_place l h i
    to_h : new_place l h i < h
    at : get_elem? s1 (new_place l h i) ≡ some x

  new_place-Moved :
      (stab s1 : List A) (l h i : ℕ) (x y z : A)
      → Swaps stab s1 l h x y
      → get_elem? stab h ≡ some y
      → l ≤ i
      → i ≤ h
      → i ≢ l
      → get_elem? stab i ≡ some z
      → Moved stab s1 l h i z
  new_place-Moved stab s1 l h i x y z w h_is a b n at_i = elim (Bool-cases (i == h)) [
    | inl e ↦
        let k = (==_iff i h).0 e in
        record {
          from_l = rw e (omega arith);
          to_h = rw e (omega arith);
          at = rw e (w.at_l ∙ sym h_is ∙ ap (get_elem? stab) (sym k) ∙ at_i);
        }
    | inr e ↦
        let k = ==_ne i h e in
        record { from_l = rw e a; to_h = rw e (omega arith); at = rw e (w.elsewhere i n k ∙ at_i) }
  ]

  new_place-ne : (l h i j : ℕ) → i ≢ j → i ≢ l → j ≢ l → new_place l h i ≢ new_place l h j
  new_place-ne l h i j n a b = ground arith

  null_low : (goes_high compare null false).0 ≡ false
  unfolding goes_high
  null_low = refl

  null_flips : (goes_high compare null true).1 ≡ false
  unfolding goes_high
  null_flips = refl

  stays : (s : Sign) → s ≢ null → (goes_high compare s true).1 ≡ true
  unfolding goes_high
  stays negative n = refl
  stays null n = absurd (n refl)
  stays positive n = refl

  high_stays :
      (s : Sign)
      → (goes_high compare s false).0 ≡ true
      → (s ≢ null) × ((goes_high compare s false).1 ≡ false)
  unfolding goes_high
  high_stays negative e = cc
  high_stays null e = cc
  high_stays positive e = ((λ h. cc), refl)

  -- A round that sends its element to the high end, and the run of the rounds behind it.
  record HighRound (fuel : ℕ) (stab s' : List A) (l m : ℕ) (alt : Bool) : Type 0 where
    x : A
    y : A
    s1 : List A
    l_is : get_elem? stab l ≡ some x
    h_is : get_elem? stab (l + fuel) ≡ some y
    swaps : Swaps stab s1 l (l + fuel) x y
    goes : (goes_high compare (compare x pivot) alt).0 ≡ true
    rest :
        partition_loop compare fuel s1 pivot l
          (l + fuel)
          (goes_high compare (compare x pivot) alt).1
        ≡ some (m, s')

  first_round :
      (fuel : ℕ) (stab s' : List A) (l m : ℕ) (alt : Bool)
      → l + suc fuel ≤ length stab
      → partition_loop compare (suc fuel) stab pivot l (l + suc fuel) alt ≡ some (m, s')
      → (l < m) ⊎ HighRound fuel stab s' l m alt
  unfolding swapped
  first_round fuel stab s' l m alt b r =
      let (x, at_l) = get_elem?_in_range stab l (omega arith) in
      let (y, at_h) = get_elem?_in_range stab (l + fuel) (omega arith) in
      elim (suits compare pivot x alt) [
        | inl (g, hi) ↦ inr (record {
          x = x;
          y = y;
          s1 = set (set stab (l + fuel) x) l y;
          l_is = at_l;
          h_is = at_h;
          swaps = swapped-Swaps stab l (l + fuel) x y (omega arith) (omega arith) at_l at_h;
          goes = g;
          rest =
              sym (
                loop_high compare pivot fuel stab x y l (l + suc fuel) (l + fuel) alt at_l at_h
                  (omega arith) g)
              ∙ r;
        })
        | inr (g, lo) ↦
            let r1 = sym (loop_low compare pivot fuel stab x l (l + suc fuel) alt at_l g) ∙ r in
            let (m', s2, r2, parts) =
              partition_loop-Parts compare pivot fuel stab (suc l) (l + suc fuel)
                (goes_high compare (compare x pivot) alt).1 (omega arith) b in
            let q : m' ≡ m = ap (λ k. k.0) (some-injective (m', s2) (m, s') (sym r2 ∙ r1)) in
            let le = parts.l_le in inl (omega arith)
      ]

  not_first :
      (stab : List A) (l i : ℕ) (x z : A)
      → get_elem? stab l ≡ some x
      → get_elem? stab i ≡ some z
      → compare z pivot ≡ null
      → compare x pivot ≢ null
      → i ≢ l
  not_first stab l i x z at_l at_i c n k =
      let same : z ≡ x = some-injective z x (sym at_i ∙ ap (get_elem? stab) k ∙ at_l) in
      n (ap (λ t. compare t pivot) (sym same) ∙ c)

  one_null :
      (fuel : ℕ) (stab s' : List A) (l m i : ℕ) (z : A)
      → l + fuel ≤ length stab
      → partition_loop compare fuel stab pivot l (l + fuel) false ≡ some (m, s')
      → l ≤ i
      → i < l + fuel
      → get_elem? stab i ≡ some z
      → compare z pivot ≡ null
      → l < m
  one_null zero stab s' l m i z b r li ih at_i c = absurd (omega arith)
  one_null (suc fuel) stab s' l m i z b r li ih at_i c =
      elim (first_round fuel stab s' l m false b r) [
        | inl low ↦ low
        | inr t ↦
            let (n, flip) = high_stays (compare t.x pivot) t.goes in
            let other = not_first stab l i t.x z t.l_is at_i c n in
            let v =
              new_place-Moved stab t.s1 l (l + fuel) i t.x t.y z t.swaps t.h_is li (omega arith)
                other at_i in
            let len = t.swaps.length_same in
            let rest : partition_loop compare fuel t.s1 pivot l (l + fuel) false ≡ some (m, s') =
              ap (λ k. partition_loop compare fuel t.s1 pivot l (l + fuel) k) (sym flip) ∙ t.rest in
            one_null fuel t.s1 s' l m (new_place l (l + fuel) i) z (omega arith) rest v.from_l
              v.to_h v.at c
      ]

  null_or_not : (s : Sign) → (s ≡ null) ⊎ (s ≢ null)
  null_or_not negative = inr (λ e. cc)
  null_or_not null = inl refl
  null_or_not positive = inr (λ e. cc)

  -- The first element was such a one: a second one is sent to the low end.
  after_null :
      (fuel : ℕ) (stab s' : List A) (l m i : ℕ) (z : A) (t : HighRound fuel stab s' l m true)
      → compare t.x pivot ≡ null
      → l + suc fuel ≤ length stab
      → l ≤ i
      → i < l + suc fuel
      → i ≢ l
      → get_elem? stab i ≡ some z
      → compare z pivot ≡ null
      → l < m
  after_null fuel stab s' l m i z t e b li ih n at_i c =
      let v =
        new_place-Moved stab t.s1 l (l + fuel) i t.x t.y z t.swaps t.h_is li (omega arith) n at_i in
      let len = t.swaps.length_same in
      let flip : (goes_high compare (compare t.x pivot) true).1 ≡ false =
        ap (λ k. (goes_high compare k true).1) e ∙ null_flips in
      let rest : partition_loop compare fuel t.s1 pivot l (l + fuel) false ≡ some (m, s') =
        ap (λ k. partition_loop compare fuel t.s1 pivot l (l + fuel) k) (sym flip) ∙ t.rest in
      one_null fuel t.s1 s' l m (new_place l (l + fuel) i) z (omega arith) rest v.from_l v.to_h v.at
        c

  pub two_nulls :
      (fuel : ℕ) (stab s' : List A) (l m i j : ℕ) (z w : A)
      → l + fuel ≤ length stab
      → partition_loop compare fuel stab pivot l (l + fuel) true ≡ some (m, s')
      → l ≤ i
      → i < l + fuel
      → l ≤ j
      → j < l + fuel
      → i ≢ j
      → get_elem? stab i ≡ some z
      → get_elem? stab j ≡ some w
      → compare z pivot ≡ null
      → compare w pivot ≡ null
      → l < m
  two_nulls zero stab s' l m i j z w b r li ih lj jh n at_i at_j c d = absurd (omega arith)
  two_nulls (suc fuel) stab s' l m i j z w b r li ih lj jh n at_i at_j c d =
      elim (first_round fuel stab s' l m true b r) [
        | inl low ↦ low
        | inr t ↦ elim (null_or_not (compare t.x pivot)) [
          | inl e ↦ elim (Bool-cases (i == l)) [
            | inl k ↦
                let q = (==_iff i l).0 k in
                after_null fuel stab s' l m j w t e b lj jh (λ p. n (q ∙ sym p)) at_j d
            | inr k ↦ after_null fuel stab s' l m i z t e b li ih (==_ne i l k) at_i c
          ]
          | inr e ↦
              let next = stays (compare t.x pivot) e in
              let i_l = not_first stab l i t.x z t.l_is at_i c e in
              let j_l = not_first stab l j t.x w t.l_is at_j d e in
              let u =
                new_place-Moved stab t.s1 l (l + fuel) i t.x t.y z t.swaps t.h_is li (omega arith)
                  i_l at_i in
              let v =
                new_place-Moved stab t.s1 l (l + fuel) j t.x t.y w t.swaps t.h_is lj (omega arith)
                  j_l at_j in
              let len = t.swaps.length_same in
              let rest : partition_loop compare fuel t.s1 pivot l (l + fuel) true ≡ some (m, s') =
                ap (λ k. partition_loop compare fuel t.s1 pivot l (l + fuel) k) (sym next)
                ∙ t.rest in
              two_nulls fuel t.s1 s' l m (new_place l (l + fuel) i) (new_place l (l + fuel) j) z w
                (omega arith) rest u.from_l u.to_h v.from_l v.to_h
                (new_place-ne l (l + fuel) i j n i_l j_l) u.at v.at c d
        ]
      ]
