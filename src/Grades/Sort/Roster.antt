-- ===== src/Grades/Sort/Roster.antt =====
-- `sortroster` and `sortrosters` of hw2/src/sort.c on whole rosters.
use c_language.Prelude.{
  ℕ, zero, suc, ◌+◌, ◌*◌, ◌<◌, ◌≡◌, refl, ◌∙◌, Bool, true, some, List, [], ◌∷◌, length, get_elem?,
  arith,
}
use c_language.Grades.Sort.{Sign, reversed, sortroster, sort_sections, sortrosters}
use c_language.Grades.Sort.Swap.{tally}
use c_language.Grades.Sort.Parts.{low_sign}
use c_language.Grades.Sort.Order.{IsCompare}
use c_language.Grades.Sort.Sorted.{sorttable-Sorts}

-- The same students in order.
pub record SortOf {A : Type 0} (compare : A → A → Sign) (roster result : List A) : Type 0 where
  pub length_same : length result ≡ length roster
  pub tally_same : (p : A → Bool) → tally p result ≡ tally p roster
  pub ordered :
      (i j : ℕ) (x y : A)
      → i < j
      → get_elem? result i ≡ some x
      → get_elem? result j ≡ some y
      → low_sign (compare x y) ≡ true

abbrev pub AllSorted : {A : Type 0} → (A → A → Sign) → List (List A) → List (List A) → Type 0
AllSorted compare [] [] = Unit
AllSorted compare [] (r ∷ rs) = ⊥
AllSorted compare (s ∷ ss) [] = ⊥
AllSorted compare (s ∷ ss) (r ∷ rs) = SortOf compare s r × AllSorted compare ss rs

in_range : {A : Type 0} (xs : List A) (i : ℕ) (x : A) → get_elem? xs i ≡ some x → i < length xs
in_range [] i x e = cc
in_range (y ∷ xs) zero x e = omega arith
in_range (y ∷ xs) (suc i) x e = let ih = in_range xs i x e in omega arith

module _ {A : Type 0} (compare : A → A → Sign) (o : IsCompare compare) where
  length-reversed : (xs done : List A) → length (reversed compare xs done) ≡ length xs + length done
  unfolding reversed
  length-reversed [] done = omega arith
  length-reversed (x ∷ xs) done = let ih = length-reversed xs (x ∷ done) in omega arith

  tally-reversed :
      (p : A → Bool) (xs done : List A)
      → tally p (reversed compare xs done) ≡ tally p xs + tally p done
  unfolding tally reversed
  tally-reversed p [] done = omega arith
  tally-reversed p (x ∷ xs) done = let ih = tally-reversed p xs (x ∷ done) in omega arith

  abbrev pub Result : ℕ → List A → Type 0
  Result fuel roster =
      (result : List A) × (sortroster compare fuel roster ≡ some result)
      × SortOf compare roster result

  -- With a comparison function that is an order, and fuel of more than twice the number of the
  -- students, sortroster comes back with the same students in order.
  pub sortroster-SortOf :
      (fuel : ℕ) (roster : List A) → 2 * length roster < fuel → Result fuel roster
  unfolding sortroster tally
  sortroster-SortOf fuel [] e = (
    [],
    refl,
    record { length_same = refl; tally_same = λ p. refl; ordered = λ i j x y a b c. cc },
  )
  sortroster-SortOf fuel (s ∷ roster) e =
      let len = length-reversed roster (s ∷ []) in
      let (t, r, a) =
        sorttable-Sorts compare (reversed compare roster (s ∷ [])) 0 (suc (length roster)) fuel o
          (omega arith) (omega arith) (omega arith) in
      let len2 = a.length_same in
      (
        t,
        r,
        record {
          length_same = omega arith;
          tally_same = λ p. a.tally_same p ∙ (tally-reversed p roster (s ∷ []) ∙ omega arith);
          ordered = λ i j x y b c d.
              let h = in_range t j y d in a.ordered i j x y (omega arith) b (omega arith) c d;
        },
      )

  sort_sections-AllSorted :
      (sections : List (List A))
      → (results : List (List A)) × (sort_sections compare sections ≡ some results)
        × AllSorted compare sections results
  unfolding sort_sections
  sort_sections-AllSorted [] = ([], refl, tt)
  sort_sections-AllSorted (s ∷ sections) =
      let (t, r, a) = sortroster-SortOf (suc (2 * length s)) s (omega arith) in
      let (ts, rs, more) = sort_sections-AllSorted sections in (t ∷ ts, rw (r, rs) refl, (a, more))

  -- sortrosters comes back with the roster of the course and those of all sections in order, by
  -- any comparison function that is an order.
  pub sortrosters_sorts :
      (roster : List A) (sections : List (List A))
      → (result : List A) × (results : List (List A)) × (sortrosters compare roster sections
          ≡ some (result, results))
        × SortOf compare roster result
        × AllSorted compare sections results
  unfolding sortrosters
  sortrosters_sorts roster sections =
      let (t, r, a) = sortroster-SortOf (suc (2 * length roster)) roster (omega arith) in
      let (ts, rs, more) = sort_sections-AllSorted sections in (t, ts, rw (r, rs) refl, a, more)
