-- ===== src/Grades/Sort.antt =====
-- The sorting of rosters in hw2/src/sort.c. The table of pointers is a list, and `none` is an
-- access outside it. `compare` stands for the function that the caller hands over, by the sign of
-- its result.
pub mod Swap
pub mod Parts
pub mod Partition
pub mod Rotation
mod Nulls
pub mod Order
mod Second
mod Division
pub mod Sorted
pub mod Roster
pub mod Students
pub mod Compare
use c_language.Prelude.{
  ℕ, zero, suc, ◌+◌, ◌-◌, ◌*◌, ◌/◌, Bool, true, false, not, Option, none, some, ◌>>=◌,
}
use c_language.Prelude.{List, [], ◌∷◌, ◌++◌, length, get_elem?, set, ltb, leb, ◌==◌, if◌then◌else◌}

pub data Sign : Type 0 where
  negative : Sign
  null : Sign
  positive : Sign

module _ {A : Type 0} (compare : A → A → Sign) where
  -- Whether the element goes to the high end, and `alt` after that; `alt` is 1 or -1.
  unfoldable pub goes_high : Sign → Bool → Bool × Bool
  goes_high negative alt = (false, alt)
  goes_high null alt = (alt, not alt)
  goes_high positive alt = (true, alt)

  unfoldable pub swap : List A → ℕ → ℕ → Option (List A)
  swap stab l h = do temp ← get_elem? stab h; x ← get_elem? stab l; some (set (set stab h x) l temp)

  -- The element at `l` is put on the high end or the low end: `l`, `h` and the table after that.
  unfoldable pub place : Bool → List A → ℕ → ℕ → Option (ℕ × ℕ × List A)
  place true stab l h = swap stab l (h - 1) >>= (λ stab'. some (l, h - 1, stab'))
  place false stab l h = some (suc l, h, stab)

  -- The loop of `partition`; each round makes `h - l` one less, so that the fuel `h - l` lasts.
  unfoldable pub partition_loop : ℕ → List A → A → ℕ → ℕ → Bool → Option (ℕ × List A)
  partition_loop zero stab pivot l h alt = some (l, stab)
  partition_loop (suc fuel) stab pivot l h alt = do
    x ← get_elem? stab l
    let c = goes_high (compare x pivot) alt
    r ← place c.0 stab l h
    partition_loop fuel r.2 pivot r.0 r.1 c.1

  unfoldable pub partition : List A → ℕ → ℕ → Option (ℕ × List A)
  partition stab low high =
      get_elem? stab ((low + high) / 2)
      >>= (λ pivot. partition_loop (high - low) stab pivot low high true)

  unfoldable pub sorttable : ℕ → List A → ℕ → ℕ → Option (List A)
  sorttable zero stab low high = none
  sorttable (suc fuel) stab low high =
      if low == high
      then some stab
      else partition stab low high >>= (λ r.
        if (low + 1) == high
        then some r.1
        else sorttable fuel r.1 low r.0 >>= (λ stab'. sorttable fuel stab' r.0 high))

  unfoldable pub reversed : List A → List A → List A
  reversed [] done = done
  reversed (x ∷ xs) done = reversed xs (x ∷ done)

  -- The roster as the list of its students: the table is filled from the last place on, and
  -- linked again in its order. `sorttable` gets the fuel for its recursion.
  unfoldable pub sortroster : ℕ → List A → Option (List A)
  sortroster fuel [] = some []
  sortroster fuel (s ∷ roster) = sorttable fuel (reversed roster (s ∷ [])) 0 (suc (length roster))

  -- The loop of `sortrosters` over the sections, and the roster of the course before it. Fuel of
  -- more than twice the number of students is given to each.
  unfoldable pub sort_sections : List (List A) → Option (List (List A))
  sort_sections [] = some []
  sort_sections (roster ∷ sections) = do
    sorted ← sortroster (suc (2 * length roster)) roster
    rest ← sort_sections sections
    some (sorted ∷ rest)

  unfoldable pub sortrosters : List A → List (List A) → Option (List A × List (List A))
  sortrosters roster sections = do
    sorted ← sortroster (suc (2 * length roster)) roster
    rest ← sort_sections sections
    some (sorted, rest)
