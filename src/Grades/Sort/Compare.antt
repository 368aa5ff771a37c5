-- ===== src/Grades/Sort/Compare.antt =====
-- The comparison functions of hw2/src/sort.c on students, and `checkfordups`.
pub mod Keys
pub mod Laws
pub mod Order
use c_language.Prelude.{
  ℕ, zero, suc, Bool, true, false, Option, none, some, List, [], ◌∷◌, ltb, ◌==◌, if◌then◌else◌,
}
use Prim.Native.Nat.{compare, Ordering}
use c_language.Grades.Float.{FloatOps}
use c_language.Grades.Sort.{Sign, negative, null, positive}

-- strcmp on texts: the first bytes that differ decide, and a prefix is smaller.
unfoldable pub strcmp : List ℕ → List ℕ → Sign
strcmp [] [] = null
strcmp [] (d ∷ b) = negative
strcmp (c ∷ a) [] = positive
strcmp (c ∷ a) (d ∷ b) =
    let rest = strcmp a b in
    elim (compare c d) [ Ordering.lt ↦ negative | Ordering.eq ↦ rest | Ordering.gt ↦ positive ]

unfoldable pub or_else : Sign → Sign → Sign
or_else negative d = negative
or_else null d = d
or_else positive d = positive

module _ (F : FloatOps) where
  -- The fields that sorting reads.
  pub record Student : Type 0 where
    pub id : List ℕ
    pub surname : List ℕ
    pub name : List ℕ
    pub composite : F.Num

  -- if(c != 0) return(c)
  unfoldable pub comparename : Student → Student → Sign
  comparename s t = or_else (strcmp s.surname t.surname) (strcmp s.name t.name)

  unfoldable pub compareid : Student → Student → Sign
  compareid s t = strcmp s.id t.id

  -- The greater score comes first.
  unfoldable pub comparescore : Student → Student → Sign
  comparescore s t =
      if F.less t.composite s.composite
      then negative
      else (if F.less s.composite t.composite then positive else null)

  abbrev pub is_null : Sign → Bool
  is_null negative = false
  is_null null = true
  is_null positive = false

  -- The students that a warning names: those before an equal one.
  unfoldable pub duplicate : Student → List Student → List Student → List Student
  duplicate s [] rest = rest
  duplicate s (t ∷ roster) rest = if is_null (comparename s t) then (s ∷ rest) else rest

  unfoldable pub checkfordups : List Student → List Student
  checkfordups [] = []
  checkfordups (s ∷ roster) = duplicate s roster (checkfordups roster)
