-- ===== src/Grades/Float.antt =====
-- The type `double` and its operations as hw2 uses them. `less` and `same` are `<` and `==`.
-- `narrow` is the conversion to `float`, which is a part of the same type.
use c_language.Prelude.{ℕ, Bool}

pub record FloatOps : Type 1 where
  pub Num : Type 0
  pub less : Num → Num → Bool
  pub same : Num → Num → Bool
  pub plus : Num → Num → Num
  pub minus : Num → Num → Num
  pub times : Num → Num → Num
  pub quotient : Num → Num → Num
  pub of_int : ℕ → Num
  pub root : Num → Num
  pub narrow : Num → Num
  -- EPSILON of hw2/include/global.h.
  pub epsilon : Num
