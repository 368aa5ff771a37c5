-- ===== src/Spooler/Covered.antt =====
-- What a body of the interactive loop of hw4/src/main.c leaves for the loop over the jobs.

use c_language.Prelude.{
  ℕ, ◌<◌, ◌≤◌, ◌≡◌, refl, Bool, true, false, List, [], ◌∷◌, length, arith, ltb, if◌then◌else◌,
}
use c_language.Spooler.State.{Text, Printer, Outcome, falls, continues, breaks, exits, undefined}
use c_language.Spooler.Commands.{}
use c_language.Spooler.Schedule.{disable_row, disable_loop, enable_row, enable_loop}
use c_language.Spooler.Rounds.{}

abbrev pub IsDefined : Outcome → Type 0
IsDefined undefined = ⊥
IsDefined (falls s out) = Unit
IsDefined (continues s out) = Unit
IsDefined (breaks s out) = Unit
IsDefined (exits s out) = Unit

-- A defined body, which leaves a printer in the row of every job where the loop over the jobs
-- follows.
abbrev pub IsCovered : Outcome → Type 0
IsCovered undefined = ⊥
IsCovered (falls s out) = length s.jobs ≤ length s.printers
IsCovered (continues s out) = Unit
IsCovered (breaks s out) = Unit
IsCovered (exits s out) = Unit

pub IsCovered-if :
    (b : Bool) (x y : Outcome) → IsCovered x → IsCovered y → IsCovered (if b then x else y)
IsCovered-if true x y f g = f
IsCovered-if false x y f g = g

-- The last branch is the one with the access, which is in bounds.
pub in_bounds : (b : Bool) (x y : Outcome) → b ≡ true → IsCovered x → IsCovered (if b then x else y)
in_bounds true x y e f = f
in_bounds false x y e f = cc

pub defined : (b : Bool) (x y : Outcome) → b ≡ true → IsDefined x → IsDefined (if b then x else y)
defined true x y e f = f
defined false x y e f = cc

pub disable_loop-length : (a : Text) (ps : List Printer) → length (disable_loop a ps).1 ≡ length ps
unfolding disable_loop disable_row
disable_loop-length a [] = refl
disable_loop-length a (p ∷ ps) = let ih = disable_loop-length a ps in ground arith

pub enable_loop-length : (a : Text) (ps : List Printer) → length (enable_loop a ps).1 ≡ length ps
unfolding enable_loop enable_row
enable_loop-length a [] = refl
enable_loop-length a (p ∷ ps) = let ih = enable_loop-length a ps in ground arith

pub ltb_of : (a b : ℕ) → a < b → ltb a b ≡ true
ltb_of a b h = ground arith
