-- ===== src/Spooler/Eligible.antt =====
-- The set of printers that `print` of hw4/src/main.c puts together from names.
use c_language.Prelude.{ℕ, suc, ◌+◌, ◌/◌, ◌%◌, ◌^◌, ◌<◌, ◌≤◌, ◌≡◌, refl, some, List, [], ◌∷◌, arith}
use native.Mathlib.Nat.{pow-suc, pow-le-pow_right, one-le-pow, mul-div_cancel_left}
use c_language.Spooler.State.{Text, Printer}
use c_language.Spooler.Commands.{find_printer, add_eligible, eligible_loop}

small_power : (n : ℕ) → n < 31 → 2 ^ n < 2 ^ 31
small_power n h =
    let l : 2 ^ suc n ≤ 2 ^ 31 = pow-le-pow_right (omega arith) h in
    omega (arith, pow-suc 2 n, one-le-pow n 2 (omega arith))

add_fitting :
    (temp found : ℕ) (p : Printer)
    → temp + 2 ^ p.id < 2 ^ 32
    → add_eligible temp found (some p) ≡ some (temp + 2 ^ p.id, suc found)
unfolding add_eligible
add_fitting temp found p h = ground arith

next_bit : (n : ℕ) → 2 ^ suc n / 2 ^ n % 2 ≡ 0
next_bit n = rw (pow-suc 2 n, mul-div_cancel_left 2 (one-le-pow n 2 (omega arith))) refl

-- Where the printers that a command names are one printer below the last row, named twice, it is
-- counted twice, and the set that comes out has the bit of the row behind it in place of its own.
pub repeated_printer :
    (printers : List Printer) (name : Text) (p : Printer)
    → find_printer name printers ≡ some p
    → p.id < 31
    → (eligible_loop printers (name ∷ (name ∷ [])) 0 0 ≡ some (2 ^ suc p.id, 2))
      × (2 ^ suc p.id / 2 ^ p.id % 2 ≡ 0)
unfolding eligible_loop
repeated_printer printers name p e h =
    let small = small_power p.id h in
    let twice : 0 + 2 ^ p.id + 2 ^ p.id ≡ 2 ^ suc p.id = omega (arith, pow-suc 2 p.id) in
    (
      rw (e, add_fitting 0 0 p (omega arith), add_fitting (0 + 2 ^ p.id) 1 p (omega arith), twice)
          refl,
      next_bit p.id,
    )
