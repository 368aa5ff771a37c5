-- ===== src/Prelude/Bits/Step.antt =====
-- The lowest digit of a bit operation, from the library's recursion on binary digits.
use mathlib.Core.Path.{◌≡◌, refl, ap, ◌∙◌}
use native.Mathlib.Omega.{arith}
use Prim.Native.Nat.{ℕ, zero, suc, ◌+◌, ◌-◌, ◌*◌, ◌/◌, ◌%◌, ◌≤◌, ◌<◌, min, max}
use Prim.Native.Nat.{bit_and, bit_or, bit_xor, digits, bitwise, differ}
use Prim.Native.Nat.{bit_and-bitwise, bit_or-bitwise, bit_xor-bitwise}

-- A digit in front of the others.
abbrev pub in_front : ℕ → ℕ → ℕ
in_front high low = high * 2 + low

module _ (rest : ℕ → ℕ) (op : ℕ → ℕ → ℕ) where
  spare_round : (fuel x y : ℕ) → x ≤ fuel → digits rest op (suc fuel) x y ≡ digits rest op fuel x y
  spare_round zero zero y h = refl
  spare_round (suc fuel) zero y h = refl
  spare_round zero (suc x) y h = absurd (omega arith)
  spare_round (suc fuel) (suc x) y h =
      ap (λ t. in_front t (op (suc x % 2) (y % 2)))
        (spare_round fuel (suc x / 2) (y / 2) (omega arith))

  spare_rounds :
      (spare fuel x y : ℕ) → x ≤ fuel → digits rest op (spare + fuel) x y ≡ digits rest op fuel x y
  spare_rounds zero fuel x y h = ap (λ n. digits rest op n x y) (omega arith)
  spare_rounds (suc spare) fuel x y h =
      ap (λ n. digits rest op n x y)
        (let e : suc spare + fuel ≡ suc (spare + fuel) = omega arith in e)
      ∙ spare_round (spare + fuel) x y (omega arith)
      ∙ spare_rounds spare fuel x y h

  lowest_digit :
      (x y : ℕ)
      → bitwise rest op (suc x) y
        ≡ in_front (bitwise rest op (suc x / 2) (y / 2)) (op (suc x % 2) (y % 2))
  lowest_digit x y =
      let half = suc x / 2 in
      let e : x ≡ (x - half) + half = omega arith in
      ap (λ t. in_front t (op (suc x % 2) (y % 2)))
        (ap (λ n. digits rest op n half (y / 2)) e
          ∙ spare_rounds (x - half) half half (y / 2) (omega arith))

differ_digits : (x y : ℕ) → x < 2 → y < 2 → differ x y ≡ (x + y) % 2
differ_digits zero y p q = omega arith
differ_digits (suc zero) zero p q = refl
differ_digits (suc zero) (suc zero) p q = refl
differ_digits (suc zero) (suc (suc y)) p q = absurd (omega arith)
differ_digits (suc (suc x)) y p q = absurd (omega arith)

pub zero-bit_xor : (y : ℕ) → bit_xor 0 y ≡ y
zero-bit_xor y = simp bit_xor-bitwise

pub bit_xor_step :
    (x y : ℕ) → bit_xor x y ≡ in_front (bit_xor (x / 2) (y / 2)) ((x % 2 + y % 2) % 2)
bit_xor_step zero y = omega (arith, zero-bit_xor y, zero-bit_xor (y / 2))
bit_xor_step (suc x) y =
    rw (← differ_digits (suc x % 2) (y % 2) (omega arith) (omega arith))
      (simp bit_xor-bitwise (lowest_digit (λ n. n) differ x y))

pub bit_and_step :
    (x y : ℕ) → bit_and x y ≡ in_front (bit_and (x / 2) (y / 2)) (min (x % 2) (y % 2))
bit_and_step (suc x) y = simp bit_and-bitwise (lowest_digit (λ n. 0) min x y)
bit_and_step zero y = simp bit_and-bitwise (omega arith)

pub bit_or_step : (x y : ℕ) → bit_or x y ≡ in_front (bit_or (x / 2) (y / 2)) (max (x % 2) (y % 2))
bit_or_step (suc x) y = simp bit_or-bitwise (lowest_digit (λ n. n) max x y)
bit_or_step zero y = simp bit_or-bitwise (omega arith)
