-- ===== src/Audio/Args/Numbers.antt =====
-- The numbers that `strToInt` and `strToHex` make of well-formed digits.
use c_language.Prelude.{ℕ, suc, ◌+◌, ◌-◌, ◌*◌, ◌^◌, ◌<◌, ◌≤◌, ◌≡◌, refl, ap, ◌∙◌, Option, some}
use c_language.Prelude.{
  List, [], ◌∷◌, length, u32, sign_extend, bit_or, arith, ◌>>=◌, ◌⊎◌, inl, inr, Option-cases,
}
use native.Mathlib.Nat.{pow-suc, pow-le-pow_right}
use c_language.Prelude.Bits.{bit_or_fields}
use c_language.Audio.Args.{
  str_to_int, str_to_int_loop, hex_digit, str_to_hex, str_to_hex_loop, hex_length,
}

abbrev pub AreDigits : List ℕ → Type 0
AreDigits [] = Unit {0}
AreDigits (c ∷ s) = (b'0' ≤ c) × (c ≤ b'9') × AreDigits s

-- The number that digits stand for, behind a number that stands in front of them.
abbrev pub decimal : ℕ → List ℕ → ℕ
decimal n [] = n
decimal n (c ∷ s) = decimal (n * 10 + (c - b'0')) s

decimal_grows : (n : ℕ) (s : List ℕ) → n ≤ decimal n s
decimal_grows n [] = omega arith
decimal_grows n (c ∷ s) = omega (arith, decimal_grows (n * 10 + (c - b'0')) s)

str_to_int_loop-decimal :
    (n : ℕ) (s : List ℕ) → AreDigits s → decimal n s < 2 ^ 31 → str_to_int_loop n s ≡ decimal n s
unfolding str_to_int_loop
str_to_int_loop-decimal n [] d h = refl
str_to_int_loop-decimal n (c ∷ s) (lo, hi, d) h =
    let grows = decimal_grows (n * 10 + (c - b'0')) s in
    let step : u32 (u32 (u32 (n * 10) + sign_extend c) + (2 ^ 32 - b'0')) ≡ n * 10 + (c - b'0') =
      ground arith in
    rw step (str_to_int_loop-decimal (n * 10 + (c - b'0')) s d h)

-- A decimal number that fits an `int` is read as its value.
pub str_to_int-decimal :
    (s : List ℕ) → AreDigits s → decimal 0 s < 2 ^ 31 → str_to_int s ≡ decimal 0 s
unfolding str_to_int
str_to_int-decimal s d h = str_to_int_loop-decimal 0 s d h

-- What the loops read, digit by digit; `none` where one is no digit.
abbrev hexadecimal : ℕ → List ℕ → Option ℕ
hexadecimal n [] = some n
hexadecimal n (c ∷ s) = hex_digit c >>= λ d. hexadecimal (n * 16 + d) s

hex_digit-lt : (c : ℕ) {d : ℕ} → hex_digit c ≡ some d → d < 16
unfolding hex_digit
hex_digit-lt c e = ground arith

str_to_hex_loop-hexadecimal :
    (k n : ℕ) (s : List ℕ) (v : ℕ)
    → k + length s ≤ 8
    → n < 16 ^ k
    → hexadecimal n s ≡ some v
    → (str_to_hex_loop n s ≡ v) × (v < 2 ^ 32)
unfolding str_to_hex_loop
str_to_hex_loop-hexadecimal k n [] v l h e =
    let top : 16 ^ k ≤ 16 ^ 8 =
      pow-le-pow_right {n = 16} (omega arith) {i = k} {j = 8} (omega arith) in
    let same : n ≡ v = cc in (same, omega arith)
str_to_hex_loop-hexadecimal k n (c ∷ s) v l h e = elim (Option-cases (hex_digit c)) [
  | inl no_digit ↦ let e' = rw no_digit at e in cc
  | inr (d, digit) ↦
      let small = hex_digit-lt c digit in
      let top : 16 ^ k ≤ 16 ^ 7 =
        pow-le-pow_right {n = 16} (omega arith) {i = k} {j = 7} (omega arith) in
      let joined : bit_or (u32 (n * 2 ^ 4)) d ≡ n * 16 + d =
        ap (λ t. bit_or t d) (omega arith) ∙ bit_or_fields 4 n d small in
      let below : n * 16 + d < 16 ^ suc k = omega (arith, pow-suc 16 k) in
      rw (digit, str_to_hex_loop, joined)
        (str_to_hex_loop-hexadecimal (suc k) (n * 16 + d) s v (omega arith) below (rw digit at e))
]

read_value :
    (s : List ℕ) (v : ℕ)
    → length s ≤ 8
    → hexadecimal 0 s ≡ some v
    → (str_to_hex s ≡ v) × (v < 2 ^ 32)
unfolding str_to_hex
read_value s v l e = str_to_hex_loop-hexadecimal 0 0 s v (omega arith) (omega arith) e

-- The digit with value `d`: a decimal one, or a letter of either case from `a` on.
abbrev pub IsHexDigit : ℕ → ℕ → Type 0
IsHexDigit c d =
    ((d < 10) × (c ≡ b'0' + d))
    ⊎ ((10 ≤ d) × (d < 16) × ((c ≡ b'a' + (d - 10)) ⊎ (c ≡ b'A' + (d - 10))))

-- The text has the digits of `ds`, which are the values of its bytes.
abbrev pub Spells : List ℕ → List ℕ → Type 0
Spells [] [] = Unit
Spells [] (d ∷ ds) = ⊥
Spells (c ∷ s) [] = ⊥
Spells (c ∷ s) (d ∷ ds) = IsHexDigit c d × Spells s ds

-- The number with digits `ds` to the base 16, behind a number that stands in front of them.
abbrev pub base16 : ℕ → List ℕ → ℕ
base16 n [] = n
base16 n (d ∷ ds) = base16 (16 * n + d) ds

hex_digit-IsHexDigit : (c d : ℕ) → IsHexDigit c d → hex_digit c ≡ some d
unfolding hex_digit
hex_digit-IsHexDigit c d (inl h) = ground arith
hex_digit-IsHexDigit c d (inr (lo, hi, inl h)) = ground arith
hex_digit-IsHexDigit c d (inr (lo, hi, inr h)) = ground arith

hexadecimal-Spells : (n : ℕ) (s ds : List ℕ) → Spells s ds → hexadecimal n s ≡ some (base16 n ds)
hexadecimal-Spells n [] [] h = refl
hexadecimal-Spells n [] (d ∷ ds) h = absurd h
hexadecimal-Spells n (c ∷ s) [] h = absurd h
hexadecimal-Spells n (c ∷ s) (d ∷ ds) h =
    let same : n * 16 + d ≡ 16 * n + d = omega arith in
    rw (hex_digit-IsHexDigit c d h.0, same) (hexadecimal-Spells (16 * n + d) s ds h.1)

-- A text of at most eight hexadecimal digits, each a decimal digit or a letter of either case, is
-- read as the number that they stand for to the base 16, with nothing cut off.
pub str_to_hex-hexadecimal :
    (s ds : List ℕ)
    → length s ≤ 8
    → Spells s ds
    → (str_to_hex s ≡ base16 0 ds) × (base16 0 ds < 2 ^ 32)
str_to_hex-hexadecimal s ds l h = read_value s (base16 0 ds) l (hexadecimal-Spells 0 s ds h)

-- The loop that checks a key accepts exactly the hexadecimal numbers, and counts their digits.
hex_length-hexadecimal :
    (n : ℕ) (s : List ℕ) (len : ℕ)
    → hex_length s ≡ some len
    → (len ≡ length s) × (v : ℕ) × (hexadecimal n s ≡ some v)
unfolding hex_length
hex_length-hexadecimal n [] len e = (ground arith, n, refl)
hex_length-hexadecimal n (c ∷ s) len e = elim (Option-cases (hex_digit c)) [
  | inl no_digit ↦ let e' = rw no_digit at e in cc
  | inr (d, digit) ↦ elim (Option-cases (hex_length s)) [
    | inl bad ↦ let e' = rw (digit, bad) at e in cc
    | inr (m, good) ↦
        let (l, v, h) = hex_length-hexadecimal (n * 16 + d) s m good in
        let e' : some (m + 1) ≡ some len = rw (digit, good) at e in (ground arith, v, rw digit h)
  ]
]

pub hex_length-key :
    (s : List ℕ) (len : ℕ) → hex_length s ≡ some len → len ≤ 8 → str_to_hex s < 2 ^ 32
hex_length-key s len e h =
    let (l, v, hex) = hex_length-hexadecimal 0 s len e in
    let (same, small) = read_value s v (omega arith) hex in rw same small
