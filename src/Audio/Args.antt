-- ===== src/Audio/Args.antt =====
-- `validargs`, `strToInt` and `strToHex` of hw1/src/hw1.c. A string is the list of its bytes
-- without the terminating zero, `argv` the list of the arguments; a read behind a terminator or
-- through the null pointer at the end of `argv` is `none`. The options are the 64-bit word
-- `global_options`.
pub mod Numbers
pub mod Options
pub mod Rejected
use c_language.Prelude.{
  ℕ, zero, suc, ◌+◌, ◌-◌, ◌*◌, ◌^◌, Bool, true, false, not, ◌&&◌, Option, none, some,
}
use c_language.Prelude.{
  List, [], ◌∷◌, length, get_elem?, u32, sign_extend, is_negative, ltb, leb, ◌==◌,
}
use c_language.Prelude.{if◌then◌else◌, ◌>>=◌, ◌<<<◌, bit_or}

-- `*(str+i)`
abbrev pub char_at : List ℕ → ℕ → Option ℕ
char_at [] zero = some 0
char_at [] (suc i) = none
char_at (c ∷ s) zero = some c
char_at (c ∷ s) (suc i) = char_at s i

-- res = res*10 + *(str+i) - '0', in an `int`.
unfoldable pub str_to_int_loop : ℕ → List ℕ → ℕ
str_to_int_loop res [] = res
str_to_int_loop res (c ∷ s) =
    str_to_int_loop (u32 (u32 (u32 (res * 10) + sign_extend c) + (2 ^ 32 - b'0'))) s

unfoldable pub str_to_int : List ℕ → ℕ
str_to_int s = str_to_int_loop 0 s

-- The digit that a character stands for, by the three tests of `strToHex`.
unfoldable pub hex_digit : ℕ → Option ℕ
hex_digit c =
    if leb b'0' c && leb c b'9'
    then some (c - b'0')
    else (if leb b'A' c && leb c b'F'
        then some (c - b'A' + 10)
        else (if leb b'a' c && leb c b'f' then some (c - b'a' + 10) else none))

-- The shift comes first, also before a `break`.
unfoldable pub str_to_hex_loop : ℕ → List ℕ → ℕ
str_to_hex_loop result [] = result
str_to_hex_loop result (c ∷ s) = elim (hex_digit c) [
  | some d ↦ str_to_hex_loop (bit_or (u32 (result <<< 4)) d) s
  | none ↦ u32 (result <<< 4)
]

unfoldable pub str_to_hex : List ℕ → ℕ
str_to_hex s = str_to_hex_loop 0 s

-- The loop over the characters of a key: their number, or `none` at one that is no digit.
unfoldable pub hex_length : List ℕ → Option ℕ
hex_length [] = some 0
hex_length (c ∷ s) = hex_digit c >>= λ d. (hex_length s >>= λ n. some (n + 1))

-- A return value with `global_options` as it then is.
abbrev pub Verdict : Type 0
Verdict = Option (Bool × ℕ)

abbrev pub accept : ℕ → Verdict
accept o = some (true, o)

abbrev pub reject : ℕ → Verdict
reject o = some (false, o)

-- ret=strToInt(s); if(ret>=1 && ret<=1024){ ret -=1; global_options |=ret << 48; next }
unfoldable pub take_factor : List ℕ → ℕ → (ℕ → Verdict) → Verdict
take_factor s o next =
    let ret = str_to_int s in
    if not (is_negative ret) && (leb 1 ret && leb ret 1024)
    then next (bit_or o ((ret - 1) <<< 48))
    else reject o

-- `*(*(argv+i)+k)`
abbrev pub arg_char : List (List ℕ) → ℕ → ℕ → Option ℕ
arg_char argv i k = get_elem? argv i >>= λ a. char_at a k

-- Behind -f and its factor: an optional -p.
unfoldable pub after_factor : List (List ℕ) → ℕ → Verdict
after_factor argv o =
    if length argv == 5
    then (do t ← arg_char argv 4 1; if t == b'p' then accept (bit_or o (2 ^ 59)) else reject o)
    else (if ltb 5 (length argv) then reject o else accept o)

unfoldable pub factor_args : List (List ℕ) → ℕ → Verdict
factor_args argv o =
    if ltb 3 (length argv)
    then (do
      fac ← arg_char argv 3 0
      a ← get_elem? argv 3
      if fac == b'-' then reject o else take_factor a o (after_factor argv))
    else reject o

unfoldable pub factor_after_p : List (List ℕ) → ℕ → Verdict
factor_after_p argv o =
    if length argv == 5
    then (do
      t ← arg_char argv 3 1
      a ← get_elem? argv 4
      if t == b'f' then take_factor a o accept else reject o)
    else (if length argv == 3 then accept o else reject o)

-- The code for -u and, word for word the same but for the bit, for -d.
unfoldable pub speed_args : List (List ℕ) → ℕ → Verdict
speed_args argv o =
    if ltb 2 (length argv)
    then (do
      t ← arg_char argv 2 1
      if t == b'f'
          then factor_args argv o
          else (if t == b'p' then factor_after_p argv (bit_or o (2 ^ 59)) else reject o))
    else accept o

-- The key that a loop has checked goes into the low word, if it has at most eight digits.
unfoldable pub take_key : List ℕ → List ℕ → ℕ → (ℕ → Verdict) → Verdict
take_key checked key o next = elim (hex_length checked) [
  | none ↦ reject o
  | some counter ↦ if leb counter 8 then next (bit_or o (str_to_hex key)) else reject o
]

unfoldable pub after_key : List (List ℕ) → ℕ → Verdict
after_key argv o =
    if length argv == 5
    then (do t ← arg_char argv 4 1; if t == b'p' then accept (bit_or o (2 ^ 59)) else reject o)
    else (if ltb 4 (length argv) then reject o else accept o)

-- The digits of `argv[3]` are checked, and those of `argv[4]` are read.
unfoldable pub key_after_p : List (List ℕ) → ℕ → Verdict
key_after_p argv o =
    if length argv == 5
    then (do
      t ← arg_char argv 3 1
      a ← get_elem? argv 3
      b ← get_elem? argv 4
      if t == b'k' then take_key a b o accept else reject o)
    else reject o

unfoldable pub crypt_args : List (List ℕ) → ℕ → Verdict
crypt_args argv o =
    if ltb 2 (length argv)
    then (do
      t ← arg_char argv 2 1
      if t == b'k' && leb 4 (length argv)
          then (do a ← get_elem? argv 3; take_key a a o (after_key argv))
          else (if t == b'p' then key_after_p argv (bit_or o (2 ^ 59)) else reject o))
    else accept o

-- The branches on the letter of the first option.
unfoldable pub mode_args : List (List ℕ) → ℕ → ℕ → Verdict
mode_args argv o t =
    if t == b'h'
    then accept (bit_or o (2 ^ 63))
    else (if t == b'u'
        then speed_args argv (bit_or o (2 ^ 62))
        else (if t == b'd'
            then speed_args argv (bit_or o (2 ^ 61))
            else (if t == b'c' then crypt_args argv (bit_or o (2 ^ 60)) else reject o)))

unfoldable pub validargs : List (List ℕ) → ℕ → Verdict
validargs argv o =
    if ltb 1 (length argv) then (do t ← arg_char argv 1 1; mode_args argv o t) else reject o
