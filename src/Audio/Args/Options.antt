-- ===== src/Audio/Args/Options.antt =====
-- The option words that `validargs` leaves behind when it accepts.
use native.Mathlib.Nat.{add-zero}
use c_language.Prelude.{
  ℕ, ◌+◌, ◌-◌, ◌*◌, ◌^◌, ◌<◌, ◌≤◌, ◌≡◌, refl, ap, sym, ◌∙◌, Bool, true, false, none, some,
}
use c_language.Prelude.{
  List, [], ◌∷◌, length, bit_or, arith, ◌⊎◌, inl, inr, Option-cases, Bool-cases, ◌==◌,
  if◌then◌else◌, get_elem?, ltb, not, >>=-some, ==_iff, leb, ◌&&◌,
}
use c_language.Prelude.Bits.{bit_or_fields, bit_or_split, bit_or-zero}
use c_language.Audio.Args.{
  char_at, arg_char, str_to_int, str_to_hex, hex_digit, hex_length, Verdict, accept, reject,
}
use c_language.Audio.Args.{
  take_factor, after_factor, factor_args, factor_after_p, speed_args, take_key,
}
use c_language.Audio.Args.{after_key, key_after_p, crypt_args, mode_args, validargs}
use c_language.Audio.Args.Numbers.{hex_length-key}

-- The fields of an option word: the mode bits from bit 60 on, bit 59 for -p, the factor less one
-- from bit 48 on, or the key in the low word.
abbrev pub speed_word : ℕ → ℕ → ℕ → ℕ
speed_word mode p f = (mode * 2 + p) * 2 ^ 59 + f * 2 ^ 48

abbrev pub crypt_word : ℕ → ℕ → ℕ
crypt_word p key = (2 + p) * 2 ^ 59 + key

-- The option -p sets its bit beside the mode bits, whatever stands below.
set_p :
    (mode low : ℕ)
    → low < 2 ^ 59
    → bit_or (mode * 2 * 2 ^ 59 + low) (2 ^ 59) ≡ (mode * 2 + 1) * 2 ^ 59 + low
set_p mode low h =
    let e = bit_or_split 59 (mode * 2) low 1 0 h (omega arith) in
    let one : bit_or (mode * 2) 1 ≡ mode * 2 + 1 = bit_or_fields 1 mode 1 (omega arith) in
    omega
      (arith, e, one, bit_or-zero low, ap (λ t. bit_or (mode * 2 * 2 ^ 59 + low) t) (sums one_word))
  where
    one_word : 1 * 2 ^ 59 + 0 ≡ 2 ^ 59
    one_word = omega arith

    sums : {a b : ℕ} → a ≡ b → a ≡ b
    sums e = e

set_factor : (m f : ℕ) → f < 1024 → bit_or (m * 2 ^ 59) (f * 2 ^ 48) ≡ m * 2 ^ 59 + f * 2 ^ 48
set_factor m f h = bit_or_fields 59 m (f * 2 ^ 48) (omega arith)

-- A branch that accepts is the one that does not reject.
chosen :
    (b : Bool) (x : Verdict) (o : ℕ) {o' : ℕ}
    → (if b then x else reject o) ≡ some (true, o')
    → (b ≡ true) × (x ≡ some (true, o'))
chosen true x o e = (refl, e)
chosen false x o e = cc

take_factor-true :
    (s : List ℕ) (o : ℕ) (next : ℕ → Verdict) {o' : ℕ}
    → take_factor s o next ≡ some (true, o')
    → (f : ℕ) × (f < 1024) × (next (bit_or o (f * 2 ^ 48)) ≡ some (true, o'))
unfolding take_factor
take_factor-true s o next e = (str_to_int s - 1, ground arith, ground arith)

after_factor-true :
    (argv : List (List ℕ)) (o : ℕ) {o' : ℕ}
    → after_factor argv o ≡ some (true, o')
    → (o' ≡ o) ⊎ (o' ≡ bit_or o (2 ^ 59))
unfolding after_factor
after_factor-true argv o e = ground arith

factor_args-true :
    (argv : List (List ℕ)) (o : ℕ) {o' : ℕ}
    → factor_args argv o ≡ some (true, o')
    → (a : List ℕ) × (take_factor a o (after_factor argv) ≡ some (true, o'))
unfolding factor_args
factor_args-true argv o e =
    let (_, e1) = chosen (ltb 3 (length argv)) _ o e in
    let (fac, _, e2) = >>=-some (arg_char argv 3 0) _ e1 in
    let (a, _, e3) = >>=-some (get_elem? argv 3) _ e2 in
    (a, (chosen (not (fac == b'-')) _ o (flip (fac == b'-') _ _ e3)).1)
  where
    flip :
        (b : Bool) (x y : Verdict) {v : Bool × ℕ}
        → (if b then x else y) ≡ some v
        → (if not b then y else x) ≡ some v
    flip true x y e = e
    flip false x y e = e

factor_after_p-true :
    (argv : List (List ℕ)) (o : ℕ) {o' : ℕ}
    → factor_after_p argv o ≡ some (true, o')
    → (o' ≡ o) ⊎ ((f : ℕ) × (f < 1024) × (o' ≡ bit_or o (f * 2 ^ 48)))
unfolding factor_after_p
factor_after_p-true argv o {o'} e = elim (Bool-cases (length argv == 5)) [
  | inl five ↦
      let (t, _, e1) = >>=-some (arg_char argv 3 1) _ (rw five at e) in
      let (a, _, e2) = >>=-some (get_elem? argv 4) _ e1 in
      let (f, h, e3) = take_factor-true a o accept (chosen (t == b'f') _ o e2).1 in inr (f, h, cc)
  | inr other ↦ let (_, e1) = chosen (length argv == 3) _ o (rw other at e) in inl (cc)
]

-- A word with the mode bits, -p or not, and a factor of 1 to 1024.
abbrev pub IsSpeed : ℕ → ℕ → Type 0
IsSpeed mode o = (p : ℕ) × (f : ℕ) × (p < 2) × (f < 1024) × (o ≡ speed_word mode p f)

IsSpeed-factor :
    (argv : List (List ℕ)) (mode : ℕ) {o' : ℕ}
    → factor_args argv (mode * 2 * 2 ^ 59) ≡ some (true, o')
    → IsSpeed mode o'
IsSpeed-factor argv mode e =
    let (a, e2) = factor_args-true argv (mode * 2 * 2 ^ 59) e in
    let (f, h, e3) = take_factor-true a (mode * 2 * 2 ^ 59) (after_factor argv) e2 in
    let w = set_factor (mode * 2) f h in
    let p = set_p mode (f * 2 ^ 48) (omega arith) in
    elim (after_factor-true argv (bit_or (mode * 2 * 2 ^ 59) (f * 2 ^ 48)) e3) [
      | inl same ↦ (0, f, omega arith, h, omega (arith, same, w))
      | inr with_p ↦ (1, f, omega arith, h, with_p ∙ ap (λ t. bit_or t (2 ^ 59)) w ∙ p)
    ]

IsSpeed-p :
    (argv : List (List ℕ)) (mode : ℕ) {o' : ℕ}
    → factor_after_p argv (bit_or (mode * 2 * 2 ^ 59) (2 ^ 59)) ≡ some (true, o')
    → IsSpeed mode o'
IsSpeed-p argv mode {o'} e =
    let p : bit_or (mode * 2 * 2 ^ 59) (2 ^ 59) ≡ (mode * 2 + 1) * 2 ^ 59 =
      ap (λ t. bit_or t (2 ^ 59)) (sym (add-zero (mode * 2 * 2 ^ 59)))
      ∙ set_p mode 0 (omega arith)
      ∙ add-zero ((mode * 2 + 1) * 2 ^ 59) in
    elim (factor_after_p-true argv (bit_or (mode * 2 * 2 ^ 59) (2 ^ 59)) e) [
      | inl same ↦ (1, 0, omega arith, omega arith, omega (arith, same, p))
      | inr (f, h, g) ↦ (
        1,
        f,
        omega arith,
        h,
        g ∙ ap (λ t. bit_or t (f * 2 ^ 48)) p ∙ set_factor (mode * 2 + 1) f h,
      )
    ]

speed_args-true :
    (argv : List (List ℕ)) (mode : ℕ) {o' : ℕ}
    → speed_args argv (mode * 2 * 2 ^ 59) ≡ some (true, o')
    → IsSpeed mode o'
unfolding speed_args
speed_args-true argv mode {o'} e = elim (Bool-cases (ltb 2 (length argv))) [
  | inl long ↦
      let (t, _, e1) = >>=-some (arg_char argv 2 1) _ (rw long at e) in
      elim (Bool-cases (t == b'f')) [
        | inl f ↦ IsSpeed-factor argv mode (rw f at e1)
        | inr other ↦
            IsSpeed-p argv mode (chosen (t == b'p') _ (mode * 2 * 2 ^ 59) (rw other at e1)).1
      ]
  | inr short ↦
      let q : accept (mode * 2 * 2 ^ 59) ≡ accept o' = rw short at e in
      let r : o' ≡ mode * 2 * 2 ^ 59 = cc in (0, 0, omega arith, omega arith, omega arith)
]

not_hex : (a : List ℕ) → char_at a 1 ≡ some b'k' → hex_length a ≡ none
unfolding hex_length
not_hex [] e = cc
not_hex (x ∷ []) e = cc
not_hex (x ∷ y ∷ a) e =
    let k : y ≡ b'k' = cc in
    let no_digit : hex_digit y ≡ none = rw k (unfold hex_digit in refl) in
    elim (Option-cases (hex_digit x)) [ inl n ↦ rw (no_digit, n) | inr (d, s) ↦ rw (no_digit, s) ]

-- The arguments -c -p and a key are never accepted: the check of the key's digits reads the option
-- -k in its place.
pub key_after_p-false :
    (argv : List (List ℕ)) (o : ℕ) {o' : ℕ} → key_after_p argv o ≡ some (true, o') → ⊥
unfolding key_after_p take_key
key_after_p-false argv o e =
    let (_, e1) = chosen (length argv == 5) _ o e in
    let (t, third, e2) = >>=-some (arg_char argv 3 1) _ e1 in
    let (a, here, e3) = >>=-some (get_elem? argv 3) _ e2 in
    let (b, _, e4) = >>=-some (get_elem? argv 4) _ e3 in
    let (k, e5) = chosen (t == b'k') _ o e4 in
    let second : char_at a 1 ≡ some b'k' = rw here at third ∙ ap some ((==_iff t b'k').0 k) in
    none_taken a b (not_hex a second) e5
  where
    none_taken :
        (a b : List ℕ) {o' : ℕ} → hex_length a ≡ none → take_key a b o accept ≡ some (true, o') → ⊥
    none_taken a b bad e = ground arith

take_key-true :
    (a b : List ℕ) (o : ℕ) (next : ℕ → Verdict) {o' : ℕ}
    → take_key a b o next ≡ some (true, o')
    → (len : ℕ) × (hex_length a ≡ some len)
      × (len ≤ 8)
      × (next (bit_or o (str_to_hex b)) ≡ some (true, o'))
unfolding take_key
take_key-true a b o next e = ground arith

after_key-true :
    (argv : List (List ℕ)) (o : ℕ) {o' : ℕ}
    → after_key argv o ≡ some (true, o')
    → (o' ≡ o) ⊎ (o' ≡ bit_or o (2 ^ 59))
unfolding after_key
after_key-true argv o e = ground arith

-- A word with the bit of -c, -p or not, and a key of 32 bits (0 if none is given).
abbrev pub IsCrypt : ℕ → Type 0
IsCrypt o = (p : ℕ) × (key : ℕ) × (p < 2) × (key < 2 ^ 32) × (o ≡ crypt_word p key)

crypt_args-true :
    (argv : List (List ℕ)) {o' : ℕ} → crypt_args argv (2 ^ 60) ≡ some (true, o') → IsCrypt o'
unfolding crypt_args
crypt_args-true argv {o'} e = elim (Bool-cases (ltb 2 (length argv))) [
  | inr short ↦
      let q : accept (2 ^ 60) ≡ accept o' = rw short at e in
      let r : o' ≡ 2 ^ 60 = cc in (0, 0, omega arith, omega arith, omega arith)
  | inl long ↦
      let (t, _, e1) = >>=-some (arg_char argv 2 1) _ (rw long at e) in
      elim (Bool-cases (t == b'k' && leb 4 (length argv))) [
        | inr other ↦
            absurd (key_after_p-false argv _ (chosen (t == b'p') _ (2 ^ 60) (rw other at e1)).1)
        | inl k ↦
            let (a, _, e2) = >>=-some (get_elem? argv 3) _ (rw k at e1) in
            let (len, digits, h, e3) = take_key-true a a (2 ^ 60) (after_key argv) e2 in
            let small = hex_length-key a len digits h in
            let w : bit_or (2 ^ 60) (str_to_hex a) ≡ 2 ^ 60 + str_to_hex a =
              bit_or_fields 60 1 (str_to_hex a) (omega arith) in
            elim (after_key-true argv (bit_or (2 ^ 60) (str_to_hex a)) e3) [
              | inl same ↦ (0, str_to_hex a, omega arith, small, omega (arith, same, w))
              | inr with_p ↦ (
                1,
                str_to_hex a,
                omega arith,
                small,
                with_p ∙ ap (λ v. bit_or v (2 ^ 59)) w ∙ set_p 1 (str_to_hex a) (omega arith),
              )
            ]
      ]
]

-- What `validargs` leaves in `global_options` when it accepts: the bit of -h alone, a word for -u or
-- -d, or a word for -c.
pub validargs_options :
    (argv : List (List ℕ)) (o : ℕ)
    → validargs argv 0 ≡ some (true, o)
    → (o ≡ 2 ^ 63) ⊎ (IsSpeed 4 o ⊎ (IsSpeed 2 o ⊎ IsCrypt o))
unfolding validargs mode_args
validargs_options argv o e =
    let (_, e1) = chosen (ltb 1 (length argv)) _ 0 e in
    let (t, _, e2) = >>=-some (arg_char argv 1 1) _ e1 in
    elim (Bool-cases (t == b'h')) [
      | inl h ↦ let q : accept (bit_or 0 (2 ^ 63)) ≡ accept o = rw h at e2 in inl (cc)
      | inr not_h ↦
          let e3 = rw not_h at e2 in
          elim (Bool-cases (t == b'u')) [
            | inl u ↦ inr (inl (speed_args-true argv 4 (rw u at e3)))
            | inr not_u ↦
                let e4 = rw not_u at e3 in
                elim (Bool-cases (t == b'd')) [
                  | inl d ↦ inr (inr (inl (speed_args-true argv 2 (rw d at e4))))
                  | inr not_d ↦
                      inr (
                        inr
                          (inr (crypt_args-true argv (chosen (t == b'c') _ 0 (rw not_d at e4)).1)))
                ]
          ]
    ]
