-- ===== src/Audio/Crypt/Sample.antt =====
-- One sample: its value, the bytes that are written for it, and encryption undone by itself.
use c_language.Prelude.{ℕ, zero, suc, ◌+◌, ◌*◌, ◌%◌, ◌^◌, ◌<◌, ◌≤◌, ◌≡◌, refl, ap, ◌∙◌, sym}
use c_language.Prelude.{List, [], ◌∷◌, arith, length, u32, bit_xor}
use native.Mathlib.Nat.{mod-mod}
use c_language.Prelude.Bits.{bit_xor_undo, bit_xor_low}
use c_language.Audio.Io.Laws.{IsBytes}
use c_language.Audio.Crypt.{key_byte}

-- The number that the bytes of a sample stand for, on top of `k`.
unfoldable pub value : ℕ → List ℕ → ℕ
value k [] = k
value k (b ∷ f) = value (u32 (u32 (k * 256) + b)) f

-- The `left` bytes from `j` on that are written for `k`.
unfoldable pub sample_bytes : ℕ → ℕ → ℕ → ℕ → List ℕ
sample_bytes zero j bytes k = []
sample_bytes (suc left) j bytes k = key_byte bytes k j ∷ sample_bytes left (j + 1) bytes k

pub length-sample_bytes : (left j bytes k : ℕ) → length (sample_bytes left j bytes k) ≡ left
unfolding sample_bytes
length-sample_bytes zero j bytes k = refl
length-sample_bytes (suc left) j bytes k = ap suc (length-sample_bytes left (j + 1) bytes k)

key_byte-lt : (bytes k j : ℕ) → key_byte bytes k j < 256
unfolding key_byte
key_byte-lt bytes k j = omega arith

pub sample_bytes-IsBytes : (left j bytes k : ℕ) → IsBytes (sample_bytes left j bytes k)
unfolding sample_bytes
sample_bytes-IsBytes zero j bytes k = tt
sample_bytes-IsBytes (suc left) j bytes k =
    (key_byte-lt bytes k j, sample_bytes-IsBytes left (j + 1) bytes k)

-- Samples have one to four bytes: writing out the value of a sample gives its bytes back.
bytes_of_value :
    (f : List ℕ)
    → 1 ≤ length f
    → length f ≤ 4
    → IsBytes f
    → sample_bytes (length f) 0 (length f) (value 0 f) ≡ f
unfolding sample_bytes value key_byte
bytes_of_value [] lo hi b = absurd (omega arith)
bytes_of_value (a ∷ []) lo hi (p, _) =
    let ea : key_byte 1 (value 0 (a ∷ [])) 0 ≡ a = omega arith in cc
bytes_of_value (a ∷ b ∷ []) lo hi (p, (q, _)) =
    let k = value 0 (a ∷ b ∷ []) in
    let ea : key_byte 2 k 0 ≡ a = omega arith in let eb : key_byte 2 k 1 ≡ b = omega arith in cc
bytes_of_value (a ∷ b ∷ c ∷ []) lo hi (p, (q, (r, _))) =
    let k = value 0 (a ∷ b ∷ c ∷ []) in
    let ea : key_byte 3 k 0 ≡ a = omega arith in
    let eb : key_byte 3 k 1 ≡ b = omega arith in let ec : key_byte 3 k 2 ≡ c = omega arith in cc
bytes_of_value (a ∷ b ∷ c ∷ d ∷ []) lo hi (p, (q, (r, (t, _)))) =
    let k = value 0 (a ∷ b ∷ c ∷ d ∷ []) in
    let ea : key_byte 4 k 0 ≡ a = omega arith in
    let eb : key_byte 4 k 1 ≡ b = omega arith in
    let ec : key_byte 4 k 2 ≡ c = omega arith in let ed : key_byte 4 k 3 ≡ d = omega arith in cc
bytes_of_value (a ∷ b ∷ c ∷ d ∷ e ∷ f) lo hi _ = absurd (omega arith)

value_of_bytes :
    (bytes k : ℕ)
    → 1 ≤ bytes
    → bytes ≤ 4
    → value 0 (sample_bytes bytes 0 bytes k) ≡ k % 2 ^ (8 * bytes)
unfolding sample_bytes value key_byte
value_of_bytes zero k lo hi = absurd (omega arith)
value_of_bytes (suc zero) k lo hi = omega arith
value_of_bytes (suc (suc zero)) k lo hi = omega arith
value_of_bytes (suc (suc (suc zero))) k lo hi = omega arith
value_of_bytes (suc (suc (suc (suc zero)))) k lo hi = omega arith
value_of_bytes (suc (suc (suc (suc (suc n))))) k lo hi = absurd (omega arith)

-- Only the low bits of `k` are written.
sample_bytes_low :
    (bytes k : ℕ)
    → 1 ≤ bytes
    → bytes ≤ 4
    → sample_bytes bytes 0 bytes (k % 2 ^ (8 * bytes)) ≡ sample_bytes bytes 0 bytes k
unfolding sample_bytes key_byte
sample_bytes_low zero k lo hi = absurd (omega arith)
sample_bytes_low (suc zero) k lo hi =
    let e0 : key_byte 1 (k % 2 ^ 8) 0 ≡ key_byte 1 k 0 = omega arith in cc
sample_bytes_low (suc (suc zero)) k lo hi =
    let e0 : key_byte 2 (k % 2 ^ 16) 0 ≡ key_byte 2 k 0 = omega arith in
    let e1 : key_byte 2 (k % 2 ^ 16) 1 ≡ key_byte 2 k 1 = omega arith in cc
sample_bytes_low (suc (suc (suc zero))) k lo hi =
    let e0 : key_byte 3 (k % 2 ^ 24) 0 ≡ key_byte 3 k 0 = omega arith in
    let e1 : key_byte 3 (k % 2 ^ 24) 1 ≡ key_byte 3 k 1 = omega arith in
    let e2 : key_byte 3 (k % 2 ^ 24) 2 ≡ key_byte 3 k 2 = omega arith in cc
sample_bytes_low (suc (suc (suc (suc zero)))) k lo hi =
    let e0 : key_byte 4 (k % 2 ^ 32) 0 ≡ key_byte 4 k 0 = omega arith in
    let e1 : key_byte 4 (k % 2 ^ 32) 1 ≡ key_byte 4 k 1 = omega arith in
    let e2 : key_byte 4 (k % 2 ^ 32) 2 ≡ key_byte 4 k 2 = omega arith in
    let e3 : key_byte 4 (k % 2 ^ 32) 3 ≡ key_byte 4 k 3 = omega arith in cc
sample_bytes_low (suc (suc (suc (suc (suc n))))) k lo hi = absurd (omega arith)

-- A sample after encryption with the number `prng`.
unfoldable pub crypt_sample : ℕ → ℕ → List ℕ → List ℕ
crypt_sample bytes prng f = sample_bytes bytes 0 bytes (bit_xor (value 0 f) prng)

-- Encrypting a sample twice with the same number gives it back.
pub crypt_sample_undo :
    (prng : ℕ) (f : List ℕ)
    → 1 ≤ length f
    → length f ≤ 4
    → IsBytes f
    → crypt_sample (length f) prng (crypt_sample (length f) prng f) ≡ f
unfolding crypt_sample
crypt_sample_undo prng f lo hi b =
    let n = length f in
    let v = value 0 f in
    let inner : value 0 (sample_bytes n 0 n (bit_xor v prng)) ≡ bit_xor v prng % 2 ^ (8 * n) =
      value_of_bytes n (bit_xor v prng) lo hi in
    let low : bit_xor (bit_xor v prng % 2 ^ (8 * n)) prng % 2 ^ (8 * n)
        ≡ bit_xor (bit_xor v prng) prng % 2 ^ (8 * n) =
      bit_xor_low (8 * n) (bit_xor v prng % 2 ^ (8 * n)) prng
      ∙ ap (λ t. bit_xor t (prng % 2 ^ (8 * n))) (mod-mod (bit_xor v prng) (2 ^ (8 * n)))
      ∙ sym (bit_xor_low (8 * n) (bit_xor v prng) prng) in
    rw
      (
        inner,
        ← sample_bytes_low n (bit_xor (bit_xor v prng % 2 ^ (8 * n)) prng) lo hi,
        low,
        bit_xor_undo,
        sample_bytes_low n v lo hi,
      )
      (bytes_of_value f lo hi b)

pub length-crypt_sample : (bytes prng : ℕ) (f : List ℕ) → length (crypt_sample bytes prng f) ≡ bytes
unfolding crypt_sample
length-crypt_sample bytes prng f = length-sample_bytes bytes 0 bytes _

pub crypt_sample-IsBytes : (bytes prng : ℕ) (f : List ℕ) → IsBytes (crypt_sample bytes prng f)
unfolding crypt_sample
crypt_sample-IsBytes bytes prng f = sample_bytes-IsBytes bytes 0 bytes _
