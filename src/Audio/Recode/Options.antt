-- ===== src/Audio/Recode/Options.antt =====
-- What `recode` reads out of the option words that `validargs` makes.
use c_language.Prelude.{
  ℕ, zero, suc, ◌+◌, ◌*◌, ◌/◌, ◌%◌, ◌^◌, ◌<◌, ◌≡◌, refl, ap, ◌∙◌, true, false, not, ◌==◌,
}
use c_language.Prelude.{arith}
use native.Mathlib.Nat.{one-le-pow}
use c_language.Prelude.Bits.{bit_and_bit}
use c_language.Audio.Annotation.{has_option}
use c_language.Audio.Args.Options.{speed_word, crypt_word}
use c_language.Audio.Recode.{option_factor, option_key}

bit_test : (b w : ℕ) → b < 2 → 0 < w → not (b * w == 0) ≡ (b == 1)
bit_test zero w h p = ground arith
bit_test (suc zero) w h p = ground arith
bit_test (suc (suc b)) w h p = absurd (omega arith)

-- Bit `k` of a number given by its fields.
has_option-bit : (k q r o : ℕ) → o ≡ q * 2 ^ k + r → r < 2 ^ k → has_option o k ≡ (q % 2 == 1)
unfolding has_option
has_option-bit k q r o e h =
    rw (e, bit_and_bit k q r h)
      (bit_test (q % 2) (2 ^ k) (omega arith) (one-le-pow k 2 (omega arith)))

-- The words for -u (mode 4) and -d (mode 2): the mode, -p and the factor come back.
pub speed_word-decoded :
    (mode p f : ℕ)
    → mode < 8
    → p < 2
    → f < 1024
    → (has_option (speed_word mode p f) 62 ≡ (mode / 4 % 2 == 1))
      × (has_option (speed_word mode p f) 61 ≡ (mode / 2 % 2 == 1))
      × (has_option (speed_word mode p f) 59 ≡ (p == 1))
      × (option_factor (speed_word mode p f) ≡ f + 1)
unfolding option_factor
speed_word-decoded mode p f hm hp hf = (
  has_option-bit 62 (mode / 4) ((mode % 4 * 2 + p) * 2 ^ 59 + f * 2 ^ 48) _ (omega arith)
      (omega arith),
  has_option-bit 61 (mode / 2) ((mode % 2 * 2 + p) * 2 ^ 59 + f * 2 ^ 48) _ (omega arith)
      (omega arith),
  has_option-bit 59 (mode * 2 + p) (f * 2 ^ 48) _ refl (omega arith)
      ∙ ap (λ t. t == 1) (let e : (mode * 2 + p) % 2 ≡ p = omega arith in e),
  omega arith,
)

-- The words for -c: no other mode, -p and the key come back.
pub crypt_word-decoded :
    (p key : ℕ)
    → p < 2
    → key < 2 ^ 32
    → (has_option (crypt_word p key) 62 ≡ false)
      × (has_option (crypt_word p key) 61 ≡ false)
      × (has_option (crypt_word p key) 60 ≡ true)
      × (has_option (crypt_word p key) 59 ≡ (p == 1))
      × (option_key (crypt_word p key) ≡ key)
unfolding option_key
crypt_word-decoded p key hp hk = (
  has_option-bit 62 0 (crypt_word p key) _ (omega arith) (omega arith),
  has_option-bit 61 0 (crypt_word p key) _ (omega arith) (omega arith),
  has_option-bit 60 1 (p * 2 ^ 59 + key) _ (omega arith) (omega arith),
  has_option-bit 59 (2 + p) key _ refl (omega arith)
      ∙ ap (λ t. t == 1) (let e : (2 + p) % 2 ≡ p = omega arith in e),
  omega arith,
)
