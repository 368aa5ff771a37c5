-- ===== src/Prelude/Bits.antt =====
-- `|` of disjoint fields as a sum, a single bit by `&`, and `^` undone by itself, at every width.
mod Step
use Step.{bit_or_step, bit_and_step, bit_xor_step, zero-bit_xor}
use mathlib.Core.Path.{◌≡◌, refl, ap, ◌∙◌}
use mathlib.Core.WellFounded
use native.Mathlib.Omega.{arith}
use native.Mathlib.Nat.{pow-suc, one-le-pow, mod-lt, div-add-mod', mul-add-mod_self_right}
use native.Mathlib.Nat.{mod-eq_of_lt, add-zero, mul-one}
use Prim.Native.Nat.{bit_or-bitwise}
use Prim.Native.Nat.{ℕ, zero, suc, ◌+◌, ◌*◌, ◌/◌, ◌%◌, ◌^◌, ◌<◌, bit_and, bit_or, bit_xor}
use c_language.Prelude.Order.{lt_wf}

-- What holds of 0, and of a number when it holds of its half, holds of every number.
by_halves {ℓ} : (P : ℕ → Type ℓ) → P 0 → ((n : ℕ) → P (suc n / 2) → P (suc n)) → (x : ℕ) → P x
by_halves P base half x = WellFounded.induction lt_wf {C = P} x from_below
  where
    from_below : (n : ℕ) → ((m : ℕ) → m < n → P m) → P n
    from_below zero below = base
    from_below (suc n) below = half n (below (suc n / 2) (omega arith))

bit_and-zero : (x : ℕ) → bit_and x 0 ≡ 0
bit_and-zero =
    by_halves (λ x. bit_and x 0 ≡ 0) refl (λ n h. omega (arith, h, bit_and_step (suc n) 0))

pub bit_xor-zero : (x : ℕ) → bit_xor x 0 ≡ x
bit_xor-zero =
    by_halves (λ x. bit_xor x 0 ≡ x) refl (λ n h. omega (arith, h, bit_xor_step (suc n) 0))

pub bit_or-zero : (x : ℕ) → bit_or x 0 ≡ x
bit_or-zero = by_halves (λ x. bit_or x 0 ≡ x) refl (λ n h. omega (arith, h, bit_or_step (suc n) 0))

bit_and-one : (x : ℕ) → bit_and x 1 ≡ x % 2
bit_and-one x = omega (arith, bit_and-zero (x / 2), bit_and_step x 1)

shift_suc : (q k : ℕ) → q * 2 ^ suc k ≡ 2 * (q * 2 ^ k)
shift_suc q k =
    let e = pow-suc 2 k in
    let f : q * 2 ^ suc k ≡ q * (2 ^ k * 2) = ap (λ (n : ℕ). q * n) e in omega (arith, f)

-- A field of `k` bits beside the higher ones: or adds them.
pub bit_or_fields : (k high low : ℕ) → low < 2 ^ k → bit_or (high * 2 ^ k) low ≡ high * 2 ^ k + low
bit_or_fields (suc k) high low small =
    let ih = bit_or_fields k high (low / 2) (omega arith) in
    ground (arith, ih, shift_suc high k, bit_or_step (high * 2 ^ suc k) low)
bit_or_fields zero high low small = ground (arith, bit_or-zero high)

-- Masking with `1 << k` keeps one bit. The number is given by its fields.
pub bit_and_bit : (k q r : ℕ) → r < 2 ^ k → bit_and (q * 2 ^ k + r) (2 ^ k) ≡ q % 2 * 2 ^ k
bit_and_bit zero q r fits = ground (arith, bit_and-one (q * 1 + r))
bit_and_bit (suc k) q r fits = ground (
  arith,
  bit_and_step (q * 2 ^ suc k + r) (2 ^ suc k),
  shift_suc q k,
  shift_suc (q % 2) k,
  pow-suc 2 k,
  bit_and_bit k q (r / 2) (omega arith),
)

-- `(a ^ r) ^ r` is `a`.
pub bit_xor_undo : (a r : ℕ) → bit_xor (bit_xor a r) r ≡ a
bit_xor_undo a = WellFounded.induction lt_wf {C = λ n. (r : ℕ) → bit_xor (bit_xor n r) r ≡ n} a step
  where
    zero_case : (r : ℕ) → bit_xor r r ≡ 0
    zero_case r = WellFounded.induction lt_wf {C = λ n. bit_xor n n ≡ 0} r λ n ih. go n ih
      where
        go : (n : ℕ) → ((m : ℕ) → m < n → bit_xor m m ≡ 0) → bit_xor n n ≡ 0
        go zero ih = refl
        go (suc n) ih = omega (arith, bit_xor_step (suc n) (suc n), ih (suc n / 2) (omega arith))

    step :
        (n : ℕ)
        → ((m : ℕ) → m < n → (r : ℕ) → bit_xor (bit_xor m r) r ≡ m)
        → (r : ℕ) → bit_xor (bit_xor n r) r ≡ n
    step zero ih r = rw zero-bit_xor (zero_case r)
    step (suc n) ih r =
        let low = bit_xor_step (suc n) r in
        let high : bit_xor (suc n) r / 2 ≡ bit_xor (suc n / 2) (r / 2) = omega (arith, low) in
        omega (
          arith,
          low,
          bit_xor_step (bit_xor (suc n) r) r,
          ap (λ t. bit_xor t (r / 2)) high,
          ih (suc n / 2) (omega arith) (r / 2),
        )

-- Exclusive or works bit by bit: the high and the low bits do not meet.
bit_xor_fields :
    (k q r t s : ℕ)
    → r < 2 ^ k
    → s < 2 ^ k
    → (bit_xor (q * 2 ^ k + r) (t * 2 ^ k + s) ≡ bit_xor q t * 2 ^ k + bit_xor r s)
      × (bit_xor r s < 2 ^ k)
bit_xor_fields zero q zero t zero h g = (simp (bit_xor-zero, add-zero, mul-one), omega arith)
bit_xor_fields zero q (suc r) t s h g = absurd (omega arith)
bit_xor_fields zero q zero t (suc s) h g = absurd (omega arith)
bit_xor_fields (suc k) q r t s h g = ground (
  arith,
  bit_xor_step (q * 2 ^ suc k + r) (t * 2 ^ suc k + s),
  bit_xor_step r s,
  shift_suc q k,
  shift_suc t k,
  shift_suc (bit_xor q t) k,
  pow-suc 2 k,
  bit_xor_fields k q (r / 2) t (s / 2) (omega arith) (omega arith),
)

-- The low bits of the result are those of the low bits.
pub bit_xor_low : (k a b : ℕ) → bit_xor a b % 2 ^ k ≡ bit_xor (a % 2 ^ k) (b % 2 ^ k)
bit_xor_low k a b =
    let p : 0 < 2 ^ k = one-le-pow k 2 (omega arith) in
    let e =
      bit_xor_fields k (a / 2 ^ k) (a % 2 ^ k) (b / 2 ^ k) (b % 2 ^ k) (mod-lt a p) (mod-lt b p) in
    let n = bit_xor (a / 2 ^ k) (b / 2 ^ k) in
    let m = bit_xor (a % 2 ^ k) (b % 2 ^ k) in
    let whole : bit_xor a b ≡ n * 2 ^ k + m =
      rw (div-add-mod' a (2 ^ k), div-add-mod' b (2 ^ k)) at e.0 in
    rw whole (mul-add-mod_self_right n (2 ^ k) m ∙ mod-eq_of_lt e.1)

pub bit_xor-lt : (k a b : ℕ) → a < 2 ^ k → b < 2 ^ k → bit_xor a b < 2 ^ k
bit_xor-lt k a b h g = (bit_xor_fields k 0 a 0 b h g).1

-- Or works bit by bit too.
pub bit_or_split :
    (k q r t s : ℕ)
    → r < 2 ^ k
    → s < 2 ^ k
    → bit_or (q * 2 ^ k + r) (t * 2 ^ k + s) ≡ bit_or q t * 2 ^ k + bit_or r s
bit_or_split zero q zero t zero h g = simp (bit_or-zero, add-zero, mul-one)
bit_or_split zero q (suc r) t s h g = absurd (omega arith)
bit_or_split zero q zero t (suc s) h g = absurd (omega arith)
bit_or_split (suc k) q r t s h g = ground (
  arith,
  bit_or_step (q * 2 ^ suc k + r) (t * 2 ^ suc k + s),
  bit_or_step r s,
  shift_suc q k,
  shift_suc t k,
  shift_suc (bit_or q t) k,
  pow-suc 2 k,
  bit_or_split k q (r / 2) t (s / 2) (omega arith) (omega arith),
)

pub zero-bit_or : (a : ℕ) → bit_or 0 a ≡ a
zero-bit_or a = simp bit_or-bitwise
