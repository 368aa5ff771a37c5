-- ===== src/Audio/Speed/Between.antt =====
-- The values that the option -d puts between two samples.
use native.Mathlib.Nat.{div-le_of_le-mul, mul-le-mul_left, mul_comm, add-mul}
use c_language.Prelude.{
  ℕ, zero, suc, refl, ◌+◌, ◌-◌, ◌*◌, ◌/◌, ◌^◌, ◌<◌, ◌≤◌, ◌≡◌, ◌⊎◌, inl, inr, ap, ◌∙◌, sym, true,
  false, arith, u32, is_negative, leb, leb→le, Bool-cases,
}
use c_language.Audio.Speed.{div_int, interpolate}

-- A `k`-th part of `m`, in `fac` parts, is at most `m`.
part_le : (m k fac : ℕ) → k ≤ fac → m * k / fac ≤ m
part_le m k fac h =
    let e = mul-le-mul_left m h in let swap = mul_comm m fac in div-le_of_le-mul fac (omega arith)

-- The place of an `int`, by its pattern, in the order of the signed values.
abbrev pub place : ℕ → ℕ
place c = u32 (c + 2 ^ 31)

upward :
    (c d x k fac : ℕ)
    → u32 (d + 2 ^ 32 - c) ≡ x
    → x * k < 2 ^ 31
    → interpolate c d k fac ≡ u32 (c + x * k / fac)
unfolding interpolate div_int
upward c d x k fac diff m =
    let prod : u32 (x * k) ≡ x * k = omega arith in
    let sign : is_negative (x * k) ≡ false = ground arith in rw (diff, prod, sign) refl

-- The product of a negative number, as its pattern.
negated :
    (x k : ℕ) → x ≤ 2 ^ 32 → 1 ≤ x * k → x * k ≤ 2 ^ 31 → u32 ((2 ^ 32 - x) * k) ≡ 2 ^ 32 - x * k
negated x k h p l =
    let whole : (2 ^ 32 - x) + x ≡ 2 ^ 32 = omega arith in
    let e : (2 ^ 32 - x) * k + x * k ≡ 2 ^ 32 * k =
      sym (add-mul (2 ^ 32 - x) x k) ∙ ap (λ n. n * k) whole in
    omega arith

downward :
    (c d x k fac : ℕ)
    → u32 (d + 2 ^ 32 - c) ≡ 2 ^ 32 - x
    → x ≤ 2 ^ 32
    → 1 ≤ x * k
    → x * k ≤ 2 ^ 31
    → interpolate c d k fac ≡ u32 (c + u32 (2 ^ 32 - x * k / fac))
unfolding interpolate div_int
downward c d x k fac diff l more m =
    let prod = negated x k l more m in
    let sign : is_negative (2 ^ 32 - x * k) ≡ true = ground arith in
    let back : 2 ^ 32 - (2 ^ 32 - x * k) ≡ x * k = omega arith in rw (diff, prod, sign, back) refl

at_most_product : (x k : ℕ) → 1 ≤ k → x ≤ x * k
at_most_product x (suc k) h = let e = mul-le-mul_left x h in omega arith
at_most_product x zero h = absurd (omega arith)

product_positive : (x k : ℕ) → 1 ≤ x → 1 ≤ k → 1 ≤ x * k
product_positive (suc x) (suc k) h p = omega arith
product_positive zero k h p = absurd (omega arith)
product_positive (suc x) zero h p = absurd (omega arith)

order : (c d : ℕ) → (c ≤ d) ⊎ (d < c)
order c d = elim (Bool-cases (leb c d)) [ inl e ↦ inl (leb→le c d e) | inr e ↦ inr (ground arith) ]

-- The k-th of fac - 1 values between two samples, all taken as `int`s, where the multiplied
-- difference does not overflow: in the order of the signed values it lies as far from the first
-- sample towards the second as the k-th part of their difference, rounded towards zero, and so
-- never beyond either of them.
pub interpolate_between :
    (c d k fac : ℕ)
    → c < 2 ^ 32
    → d < 2 ^ 32
    → 1 ≤ k
    → k ≤ fac
    → (place d - place c) * k < 2 ^ 31
    → (place c - place d) * k ≤ 2 ^ 31
    → ((place c ≤ place d)
        × (place (interpolate c d k fac) ≡ place c + (place d - place c) * k / fac)
        × (place (interpolate c d k fac) ≤ place d))
      ⊎ ((place d < place c)
          × (place (interpolate c d k fac) ≡ place c - (place c - place d) * k / fac)
          × (place d ≤ place (interpolate c d k fac)))
interpolate_between c d k fac lc ld one h up down = elim (order (place c) (place d)) [
  | inl le ↦
      let x = place d - place c in
      let p = part_le x k fac h in
      let small = at_most_product x k one in
      let e = upward c d x k fac (omega arith) up in
      let v : place (interpolate c d k fac) ≡ place c + x * k / fac = omega arith in
      inl (le, v, omega arith)
  | inr lt ↦
      let x = place c - place d in
      let p = part_le x k fac h in
      let small = at_most_product x k one in
      let e =
        downward c d x k fac (omega arith) (omega arith) (product_positive x k (omega arith) one)
          down in
      let v : place (interpolate c d k fac) ≡ place c - x * k / fac = omega arith in
      inr (lt, v, omega arith)
]
