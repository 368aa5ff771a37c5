-- ===== src/Xacto/Registry/Counts.antt =====
-- How often a descriptor stands in the buffer of a registry.
use c_language.Prelude.{ℕ, zero, suc, ◌≤◌, ◌≡◌, ◌≢◌, refl, ap, none, some}
use c_language.Prelude.{
  List, [], ◌∷◌, length, arith, ◌==◌, if◌then◌else◌, ==_refl, Bool-cases, inl, inr,
}
use c_language.Prelude.{replicate}
use c_language.Xacto.Registry.{replace_first}

unfoldable pub count : ℕ → List ℕ → ℕ
count v [] = 0
count v (x ∷ xs) = if x == v then suc (count v xs) else count v xs

pub count_le : (v : ℕ) (xs : List ℕ) → count v xs ≤ length xs
unfolding count
count_le v [] = omega arith
count_le v (x ∷ xs) = let ih = count_le v xs in ground arith

pub count-replicate : (v n : ℕ) → count v (replicate n v) ≡ n
unfolding count
count-replicate v zero = refl
count-replicate v (suc n) = rw (==_refl v, count-replicate v n) refl

-- What the loop makes of a buffer in which `old` stands.
pub record Replaces (old new : ℕ) (xs ys : List ℕ) : Type 0 where
  pub found : replace_first old new xs ≡ some ys
  pub length_same : length ys ≡ length xs
  pub one_less : suc (count old ys) ≡ count old xs
  pub one_more : count new ys ≡ suc (count new xs)
  pub others : (v : ℕ) → v ≢ old → v ≢ new → count v ys ≡ count v xs

pub replace_first-Replaces :
    (old new : ℕ) (xs : List ℕ)
    → old ≢ new
    → 1 ≤ count old xs
    → (ys : List ℕ) × Replaces old new xs ys
unfolding count replace_first
replace_first-Replaces old new [] d h = absurd (omega arith)
replace_first-Replaces old new (x ∷ xs) d h = elim (Bool-cases (x == old)) [
  | inl e ↦ (
    new ∷ xs,
    record {
      found = rw e refl;
      length_same = refl;
      one_less = ground arith;
      one_more = ground arith;
      others = λ v p q. ground arith;
    },
  )
  | inr e ↦
      let (ys, r) = replace_first-Replaces old new xs d (rw e at h) in
      let f = r.found in
      let l = r.length_same in
      let o = r.one_less in
      let m = r.one_more in
      let t = r.others in
      (
        x ∷ ys,
        record {
          found = rw (e, f) refl;
          length_same = ap suc l;
          one_less = ground arith;
          one_more = ground arith;
          others = λ v p q. let w = t v p q in ground arith;
        },
      )
]

pub replace_first-none :
    (old new : ℕ) (xs : List ℕ) → count old xs ≡ 0 → replace_first old new xs ≡ none
unfolding count replace_first
replace_first-none old new [] h = refl
replace_first-none old new (x ∷ xs) h = elim (Bool-cases (x == old)) [
  | inl e ↦ absurd (let k = rw e at h in omega arith)
  | inr e ↦ rw (e, replace_first-none old new xs (rw e at h)) refl
]
