-- ===== src/Audio/Annotation/Bounds.antt =====
-- The annotation that `recode` makes up stays inside its buffer and is padded to 8 bytes.
use c_language.Prelude.{ℕ, zero, suc, ◌+◌, ◌-◌, ◌%◌, ◌≤◌, ◌≡◌, Option, some}
use c_language.Prelude.{
  List, [], ◌∷◌, length, length-set, arith, ◌>>=◌, inl, inr, Bool-cases, ◌==◌, if◌then◌else◌,
  get_elem?, >>=-some,
}
use c_language.Audio.Frame.{store}
use c_language.Audio.Annotation.{
  annotationcpy, append_text, append_option, append_options, append_zeros, make_annotation,
  has_option,
}
use c_language.Audio.Args.{arg_char}

-- The index `n` behind what was appended to `buf`, which now is `b`.
record Within (buf : List ℕ) (n : ℕ) (b : List ℕ) : Type 0 where
  inside : n ≤ length buf
  same_length : length b ≡ length buf

store-Within : (buf : List ℕ) (i v : ℕ) {b : List ℕ} → store buf i v ≡ some b → Within buf (i + 1) b
store-Within buf i v e = ground (arith, length-set buf i v)

Within-trans : (buf b c : List ℕ) {n m : ℕ} → Within buf n b → Within b m c → Within buf m c
Within-trans buf b c v w = omega arith

append_text-Within :
    (s : List ℕ) (at : ℕ) (buf : List ℕ) {r : ℕ × List ℕ}
    → at ≤ length buf
    → append_text s at buf ≡ some r
    → Within buf r.0 r.1
unfolding append_text
append_text-Within [] at buf h e = ground arith
append_text-Within (c ∷ s) at buf {r} h e =
    let (b, stored, e2) = >>=-some (store buf at c) _ e in
    let w = store-Within buf at c stored in
    Within-trans buf b r.1 w (append_text-Within s (at + 1) b (omega arith) e2)

append_zeros-Within :
    (n at : ℕ) (buf : List ℕ) {r : ℕ × List ℕ}
    → at ≤ length buf
    → append_zeros n at buf ≡ some r
    → Within buf r.0 r.1 × (r.0 ≡ at + n)
unfolding append_zeros
append_zeros-Within zero at buf h e = ground arith
append_zeros-Within (suc n) at buf {r} h e =
    let (b, stored, e2) = >>=-some (store buf at 0) _ e in
    let w = store-Within buf at 0 stored in
    let (v, count) = append_zeros-Within n (at + 1) b (omega arith) e2 in
    (Within-trans buf b r.1 w v, omega arith)

annotationcpy-Within :
    (src : List ℕ) (at : ℕ) (buf : List ℕ) (n : ℕ) {r : ℕ × List ℕ}
    → at ≤ length buf
    → annotationcpy src at buf n ≡ some r
    → (k : ℕ) × (r.0 ≡ n + k) × Within buf (at + k) r.1
unfolding annotationcpy
annotationcpy-Within [] at buf n h e = cc
annotationcpy-Within (c ∷ src) at buf n {r} h e =
    let (b, stored, e2) = >>=-some (store buf at c) _ e in
    let w = store-Within buf at c stored in
    elim (Bool-cases (c == 0)) [
      | inl stop ↦
          let q : some (n + 1, b) ≡ some r = rw stop at e2 in (1, ground arith, ground arith)
      | inr go_on ↦
          let (k, count, v) =
            annotationcpy-Within src (at + 1) b (n + 1) (omega arith) (rw go_on at e2) in
          (suc k, omega arith, omega arith)
    ]

append_option-Within :
    (argv : List (List ℕ)) (letter parameter at : ℕ) (buf : List ℕ) {r : ℕ × List ℕ}
    → at ≤ length buf
    → append_option argv letter parameter at buf ≡ some r
    → Within buf r.0 r.1
unfolding append_option
append_option-Within argv letter parameter at buf {r} h e =
    let (q, e1, f1) = >>=-some (append_text (b' ' ∷ b'-' ∷ letter ∷ []) at buf) _ e in
    let (t, _, f2) = >>=-some (arg_char argv 2 1) _ f1 in
    let w = append_text-Within _ at buf h e1 in
    elim (Bool-cases (t == parameter)) [
      | inr other ↦ let same : some q ≡ some r = rw other at f2 in ground arith
      | inl given ↦
          let (p, e3, f3) =
            >>=-some (append_text (b' ' ∷ b'-' ∷ parameter ∷ b' ' ∷ []) q.0 q.1) _
              (rw given at f2) in
          let v = append_text-Within _ q.0 q.1 (omega arith) e3 in
          let (a, _, f4) = >>=-some (get_elem? argv 3) _ f3 in
          let u = append_text-Within a p.0 p.1 (omega arith) f4 in omega arith
    ]

append_options-Within :
    (argv : List (List ℕ)) (options at : ℕ) (buf : List ℕ) {r : ℕ × List ℕ}
    → at ≤ length buf
    → append_options argv options at buf ≡ some r
    → Within buf r.0 r.1
unfolding append_options
append_options-Within argv options at buf {r} h e = elim (Bool-cases (has_option options 62)) [
  | inl u ↦ append_option-Within argv b'u' b'f' at buf h (rw u at e)
  | inr not_u ↦ elim (Bool-cases (has_option options 61)) [
    | inl d ↦ append_option-Within argv b'd' b'f' at buf h (rw (not_u, d) at e)
    | inr not_d ↦ elim (Bool-cases (has_option options 60)) [
      | inl c ↦ append_option-Within argv b'c' b'k' at buf h (rw (not_u, not_d, c) at e)
      | inr not_c ↦
          let same : some (at, buf) ≡ some r = rw (not_u, not_d, not_c) at e in ground arith
    ]
  ]
]

-- Where `recode` makes up an annotation without an access out of bounds, it ends inside the output
-- buffer, whose size does not change, and its size is a multiple of 8, so that the audio data
-- that follow start at one too.
pub make_annotation_bounds :
    (argv : List (List ℕ)) (options size : ℕ) (inp out : List ℕ) {r : ℕ × List ℕ}
    → make_annotation argv options size inp out ≡ some r
    → (r.0 ≤ length out) × (length r.1 ≡ length out) × (r.0 % 8 ≡ 0) × ((24 + r.0) % 8 ≡ 0)
unfolding make_annotation
make_annotation_bounds argv options size inp out {r} e =
    let (program, _, f1) = >>=-some (get_elem? argv 0) _ e in
    let (a, e1, f2) = >>=-some (append_text program 0 out) _ f1 in
    let w1 = append_text-Within program 0 out (omega arith) e1 in
    let (b, e2, f3) = >>=-some (append_options argv options a.0 a.1) _ f2 in
    let w2 = append_options-Within argv options a.0 a.1 (omega arith) e2 in
    let (c, e3, f4) = >>=-some (append_text (10 ∷ []) b.0 b.1) _ f3 in
    let w3 = append_text-Within (10 ∷ []) b.0 b.1 (omega arith) e3 in
    let (d, e4, f5) = >>=-some (ended c) _ f4 in
    let w4 = ended-Within c (omega arith) e4 in
    let pad = if d.0 % 8 == 0 then 0 else 8 - d.0 % 8 in
    let (w5, count) = append_zeros-Within pad d.0 d.1 (omega arith) f5 in
    let whole : (d.0 + pad) % 8 ≡ 0 = ground arith in
    (omega arith, omega arith, omega arith, omega arith)
  where
    ended : ℕ × List ℕ → Option (ℕ × List ℕ)
    ended c =
        if size == 0
        then append_text (0 ∷ []) c.0 c.1
        else (annotationcpy inp c.0 c.1 0 >>= λ q. some (c.0 + q.0, q.1))

    ended-Within :
        (c : ℕ × List ℕ) {d : ℕ × List ℕ} → c.0 ≤ length c.1 → ended c ≡ some d → Within c.1 d.0 d.1
    ended-Within c {d} h e = elim (Bool-cases (size == 0)) [
      | inl empty ↦ append_text-Within (0 ∷ []) c.0 c.1 h (rw empty at e)
      | inr some_size ↦
          let (q, e1, f1) = >>=-some (annotationcpy inp c.0 c.1 0) _ (rw some_size at e) in
          let (k, count, w) = annotationcpy-Within inp c.0 c.1 0 h e1 in ground arith
    ]
