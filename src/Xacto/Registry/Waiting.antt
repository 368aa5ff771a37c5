-- ===== src/Xacto/Registry/Waiting.antt =====
-- The scan of `creg_wait_for_empty` between the unregistrations of other threads. A registration
-- holds `lock` from its start to its end, so none runs beside the scan.
use c_language.Prelude.{ℕ, zero, suc, ◌<◌, ◌≡◌, refl, ap, ◌∙◌, Bool, true, false, some, >>=-some}
use c_language.Prelude.{
  List, [], ◌∷◌, get_elem?, arith, ◌==◌, if◌then◌else◌, Bool-cases, inl, inr, ◌⊎◌, ==_ne, ==_iff,
}
use mathlib.Core.Option.{some-injective}
use mathlib.Core.Path.{subst}
use c_language.Prelude.{◌+◌, replicate}
use c_language.Xacto.Registry.{
  creg_init, next_slot, Scan, free_slot, slot_count, replace_first, scan_slot,
}

-- A step of the scanning thread, or the write of another thread's unregistration.
pub data Step : List ℕ × Scan → List ℕ × Scan → Type 0 where
  scan :
      {buf : List ℕ} {i : ℕ} {flag : Bool} {s : Scan}
      → scan_slot buf i flag ≡ some s
      → Step (buf, (false, i, flag)) (buf, s)
  unregister :
      {buf buf' : List ℕ} {s : Scan} (fd : ℕ)
      → replace_first fd free_slot buf ≡ some buf'
      → Step (buf, s) (buf', s)

pub data Steps : List ℕ × Scan → List ℕ × Scan → Type 0 where
  stay : {a : List ℕ × Scan} → Steps a a
  and_then : {a b c : List ℕ × Scan} → Step a b → Steps b c → Steps a c

-- The first `n` slots are free.
pub FreeUpTo : ℕ → List ℕ → Type 0
FreeUpTo n buf = (j : ℕ) → j < n → get_elem? buf j ≡ some free_slot

-- What the scan has found so far.
Found : Scan → List ℕ → Type 0
Found (true, i, flag) buf = FreeUpTo slot_count buf
Found (false, i, flag) buf = (i < slot_count) × ((flag ≡ true) ⊎ FreeUpTo i buf)

freed_slot :
    (fd : ℕ) (buf : List ℕ) {buf' : List ℕ} (j : ℕ)
    → replace_first fd free_slot buf ≡ some buf'
    → get_elem? buf j ≡ some free_slot
    → get_elem? buf' j ≡ some free_slot
unfolding replace_first
freed_slot fd [] j e h = cc
freed_slot fd (x ∷ xs) zero e h = elim (Bool-cases (x == fd)) [
  | inl p ↦ let q = rw p at e in cc
  | inr p ↦
      let (ys, q, r) = >>=-some (replace_first fd free_slot xs) (λ ys. some (x ∷ ys)) (rw p at e) in
      cc
]
freed_slot fd (x ∷ xs) (suc j) e h = elim (Bool-cases (x == fd)) [
  | inl p ↦ let q = rw p at e in cc
  | inr p ↦
      let (ys, q, r) = >>=-some (replace_first fd free_slot xs) (λ ys. some (x ∷ ys)) (rw p at e) in
      let ih = freed_slot fd xs j q h in cc
]

freed-FreeUpTo :
    (n fd : ℕ) (buf : List ℕ) {buf' : List ℕ}
    → replace_first fd free_slot buf ≡ some buf'
    → FreeUpTo n buf
    → FreeUpTo n buf'
unfolding FreeUpTo
freed-FreeUpTo n fd buf e f j l = freed_slot fd buf j e (f j l)

one_more :
    (i : ℕ) (buf : List ℕ)
    → FreeUpTo i buf
    → get_elem? buf i ≡ some free_slot
    → FreeUpTo (suc i) buf
unfolding FreeUpTo
one_more i buf f e j l = elim (Bool-cases (j == i)) [
  | inl p ↦ ap (get_elem? buf) ((==_iff j i).0 p) ∙ e
  | inr p ↦ f j (let q = ==_ne j i p in omega arith)
]

-- The flag that a round ends with, and what it means.
reset_flag : ℕ → Bool → Bool
reset_flag i flag = if i == 0 then false else flag

seen_flag : ℕ → Bool → Bool
seen_flag x reset = if x == free_slot then reset else true

found_below :
    (buf : List ℕ) (i : ℕ) (flag : Bool)
    → (flag ≡ true) ⊎ FreeUpTo i buf
    → (reset_flag i flag ≡ true) ⊎ FreeUpTo i buf
unfolding reset_flag FreeUpTo
found_below buf i flag f = elim (Bool-cases (i == 0)) [
  | inl e ↦ inr (λ j l. absurd (let z = (==_iff i 0).0 e in omega arith))
  | inr e ↦ rw e f
]

found_here :
    (buf : List ℕ) (i x : ℕ) (reset : Bool)
    → get_elem? buf i ≡ some x
    → (reset ≡ true) ⊎ FreeUpTo i buf
    → (seen_flag x reset ≡ true) ⊎ FreeUpTo (suc i) buf
unfolding seen_flag
found_here buf i x reset g f = elim (Bool-cases (x == free_slot)) [
  | inr e ↦ inl (rw e refl)
  | inl e ↦ elim f [
    | inl t ↦ inl (rw (e, t) refl)
    | inr free ↦ inr (one_more i buf free (g ∙ ap (λ k. some k) ((==_iff x free_slot).0 e)))
  ]
]

last_slot :
    (buf : List ℕ) (i : ℕ) (seen : Bool)
    → (i == 1023) ≡ true
    → FreeUpTo (suc i) buf
    → Found (next_slot i seen) buf
unfolding next_slot Found FreeUpTo
last_slot buf i true e free = rw e (omega arith, inl refl)
last_slot buf i false e free = rw e (λ j k. free j (let q = (==_iff i 1023).0 e in omega arith))

next-Found :
    (buf : List ℕ) (i : ℕ) (seen : Bool)
    → i < slot_count
    → (seen ≡ true) ⊎ FreeUpTo (suc i) buf
    → Found (next_slot i seen) buf
unfolding next_slot Found FreeUpTo
next-Found buf i seen l f = elim (Bool-cases (i == 1023)) [
  | inr e ↦ rw e (let n = ==_ne i 1023 e in omega arith, f)
  | inl e ↦ elim f [
    | inl t ↦ rw (e, t) (omega arith, inl refl)
    | inr free ↦ last_slot buf i seen e free
  ]
]

scan-Found :
    (buf : List ℕ) (i : ℕ) (flag : Bool) (s : Scan)
    → scan_slot buf i flag ≡ some s
    → Found (false, i, flag) buf
    → Found s buf
unfolding scan_slot Found seen_flag reset_flag
scan-Found buf i flag s e (l, f) =
    let (x, g, q) =
      >>=-some (get_elem? buf i) (λ x. some (next_slot i (seen_flag x (reset_flag i flag)))) e in
    let r : next_slot i (seen_flag x (reset_flag i flag)) ≡ s = some-injective _ _ q in
    subst (λ t. Found t buf) r
      (next-Found buf i (seen_flag x (reset_flag i flag)) l
        (found_here buf i x (reset_flag i flag) g (found_below buf i flag f)))

Step-Found : {a b : List ℕ × Scan} → Step a b → Found a.1 a.0 → Found b.1 b.0
unfolding Found
Step-Found (scan {buf} {i} {flag} {s} e) f = scan-Found buf i flag s e f
Step-Found (unregister {buf} {s = (true, i, flag)} fd e) f = freed-FreeUpTo slot_count fd buf e f
Step-Found (unregister {buf} {s = (false, i, flag)} fd e) (l, f) =
    (l, elim f [ inl t ↦ inl t | inr free ↦ inr (freed-FreeUpTo i fd buf e free) ])

Steps-Found : {a b : List ℕ × Scan} → Steps a b → Found a.1 a.0 → Found b.1 b.0
Steps-Found stay f = f
Steps-Found (and_then s ss) f = Steps-Found ss (Step-Found s f)

-- However the scan of creg_wait_for_empty is interleaved with unregistrations, when it breaks
-- out of its loop every one of the 1024 slots is free.
pub scan_finds_empty :
    {before after : List ℕ} {i : ℕ} {flag : Bool} (j : ℕ)
    → Steps (before, (false, 0, false)) (after, (true, i, flag))
    → j < slot_count
    → get_elem? after j ≡ some free_slot
unfolding Found FreeUpTo
scan_finds_empty j s l = Steps-Found s (omega arith, inr (λ k h. absurd (omega arith))) j l

replicate-FreeUpTo : (n : ℕ) → FreeUpTo n (replicate n free_slot)
unfolding FreeUpTo
replicate-FreeUpTo zero j l = absurd (omega arith)
replicate-FreeUpTo (suc n) zero l = refl
replicate-FreeUpTo (suc n) (suc j) l = replicate-FreeUpTo n j (omega arith)

pub creg_init-FreeUpTo : FreeUpTo slot_count creg_init.fdbuf
unfolding creg_init
creg_init-FreeUpTo = replicate-FreeUpTo slot_count

scan_free :
    (buf : List ℕ) (i : ℕ)
    → get_elem? buf i ≡ some free_slot
    → scan_slot buf i false ≡ some (next_slot i false)
unfolding scan_slot
scan_free buf i e = elim (Bool-cases (i == 0)) [ inl z ↦ rw (e, z) refl | inr z ↦ rw (e, z) refl ]

scan_rest :
    (n i : ℕ) (buf : List ℕ)
    → i + n ≡ 1023
    → FreeUpTo slot_count buf
    → Steps (buf, (false, i, false)) (buf, (true, 1023, false))
unfolding next_slot FreeUpTo
scan_rest zero i buf e f =
    let here : (i == 1023) ≡ true = ground arith in
    let last : i ≡ 1023 = omega arith in
    and_then (scan (scan_free buf i (f i (omega arith)) ∙ rw (here, last) refl)) stay
scan_rest (suc n) i buf e f =
    let before : (i == 1023) ≡ false = ground arith in
    and_then (scan (scan_free buf i (f i (omega arith)) ∙ rw before refl))
      (scan_rest n (suc i) buf (omega arith) f)

-- Where every slot is free, the scan of creg_wait_for_empty breaks out of its loop, with no help
-- of another thread.
pub free_scan_ends :
    (buf : List ℕ)
    → FreeUpTo slot_count buf
    → Steps (buf, (false, 0, false)) (buf, (true, 1023, false))
free_scan_ends buf f = scan_rest 1023 0 buf refl f
