-- ===== src/Audio/Crypt/Frames.antt =====
-- One frame: the loops over its samples, and the frame's encryption undone by itself.
use mathlib.Core.List.{append_assoc}
use c_language.Prelude.{ℕ, zero, suc, ◌+◌, ◌*◌, ◌≤◌, ◌≡◌, refl, ap, flatten}
use c_language.Prelude.{some, List, [], ◌∷◌, ◌++◌, arith, length, length-append, bit_xor, split_at}
use c_language.Audio.Io.Laws.{IsBytes, IsBytes-append}
use c_language.Audio.Rand.{myrand32}
use c_language.Audio.Frame.{load, store}
use c_language.Audio.Frame.Laws.{load_at, store_at, step_over}
use c_language.Audio.Crypt.{gather, scatter, key_byte, crypt_frame}
use c_language.Audio.Crypt.Sample.{value, sample_bytes, crypt_sample, crypt_sample_undo}
use c_language.Audio.Crypt.Sample.{length-crypt_sample, crypt_sample-IsBytes}

gather_full :
    (f pre post : List ℕ) (j base k : ℕ)
    → j + base ≡ length pre
    → gather (length f) j base k (pre ++ (f ++ post)) ≡ some (value k f)
unfolding gather value
gather_full [] pre post j base k e = refl
gather_full (b ∷ f) pre post j base k e =
    let loaded : load (pre ++ (b ∷ (f ++ post))) (j + base) ≡ some b =
      rw e (load_at pre b (f ++ post)) in
    rw (loaded, step_over pre b (f ++ post))
      (gather_full f (pre ++ (b ∷ [])) post (j + 1) base _
        (omega (arith, length-append pre (b ∷ []))))

scatter_full :
    (old pre post : List ℕ) (j base bytes k : ℕ)
    → j + base ≡ length pre
    → scatter (length old) j base bytes k (pre ++ (old ++ post))
      ≡ some (pre ++ (sample_bytes (length old) j bytes k ++ post))
unfolding scatter sample_bytes
scatter_full [] pre post j base bytes k e = refl
scatter_full (y ∷ old) pre post j base bytes k e =
    let b = key_byte bytes k j in
    let stored : store (pre ++ (y ∷ (old ++ post))) (j + base) b
        ≡ some (pre ++ (b ∷ (old ++ post))) =
      rw e (store_at pre y b (old ++ post)) in
    rw
      (
        stored,
        step_over pre b (old ++ post),
        step_over pre b (sample_bytes (length old) (j + 1) bytes k ++ post),
      )
      (scatter_full old (pre ++ (b ∷ [])) post (j + 1) base bytes k
        (omega (arith, length-append pre (b ∷ []))))

-- A frame as the list of its samples, each of `bytes` bytes.
abbrev pub AreSamples : ℕ → List (List ℕ) → Type 0
AreSamples bytes [] = Unit {0}
AreSamples bytes (f ∷ fs) = (length f ≡ bytes) × IsBytes f × AreSamples bytes fs

-- The samples of an encrypted frame, and the generator behind it.
pub crypt_samples_of : ℕ → ℕ → List (List ℕ) → List (List ℕ)
crypt_samples_of bytes next [] = []
crypt_samples_of bytes next (f ∷ fs) =
    crypt_sample bytes (myrand32 next).0 f ∷ crypt_samples_of bytes (myrand32 next).1 fs

pub advance : ℕ → ℕ → ℕ
advance zero next = next
advance (suc n) next = advance n (myrand32 next).1

pub crypt_samples_of-AreSamples :
    (bytes next : ℕ) (fs : List (List ℕ)) → AreSamples bytes (crypt_samples_of bytes next fs)
unfolding crypt_samples_of
crypt_samples_of-AreSamples bytes next [] = tt
crypt_samples_of-AreSamples bytes next (f ∷ fs) = (
  length-crypt_sample bytes _ f,
  crypt_sample-IsBytes bytes _ f,
  crypt_samples_of-AreSamples bytes (myrand32 next).1 fs,
)

pub length-crypt_samples_of :
    (bytes next : ℕ) (fs : List (List ℕ)) → length (crypt_samples_of bytes next fs) ≡ length fs
unfolding crypt_samples_of
length-crypt_samples_of bytes next [] = refl
length-crypt_samples_of bytes next (f ∷ fs) =
    ap suc (length-crypt_samples_of bytes (myrand32 next).1 fs)

-- Encrypting a frame twice from the same state of the generator gives it back.
pub crypt_samples_of_undo :
    (bytes next : ℕ) (fs : List (List ℕ))
    → 1 ≤ bytes
    → bytes ≤ 4
    → AreSamples bytes fs
    → crypt_samples_of bytes next (crypt_samples_of bytes next fs) ≡ fs
unfolding crypt_samples_of
crypt_samples_of_undo bytes next [] lo hi s = refl
crypt_samples_of_undo bytes next (f ∷ fs) lo hi (l, b, s) =
    let prng = (myrand32 next).0 in
    let twice : crypt_sample bytes prng (crypt_sample bytes prng f) ≡ f =
      rw (← l) (crypt_sample_undo prng f (omega arith) (omega arith) b) in
    rw (twice, crypt_samples_of_undo bytes (myrand32 next).1 fs lo hi s)

pub length-flatten :
    (bytes : ℕ) (fs : List (List ℕ)) → AreSamples bytes fs → length (flatten fs) ≡ length fs * bytes
unfolding flatten
length-flatten bytes [] s = omega arith
length-flatten bytes (f ∷ fs) (l, b, s) =
    omega (arith, length-append f (flatten fs), length-flatten bytes fs s)

pub flatten-IsBytes : (bytes : ℕ) (fs : List (List ℕ)) → AreSamples bytes fs → IsBytes (flatten fs)
unfolding flatten
flatten-IsBytes bytes [] s = tt
flatten-IsBytes bytes (f ∷ fs) (l, b, s) =
    IsBytes-append f (flatten fs) b (flatten-IsBytes bytes fs s)

pub crypt_frame_full :
    (fs : List (List ℕ)) (g bytes next : ℕ) (old pre post pre' post' : List ℕ)
    → AreSamples bytes fs
    → g * bytes ≡ length pre
    → g * bytes ≡ length pre'
    → length old ≡ length fs * bytes
    → crypt_frame (length fs) g bytes next (pre ++ (flatten fs ++ post)) (pre' ++ (old ++ post'))
      ≡ some (advance (length fs) next, pre' ++ (flatten (crypt_samples_of bytes next fs) ++ post'))
unfolding crypt_frame crypt_samples_of advance flatten
crypt_frame_full [] g bytes next [] pre post pre' post' s e e' l = refl
crypt_frame_full [] g bytes next (y ∷ old) pre post pre' post' s e e' l = absurd (omega arith)
crypt_frame_full (f ∷ fs) g bytes next old pre post pre' post' (lf, b, s) e e' l =
    let (old1, old2, cut, l1) = split_at bytes old (omega arith) in
    let prng = (myrand32 next).0 in
    let k = value 0 f in
    let gathered : gather bytes 0 (g * bytes) 0 (pre ++ (f ++ (flatten fs ++ post))) ≡ some k =
      rw lf at (gather_full f pre (flatten fs ++ post) 0 (g * bytes) 0 (omega arith)) in
    let scattered : scatter bytes 0 (g * bytes) bytes (bit_xor k prng)
          (pre' ++ (old1 ++ (old2 ++ post')))
        ≡ some (pre' ++ (crypt_sample bytes prng f ++ (old2 ++ post'))) =
      unfold crypt_sample in
      (rw l1 at (
        scatter_full old1 pre' (old2 ++ post') 0 (g * bytes) bytes (bit_xor k prng)
          (omega arith))) in
    let c = crypt_sample bytes prng f in
    let ih =
      crypt_frame_full fs (g + 1) bytes (myrand32 next).1 old2 (pre ++ f) post (pre' ++ c) post' s
        (grind (arith, length-append pre f))
        (grind (arith, length-append pre' c, length-crypt_sample bytes prng f))
        (grind (arith, length-append old1 old2, ap length cut)) in
    rw
      (
        cut,
        append_assoc f (flatten fs) post,
        append_assoc old1 old2 post',
        gathered,
        scattered,
        append_assoc c (flatten (crypt_samples_of bytes (myrand32 next).1 fs)) post',
        ← append_assoc pre f (flatten fs ++ post),
        ← append_assoc pre' c (old2 ++ post'),
        ← append_assoc pre' c (flatten (crypt_samples_of bytes (myrand32 next).1 fs) ++ post'),
      )
      ih
