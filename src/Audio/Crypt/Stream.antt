-- ===== src/Audio/Crypt/Stream.antt =====
-- The whole stream: what the loop of option -c writes, and encryption undone by itself.
use mathlib.Core.List.{append_assoc, append-nil}
use c_language.Prelude.{ℕ, zero, suc, ◌*◌, ◌<◌, ◌≤◌, ◌≡◌, refl, ap, ◌∙◌, sym, flatten}
use c_language.Prelude.{some, true, List, [], ◌∷◌, ◌++◌, arith, length, length-append, split_at}
use c_language.Audio.Io.Laws.{IsBytes, IsBytes-split}
use c_language.Audio.Rand.{mysrand}
use c_language.Audio.Frame.{read_frame, read_frame_loop, write_frame, write_frame_loop}
use c_language.Audio.Frame.Laws.{read_frame_loop_full, read_frame_loop_short, write_frame_loop_full}
use c_language.Audio.Crypt.{crypt_frame, crypt_round, crypt_loop, crypt_samples}
use c_language.Audio.Crypt.Frames.{AreSamples, crypt_samples_of, advance, crypt_frame_full}
use c_language.Audio.Crypt.Frames.{crypt_samples_of-AreSamples, length-crypt_samples_of}
use c_language.Audio.Crypt.Frames.{crypt_samples_of_undo, length-flatten, flatten-IsBytes}

-- A stream as the list of its frames, each of `channels` samples of `bytes` bytes.
abbrev pub AreFrames : ℕ → ℕ → List (List (List ℕ)) → Type 0
AreFrames channels bytes [] = Unit {0}
AreFrames channels bytes (f ∷ fs) =
    (length f ≡ channels) × AreSamples bytes f × AreFrames channels bytes fs

stream : List (List (List ℕ)) → List ℕ
stream [] = []
stream (f ∷ fs) = flatten f ++ stream fs

crypt_frames : ℕ → ℕ → List (List (List ℕ)) → List (List (List ℕ))
crypt_frames bytes next [] = []
crypt_frames bytes next (f ∷ fs) =
    crypt_samples_of bytes next f ∷ crypt_frames bytes (advance (length f) next) fs

crypt_frames-AreFrames :
    (channels bytes next : ℕ) (fs : List (List (List ℕ)))
    → AreFrames channels bytes fs
    → AreFrames channels bytes (crypt_frames bytes next fs)
unfolding crypt_frames
crypt_frames-AreFrames channels bytes next [] a = tt
crypt_frames-AreFrames channels bytes next (f ∷ fs) (l, s, a) = (
  length-crypt_samples_of bytes next f ∙ l,
  crypt_samples_of-AreSamples bytes next f,
  crypt_frames-AreFrames channels bytes (advance (length f) next) fs a,
)

crypt_frames_undo :
    (channels bytes next : ℕ) (fs : List (List (List ℕ)))
    → 1 ≤ bytes
    → bytes ≤ 4
    → AreFrames channels bytes fs
    → crypt_frames bytes next (crypt_frames bytes next fs) ≡ fs
unfolding crypt_frames
crypt_frames_undo channels bytes next [] lo hi a = refl
crypt_frames_undo channels bytes next (f ∷ fs) lo hi (l, s, a) = rw (
  crypt_samples_of_undo bytes next f lo hi s,
  length-crypt_samples_of bytes next f,
  crypt_frames_undo channels bytes (advance (length f) next) fs lo hi a,
)

length-stream :
    (channels bytes : ℕ) (fs : List (List (List ℕ)))
    → AreFrames channels bytes fs
    → length (stream fs) ≡ length fs * (channels * bytes)
unfolding stream
length-stream channels bytes [] a = omega arith
length-stream channels bytes (f ∷ fs) (l, s, a) = grind (
  arith,
  length-append (flatten f) (stream fs),
  length-flatten bytes f s,
  length-stream channels bytes fs a,
)

length-crypt_frames :
    (bytes next : ℕ) (fs : List (List (List ℕ))) → length (crypt_frames bytes next fs) ≡ length fs
unfolding crypt_frames
length-crypt_frames bytes next [] = refl
length-crypt_frames bytes next (f ∷ fs) =
    ap suc (length-crypt_frames bytes (advance (length f) next) fs)

-- With buffers that hold a frame and fuel for every frame the loop writes the encrypted frames; an
-- incomplete frame at the end of the input is dropped.
crypt_loop_full :
    (fs : List (List (List ℕ))) (fuel channels bytes next : ℕ) (inp out tail : List ℕ)
    → AreFrames channels bytes fs
    → IsBytes tail
    → length tail < channels * bytes
    → channels * bytes ≤ length inp
    → channels * bytes ≤ length out
    → length fs < fuel
    → crypt_loop fuel channels bytes next inp out (stream fs ++ tail)
      ≡ some (stream (crypt_frames bytes next fs))
unfolding crypt_loop stream crypt_frames read_frame write_frame crypt_round
crypt_loop_full fs zero channels bytes next inp out tail a b t i o h = elim h [ ]
crypt_loop_full [] (suc fuel) channels bytes next inp out tail a b t i o h =
    let (inp1, inp2, cut, l) = split_at (channels * bytes) inp i in
    let (fp, e) = read_frame_loop_short tail inp1 [] inp2 (channels * bytes) 0 refl t (sym l) b in
    rw (cut, e)
crypt_loop_full (f ∷ fs) (suc fuel) channels bytes next inp out tail (lf, s, a) b t i o h =
    let (inp1, inp2, cut, l) = split_at (channels * bytes) inp i in
    let (out1, out2, cut', l') = split_at (channels * bytes) out o in
    let n : length (flatten f) ≡ channels * bytes =
      length-flatten bytes f s ∙ ap (λ k. k * bytes) lf in
    let readen : read_frame_loop (channels * bytes) 0 (inp1 ++ inp2)
          (flatten f ++ (stream fs ++ tail))
        ≡ some (true, flatten f ++ inp2, stream fs ++ tail) =
      rw n at (
        read_frame_loop_full (flatten f) inp1 [] inp2 (stream fs ++ tail) 0 refl (l ∙ sym n)
          (flatten-IsBytes bytes f s)) in
    let c = crypt_samples_of bytes next f in
    let sc = crypt_samples_of-AreSamples bytes next f in
    let m : length (flatten c) ≡ channels * bytes =
      length-flatten bytes c sc ∙ ap (λ k. k * bytes) (length-crypt_samples_of bytes next f ∙ lf) in
    let crypted : crypt_frame channels 0 bytes next (flatten f ++ inp2) (out1 ++ out2)
        ≡ some (advance channels next, flatten c ++ out2) =
      rw lf at (
        crypt_frame_full f 0 bytes next out1 [] inp2 [] out2 s (omega arith) (omega arith)
          (rw lf l')) in
    let written : write_frame_loop (channels * bytes) 0 (flatten c ++ out2) ≡ some (flatten c) =
      rw m at (write_frame_loop_full (flatten c) [] out2 0 refl (flatten-IsBytes bytes c sc)) in
    let ih =
      crypt_loop_full fs fuel channels bytes (advance channels next) (flatten f ++ inp2)
        (flatten c ++ out2) tail a b t (omega (arith, length-append (flatten f) inp2))
        (omega (arith, length-append (flatten c) out2)) (omega arith) in
    rw (cut, cut', append_assoc (flatten f) (stream fs) tail, readen, crypted, written, ih, lf)

-- Any sequence of bytes of the right length is a stream of frames.
samples_of :
    (n bytes : ℕ) (s : List ℕ)
    → IsBytes s
    → length s ≡ n * bytes
    → (fs : List (List ℕ)) × (flatten fs ≡ s) × AreSamples bytes fs × (length fs ≡ n)
unfolding flatten
samples_of zero bytes [] b l = ([], refl, tt, refl)
samples_of zero bytes (x ∷ s) b l = absurd (omega arith)
samples_of (suc n) bytes s b l =
    let (f, s', cut, k) = split_at bytes s (omega arith) in
    let (fb, sb) = IsBytes-split f s' (rw cut at b) in
    let (fs, e, a, c) =
      samples_of n bytes s' sb (grind (arith, length-append f s', ap length cut)) in
    (f ∷ fs, rw e (sym cut), (k, fb, a), ap suc c)

frames_of :
    (n channels bytes : ℕ) (s : List ℕ)
    → IsBytes s
    → length s ≡ n * (channels * bytes)
    → (fs : List (List (List ℕ))) × (stream fs ≡ s) × AreFrames channels bytes fs × (length fs ≡ n)
unfolding stream
frames_of zero channels bytes [] b l = ([], refl, tt, refl)
frames_of zero channels bytes (x ∷ s) b l = absurd (omega arith)
frames_of (suc n) channels bytes s b l =
    let (f, s', cut, k) = split_at (channels * bytes) s (omega arith) in
    let (fb, sb) = IsBytes-split f s' (rw cut at b) in
    let (g, d, i, j) = samples_of channels bytes f fb k in
    let (fs, e, a, c) =
      frames_of n channels bytes s' sb (grind (arith, length-append f s', ap length cut)) in
    (g ∷ fs, rw (d, e) (sym cut), (j, i, a), ap suc c)

-- What option -c does to a whole stream, and does again with the same key. Of the input it takes
-- the whole frames, and writes as many bytes; on those bytes the second run gives the first
-- input's whole frames back. An incomplete frame at the end of the input is dropped, without the
-- error that audio.h asks for. The frame buffers must hold a frame.
pub crypt_samples_undo :
    (key n channels bytes : ℕ) (inp out whole tail : List ℕ)
    → 1 ≤ bytes
    → bytes ≤ 4
    → channels * bytes ≤ length inp
    → channels * bytes ≤ length out
    → IsBytes whole
    → length whole ≡ n * (channels * bytes)
    → IsBytes tail
    → length tail < channels * bytes
    → (coded : List ℕ) × (crypt_samples key channels bytes inp out (whole ++ tail) ≡ some coded)
      × (length coded ≡ length whole)
      × (crypt_samples key channels bytes inp out coded ≡ some whole)
unfolding crypt_samples
crypt_samples_undo key n channels bytes inp out whole tail lo hi i o b l bt t =
    let (fs, e, a, c) = frames_of n channels bytes whole b l in
    let next = mysrand key in
    let cs = crypt_frames bytes next fs in
    let ca = crypt_frames-AreFrames channels bytes next fs a in
    let size : length (stream cs) ≡ length (stream fs) =
      length-stream channels bytes cs ca
      ∙ ap (λ k. k * (channels * bytes)) (length-crypt_frames bytes next fs)
      ∙ sym (length-stream channels bytes fs a) in
    let fits : length whole ≡ length (stream fs) = ap length (sym e) in
    let first =
      crypt_loop_full fs (suc (length (whole ++ tail))) channels bytes next inp out tail a bt t i o
        (grind (arith, length-append whole tail)) in
    let second =
      crypt_loop_full cs (suc (length (stream cs))) channels bytes next inp out [] ca tt
        (omega arith) i o (grind (arith, length-crypt_frames bytes next fs)) in
    let back : stream (crypt_frames bytes next cs) ≡ whole =
      ap stream (crypt_frames_undo channels bytes next fs lo hi a) ∙ e in
    (stream cs, rw e at first, size ∙ ap length e, rw (append-nil, back) at second)
