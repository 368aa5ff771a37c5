-- ===== src/Audio/Speed/Up.antt =====
-- Which frames the option -u keeps.
use mathlib.Core.List.{append_assoc}
use c_language.Prelude.{
  ℕ, zero, suc, ◌+◌, ◌*◌, ◌%◌, ◌^◌, ◌<◌, ◌≤◌, ◌≡◌, refl, sym, ap, ◌∙◌, true, false, some,
}
use c_language.Prelude.{
  List, [], ◌∷◌, ◌++◌, length, length-append, split_at, flatten, arith, ◌==◌, if◌then◌else◌,
  Bool-cases, inl, inr,
}
use c_language.Audio.Io.Laws.{IsBytes}
use c_language.Audio.Frame.{read_frame, write_frame}
use c_language.Audio.Frame.Laws.{read_frame_loop_full, read_frame_loop_short, write_frame_loop_full}
use c_language.Audio.Speed.{up_round, up_loop}

-- The frames whose number, counted from `counter` on, is divisible by the factor.
pub kept : ℕ → ℕ → List (List ℕ) → List (List ℕ)
kept factor counter [] = []
kept factor counter (f ∷ fs) =
    let rest = kept factor (counter + 1) fs in if counter % factor == 0 then f ∷ rest else rest

abbrev pub AreFrames : ℕ → List (List ℕ) → Type 0
AreFrames size [] = Unit {0}
AreFrames size (f ∷ fs) = (IsBytes f × (length f ≡ size)) × AreFrames size fs

module _ (channels bytes factor : ℕ) where
  -- A frame that is there is read into the buffer, and what follows is seen to.
  read_one :
      (f inp rest : List ℕ)
      → IsBytes f
      → length f ≡ channels * bytes
      → channels * bytes ≤ length inp
      → (post : List ℕ) × (length (f ++ post) ≡ length inp)
        × (read_frame inp channels bytes (f ++ rest) ≡ some (true, f ++ post, rest))
        × (write_frame (f ++ post) channels bytes ≡ some f)
  unfolding read_frame write_frame
  read_one f inp rest b l i =
      let (inp1, inp2, cut, k) = split_at (channels * bytes) inp i in
      let r = rw l at (read_frame_loop_full f inp1 [] inp2 rest 0 refl (k ∙ sym l) b) in
      let w = rw l at (write_frame_loop_full f [] inp2 0 refl b) in
      let n : length (f ++ inp2) ≡ length inp =
        grind (arith, length-append f inp2, length-append inp1 inp2, ap length cut) in
      (inp2, n, rw cut r, w)

  read_none :
      (inp tail : List ℕ)
      → IsBytes tail
      → length tail < channels * bytes
      → channels * bytes ≤ length inp
      → (fp : List ℕ) × (read_frame inp channels bytes tail ≡ some (false, fp, []))
  unfolding read_frame
  read_none inp tail b t i =
      let (inp1, inp2, cut, k) = split_at (channels * bytes) inp i in
      let (fp, e) = read_frame_loop_short tail inp1 [] inp2 (channels * bytes) 0 refl t (sym k) b in
      (fp, rw cut e)

  -- With a buffer for a frame, fuel for every frame and a counter that does not overflow, the
  -- loop of -u writes exactly the frames whose number is divisible by the factor, in order, and
  -- drops an incomplete frame at the end of the input, without the error that audio.h asks for.
  pub up_loop-kept :
      (fs : List (List ℕ)) (fuel counter : ℕ) (inp tail : List ℕ)
      → AreFrames (channels * bytes) fs
      → IsBytes tail
      → length tail < channels * bytes
      → channels * bytes ≤ length inp
      → length fs < fuel
      → counter + length fs < 2 ^ 31
      → up_loop fuel channels bytes factor counter inp (flatten fs ++ tail)
        ≡ some (flatten (kept factor counter fs))
  unfolding up_loop up_round flatten kept
  up_loop-kept fs zero counter inp tail a b t i h c = absurd (omega arith)
  up_loop-kept [] (suc fuel) counter inp tail a b t i h c =
      let (fp, e) = read_none inp tail b t i in rw e refl
  up_loop-kept (f ∷ fs) (suc fuel) counter inp tail ((fb, fl), a) b t i h c =
      let (post, n, r, w) = read_one f inp (flatten fs ++ tail) fb fl i in
      let ih =
        up_loop-kept fs fuel (counter + 1) (f ++ post) tail a b t (omega arith) (omega arith)
          (omega arith) in
      let fits : (counter + 1 == 2147483648) ≡ false = ground arith in
      elim (Bool-cases (counter % factor == 0)) [
        | inl e ↦ rw (append_assoc f (flatten fs) tail, r, e, w, fits, ih) refl
        | inr e ↦ rw (append_assoc f (flatten fs) tail, r, e, fits, ih) refl
      ]
