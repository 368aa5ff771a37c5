-- ===== src/Audio/Annotation/Laws.antt =====
-- Reading and writing an annotation, and the bounds of the one that is made up.

use c_language.Prelude.{ℕ, suc, ◌+◌, ◌-◌, ◌≤◌, ◌≡◌, ◌≢◌, refl, ap, false, some}
use c_language.Prelude.{List, [], ◌∷◌, ◌++◌, length, length-append, arith, ◌==◌, ltb, u8, split_at}
use c_language.Audio.Io.{getchar}
use c_language.Audio.Io.Laws.{IsBytes}
use c_language.Audio.Frame.{load, store}
use c_language.Audio.Frame.Laws.{load_at, store_at, step_over, length_step}
use c_language.Audio.Header.{annotation_max}
use c_language.Audio.Annotation.{
  read_annotation, read_annotation_loop, write_annotation, write_annotation_loop,
}
use c_language.Audio.Annotation.{annotationcpy}

-- The last element, or `d` if there is none.
abbrev pub last : ℕ → List ℕ → ℕ
last d [] = d
last d (x ∷ xs) = last x xs

read_annotation_loop_full :
    (a old pre post rest : List ℕ) (j c : ℕ)
    → j ≡ length pre
    → length old ≡ length a
    → IsBytes a
    → read_annotation_loop (length a) j c (pre ++ (old ++ post)) (a ++ rest)
      ≡ some (last c a, pre ++ (a ++ post), rest)
unfolding read_annotation_loop getchar
read_annotation_loop_full [] [] pre post rest j c e l b = refl
read_annotation_loop_full [] (y ∷ old) pre post rest j c e l b = absurd (omega arith)
read_annotation_loop_full (x ∷ a) [] pre post rest j c e l b = absurd (omega arith)
read_annotation_loop_full (x ∷ a) (y ∷ old) pre post rest j c e l b =
    let byte : u8 x ≡ x = let h = b.0 in omega arith in
    let stored : store (pre ++ (y ∷ (old ++ post))) j x ≡ some (pre ++ (x ∷ (old ++ post))) =
      rw e (store_at pre y x (old ++ post)) in
    rw (byte, stored, step_over pre x (old ++ post), step_over pre x (a ++ post))
      (read_annotation_loop_full a old (pre ++ (x ∷ [])) post rest (j + 1) x (length_step pre x j e)
        (omega arith) b.1)

write_annotation_loop_full :
    (a pre post : List ℕ) (j c : ℕ)
    → j ≡ length pre
    → IsBytes a
    → write_annotation_loop (length a) j c (pre ++ (a ++ post)) ≡ some (last c a, a)
unfolding write_annotation_loop
write_annotation_loop_full [] pre post j c e b = refl
write_annotation_loop_full (x ∷ a) pre post j c e b =
    let loaded : load (pre ++ (x ∷ (a ++ post))) j ≡ some x = rw e (load_at pre x (a ++ post)) in
    let byte : u8 x ≡ x = let h = b.0 in omega arith in
    rw (
      loaded,
      byte,
      step_over pre x (a ++ post),
      write_annotation_loop_full a (pre ++ (x ∷ [])) post (j + 1) x (length_step pre x j e) b.1,
    )

-- An annotation in the input goes to the front of the buffer, and is accepted exactly when its last
-- byte is zero; without one the answer is that of the unset variable.
pub read_annotation_full :
    (uninit : ℕ) (a rest buf : List ℕ)
    → IsBytes a
    → length a ≤ length buf
    → (post : List ℕ) × (length post ≡ length buf - length a)
      × (read_annotation uninit buf (length a) (a ++ rest)
          ≡ some (last uninit a == 0, a ++ post, rest))
unfolding read_annotation
read_annotation_full uninit a rest buf b h =
    let (old, post, cut, l) = split_at (length a) buf h in
    (
      post,
      omega (arith, ap length cut, length-append old post),
      rw (cut, read_annotation_loop_full a old [] post rest 0 uninit refl l b),
    )

-- The front of the buffer is written back, if it is no longer than an annotation may be.
pub write_annotation_full :
    (uninit : ℕ) (a post : List ℕ)
    → IsBytes a
    → length a ≤ annotation_max
    → write_annotation uninit (a ++ post) (length a) ≡ some (last uninit a == 0, a)
unfolding write_annotation
write_annotation_full uninit a post b h =
    let small : ltb annotation_max (length a) ≡ false = ground arith in
    rw (small, write_annotation_loop_full a [] post 0 uninit refl b)

abbrev pub NoZeros : List ℕ → Type 0
NoZeros [] = Unit {0}
NoZeros (c ∷ t) = (c ≢ 0) × NoZeros t

-- A text is copied up to its zero, and what stands behind that in the target stays.
pub annotationcpy_full :
    (text more old pre post : List ℕ) (at n : ℕ)
    → NoZeros text
    → at ≡ length pre
    → length old ≡ suc (length text)
    → annotationcpy (text ++ (0 ∷ more)) at (pre ++ (old ++ post)) n
      ≡ some (n + suc (length text), pre ++ (text ++ (0 ∷ post)))
unfolding annotationcpy
annotationcpy_full [] more [] pre post at n z e l = absurd (omega arith)
annotationcpy_full [] more (y ∷ []) pre post at n z e l =
    let stored : store (pre ++ (y ∷ post)) at 0 ≡ some (pre ++ (0 ∷ post)) =
      rw e (store_at pre y 0 post) in
    rw stored
annotationcpy_full [] more (y ∷ y' ∷ old) pre post at n z e l = absurd (omega arith)
annotationcpy_full (x ∷ text) more [] pre post at n z e l = absurd (omega arith)
annotationcpy_full (x ∷ text) more (y ∷ old) pre post at n (x0, z) e l =
    let stored : store (pre ++ (y ∷ (old ++ post))) at x ≡ some (pre ++ (x ∷ (old ++ post))) =
      rw e (store_at pre y x (old ++ post)) in
    let go_on : (x == 0) ≡ false = ground arith in
    let ih =
      annotationcpy_full text more old (pre ++ (x ∷ [])) post (at + 1) (n + 1) z
        (length_step pre x at e) (omega arith) in
    let count : n + 1 + suc (length text) ≡ n + suc (suc (length text)) = omega arith in
    rw (
      stored,
      go_on,
      step_over pre x (old ++ post),
      ih,
      ← step_over pre x (text ++ (0 ∷ post)),
      count,
    )
