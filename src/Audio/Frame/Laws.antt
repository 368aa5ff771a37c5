-- ===== src/Audio/Frame/Laws.antt =====
-- The loops over frame buffers, at a buffer split where the loop stands.
use mathlib.Core.List.{append_assoc}
use c_language.Prelude.{ℕ, zero, suc, ◌+◌, ◌<◌, ◌≡◌, refl, ap, true, false}
use c_language.Prelude.{some, List, [], ◌∷◌, ◌++◌, arith, length, length-append, set}
use c_language.Prelude.{u8, ◌==◌}
use c_language.Audio.Io.{eof}
use c_language.Audio.Io.Laws.{IsBytes}
use c_language.Audio.Frame.{load, store, read_frame_loop, write_frame_loop, framecpy_loop}

pub load_at :
    (pre : List ℕ) (x : ℕ) (post : List ℕ) → load (pre ++ (x ∷ post)) (length pre) ≡ some x
load_at [] x post = refl
load_at (y ∷ pre) x post = load_at pre x post

set_at :
    (pre : List ℕ) (x v : ℕ) (post : List ℕ)
    → set (pre ++ (x ∷ post)) (length pre) v ≡ pre ++ (v ∷ post)
set_at [] x v post = refl
set_at (y ∷ pre) x v post = ap (λ t. y ∷ t) (set_at pre x v post)

pub store_at :
    (pre : List ℕ) (x v : ℕ) (post : List ℕ)
    → store (pre ++ (x ∷ post)) (length pre) v ≡ some (pre ++ (v ∷ post))
store_at pre x v post = ground (arith, length-append pre (x ∷ post), set_at pre x v post)

-- The split moves on by one element.
pub step_over :
    (pre : List ℕ) (x : ℕ) (post : List ℕ) → pre ++ (x ∷ post) ≡ (pre ++ (x ∷ [])) ++ post
step_over pre x post = simp append_assoc

pub length_step : (pre : List ℕ) (x j : ℕ) → j ≡ length pre → j + 1 ≡ length (pre ++ (x ∷ []))
length_step pre x j e = omega (arith, length-append pre (x ∷ []))

-- With enough input a frame is read into the buffer at the cursor.
pub read_frame_loop_full :
    (f old pre post rest : List ℕ) (j : ℕ)
    → j ≡ length pre
    → length old ≡ length f
    → IsBytes f
    → read_frame_loop (length f) j (pre ++ (old ++ post)) (f ++ rest)
      ≡ some (true, pre ++ (f ++ post), rest)
unfolding read_frame_loop
read_frame_loop_full [] [] pre post rest j e l b = refl
read_frame_loop_full [] (y ∷ old) pre post rest j e l b = absurd (omega arith)
read_frame_loop_full (x ∷ f) [] pre post rest j e l b = absurd (omega arith)
read_frame_loop_full (x ∷ f) (y ∷ old) pre post rest j e l b =
    let ih =
      read_frame_loop_full f old (pre ++ (x ∷ [])) post rest (j + 1) (length_step pre x j e)
        (omega arith) b.1 in
    let more : (x == eof) ≡ false = let h = b.0 in ground arith in
    let stored : store (pre ++ (y ∷ (old ++ post))) j x ≡ some (pre ++ (x ∷ (old ++ post))) =
      rw e (store_at pre y x (old ++ post)) in
    rw (more, stored, step_over pre x (old ++ post), step_over pre x (f ++ post)) ih

pub write_frame_loop_full :
    (f pre post : List ℕ) (j : ℕ)
    → j ≡ length pre
    → IsBytes f
    → write_frame_loop (length f) j (pre ++ (f ++ post)) ≡ some f
unfolding write_frame_loop
write_frame_loop_full [] pre post j e b = refl
write_frame_loop_full (x ∷ f) pre post j e b =
    let ih = write_frame_loop_full f (pre ++ (x ∷ [])) post (j + 1) (length_step pre x j e) b.1 in
    let loaded : load (pre ++ (x ∷ (f ++ post))) j ≡ some x = rw e (load_at pre x (f ++ post)) in
    let byte : u8 x ≡ x = let h = b.0 in omega arith in
    rw (loaded, step_over pre x (f ++ post), ih, byte)

-- A frame copied into another buffer.
pub framecpy_loop_full :
    (f old pre post pre' post' : List ℕ) (i : ℕ)
    → i ≡ length pre
    → i ≡ length pre'
    → length old ≡ length f
    → framecpy_loop (length f) i (pre' ++ (old ++ post')) (pre ++ (f ++ post))
      ≡ some (pre' ++ (f ++ post'))
unfolding framecpy_loop
framecpy_loop_full [] [] pre post pre' post' i e e' l = refl
framecpy_loop_full [] (y ∷ old) pre post pre' post' i e e' l = absurd (omega arith)
framecpy_loop_full (x ∷ f) [] pre post pre' post' i e e' l = absurd (omega arith)
framecpy_loop_full (x ∷ f) (y ∷ old) pre post pre' post' i e e' l =
    let ih =
      framecpy_loop_full f old (pre ++ (x ∷ [])) post (pre' ++ (x ∷ [])) post' (i + 1)
        (length_step pre x i e) (length_step pre' x i e') (omega arith) in
    let loaded : load (pre ++ (x ∷ (f ++ post))) i ≡ some x = rw e (load_at pre x (f ++ post)) in
    let stored : store (pre' ++ (y ∷ (old ++ post'))) i x ≡ some (pre' ++ (x ∷ (old ++ post'))) =
      rw e' (store_at pre' y x (old ++ post')) in
    rw
      (
        loaded,
        stored,
        step_over pre' x (old ++ post'),
        step_over pre x (f ++ post),
        step_over pre' x (f ++ post'),
      )
      ih

-- With fewer bytes than a frame has, nothing counts as read.
pub read_frame_loop_short :
    (f old pre post : List ℕ) (left j : ℕ)
    → j ≡ length pre
    → length f < left
    → left ≡ length old
    → IsBytes f
    → (fp : List ℕ) × (read_frame_loop left j (pre ++ (old ++ post)) f ≡ some (false, fp, []))
unfolding read_frame_loop
read_frame_loop_short f old pre post zero j e h l b = elim h [ ]
read_frame_loop_short f [] pre post (suc left) j e h l b = absurd (omega arith)
read_frame_loop_short [] (y ∷ old) pre post (suc left) j e h l b = (_, refl)
read_frame_loop_short (x ∷ f) (y ∷ old) pre post (suc left) j e h l b =
    let (fp, ih) =
      read_frame_loop_short f old (pre ++ (x ∷ [])) post left (j + 1) (length_step pre x j e)
        (omega arith) (omega arith) b.1 in
    let more : (x == eof) ≡ false = let h = b.0 in ground arith in
    let stored : store (pre ++ (y ∷ (old ++ post))) j x ≡ some (pre ++ (x ∷ (old ++ post))) =
      rw e (store_at pre y x (old ++ post)) in
    (fp, rw (more, stored, step_over pre x (old ++ post)) ih)
