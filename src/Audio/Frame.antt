-- ===== src/Audio/Frame.antt =====
-- The frame buffers of hw1/src/hw1.c and the functions that fill, write and copy them. A buffer
-- is the list of its `int`s; an access behind its end is `none`.
pub mod Laws
use c_language.Prelude.{ℕ, zero, suc, ◌+◌, ◌*◌, ◌-◌, ◌^◌, Bool, true, false, Option, none, some}
use c_language.Prelude.{List, [], ◌∷◌, u8, ltb, ◌==◌, if◌then◌else◌, ◌>>=◌, length, get_elem?, set}
use c_language.Audio.Io.{eof, getchar}

-- `*(p+i)`, and `*(p+i) = v`.
abbrev pub load : List ℕ → ℕ → Option ℕ
load buf i = get_elem? buf i

abbrev pub store : List ℕ → ℕ → ℕ → Option (List ℕ)
store buf i v = if ltb i (length buf) then some (set buf i v) else none

-- The loop of `read_frame` at index `j`: the result, the buffer and the unread input.
unfoldable pub read_frame_loop : ℕ → ℕ → List ℕ → List ℕ → Option (Bool × List ℕ × List ℕ)
unfolding getchar
read_frame_loop zero j fp s = some (true, fp, s)
read_frame_loop (suc left) j fp s =
    let (a, s') = getchar s in
    if a == eof
    then some (false, fp, s')
    else (store fp j a >>= λ fp'. read_frame_loop left (j + 1) fp' s')

unfoldable pub read_frame : List ℕ → ℕ → ℕ → List ℕ → Option (Bool × List ℕ × List ℕ)
read_frame fp channels bytes_per_sample s = read_frame_loop (channels * bytes_per_sample) 0 fp s

-- The loop of `write_frame`, which returns what it writes.
unfoldable pub write_frame_loop : ℕ → ℕ → List ℕ → Option (List ℕ)
write_frame_loop zero j fp = some []
write_frame_loop (suc left) j fp =
    load fp j >>= λ c. (write_frame_loop left (j + 1) fp >>= λ out. some (u8 c ∷ out))

unfoldable pub write_frame : List ℕ → ℕ → ℕ → Option (List ℕ)
write_frame fp channels bytes_per_sample = write_frame_loop (channels * bytes_per_sample) 0 fp

unfoldable pub framecpy_loop : ℕ → ℕ → List ℕ → List ℕ → Option (List ℕ)
framecpy_loop zero i dest src = some dest
framecpy_loop (suc left) i dest src =
    load src i >>= λ v. (store dest i v >>= λ dest'. framecpy_loop left (i + 1) dest' src)

unfoldable pub framecpy : List ℕ → List ℕ → ℕ → ℕ → Option (List ℕ)
framecpy dest src channels byte_per_sample = framecpy_loop (channels * byte_per_sample) 0 dest src
