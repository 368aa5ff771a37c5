-- ===== src/Audio/Annotation.antt =====
-- The annotation of a stream (hw1/src/hw1.c): reading, writing and copying it, and the one that
-- `recode` makes up from the command line. `uninit` stands for the value of a variable that the
-- code has not set.
pub mod Laws
pub mod Bounds
use c_language.Prelude.{
  ℕ, zero, suc, ◌+◌, ◌-◌, ◌%◌, ◌^◌, Bool, true, false, not, Option, none, some,
}
use c_language.Prelude.{
  List, [], ◌∷◌, length, get_elem?, u8, ltb, ◌==◌, if◌then◌else◌, ◌>>=◌, bit_and,
}
use c_language.Audio.Io.{getchar}
use c_language.Audio.Header.{annotation_max}
use c_language.Audio.Frame.{load, store}
use c_language.Audio.Args.{arg_char}

-- The loop of `read_annotation`: the last character, the buffer and the unread input.
unfoldable pub read_annotation_loop : ℕ → ℕ → ℕ → List ℕ → List ℕ → Option (ℕ × List ℕ × List ℕ)
read_annotation_loop zero j c ap s = some (c, ap, s)
read_annotation_loop (suc left) j c ap s =
    let (b, s') = getchar s in
    store ap j (u8 b) >>= λ ap'. read_annotation_loop left (j + 1) (u8 b) ap' s'

unfoldable pub read_annotation : ℕ → List ℕ → ℕ → List ℕ → Option (Bool × List ℕ × List ℕ)
read_annotation uninit ap size s =
    read_annotation_loop size 0 uninit ap s >>= λ r. some (r.0 == 0, r.1, r.2)

-- The loop of `write_annotation`: the last character, and what is written.
unfoldable pub write_annotation_loop : ℕ → ℕ → ℕ → List ℕ → Option (ℕ × List ℕ)
write_annotation_loop zero j c ap = some (c, [])
write_annotation_loop (suc left) j c ap =
    load ap j >>= λ b. (write_annotation_loop left (j + 1) b ap >>= λ r. some (r.0, u8 b ∷ r.1))

unfoldable pub write_annotation : ℕ → List ℕ → ℕ → Option (Bool × List ℕ)
write_annotation uninit ap size =
    if ltb annotation_max size
    then some (false, [])
    else (write_annotation_loop size 0 uninit ap >>= λ r. some (r.0 == 0, r.1))

-- `annotationcpy` from the source that is left, to index `at`: the counter and the target.
unfoldable pub annotationcpy : List ℕ → ℕ → List ℕ → ℕ → Option (ℕ × List ℕ)
annotationcpy [] at dest counter = none
annotationcpy (c ∷ src) at dest counter = store dest at c >>= λ dest'.
    if c == 0 then some (counter + 1, dest') else annotationcpy src (at + 1) dest' (counter + 1)

-- *(output_annotation+at) = c; at++; for each character.
unfoldable pub append_text : List ℕ → ℕ → List ℕ → Option (ℕ × List ℕ)
append_text [] at buf = some (at, buf)
append_text (c ∷ s) at buf = store buf at c >>= λ buf'. append_text s (at + 1) buf'

-- The text of an option letter, and of its parameter if `argv[2]` is that of the parameter.
unfoldable pub append_option : List (List ℕ) → ℕ → ℕ → ℕ → List ℕ → Option (ℕ × List ℕ)
append_option argv letter parameter at buf = do
  r ← append_text (b' ' ∷ b'-' ∷ letter ∷ []) at buf
  t ← arg_char argv 2 1
  if t == parameter
      then (do
        q ← append_text (b' ' ∷ b'-' ∷ parameter ∷ b' ' ∷ []) r.0 r.1
        a ← get_elem? argv 3
        append_text a q.0 q.1)
      else some r

-- Is bit `k` of the options set?
unfoldable pub has_option : ℕ → ℕ → Bool
has_option options k = not (bit_and options (2 ^ k) == 0)

unfoldable pub append_options : List (List ℕ) → ℕ → ℕ → List ℕ → Option (ℕ × List ℕ)
append_options argv options at buf =
    if has_option options 62
    then append_option argv b'u' b'f' at buf
    else (if has_option options 61
        then append_option argv b'd' b'f' at buf
        else (if has_option options 60
            then append_option argv b'c' b'k' at buf
            else some (at, buf)))

-- for(int j=0;j<8-tat;j++) *(output_annotation+at)= '\0';
unfoldable pub append_zeros : ℕ → ℕ → List ℕ → Option (ℕ × List ℕ)
append_zeros zero at buf = some (at, buf)
append_zeros (suc n) at buf = store buf at 0 >>= λ buf'. append_zeros n (at + 1) buf'

-- The annotation without -p: the command line, a new line, the input's annotation (`size` bytes
-- of it were read into `inp`) up to its first zero, and zeros up to a multiple of 8.
unfoldable pub make_annotation : List (List ℕ) → ℕ → ℕ → List ℕ → List ℕ → Option (ℕ × List ℕ)
make_annotation argv options size inp out = do
  program ← get_elem? argv 0
  a ← append_text program 0 out
  b ← append_options argv options a.0 a.1
  c ← append_text (10 ∷ []) b.0 b.1
  d ←
      if size == 0
      then append_text (0 ∷ []) c.0 c.1
      else (annotationcpy inp c.0 c.1 0 >>= λ r. some (c.0 + r.0, r.1))
  append_zeros (if d.0 % 8 == 0 then 0 else 8 - d.0 % 8) d.0 d.1
