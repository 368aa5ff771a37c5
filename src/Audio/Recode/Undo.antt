-- ===== src/Audio/Recode/Undo.antt =====
-- A whole stream encrypted by `recode` and decrypted by a second run with the same key.
use mathlib.Core.List.{append_assoc, append-nil}
use c_language.Prelude.{
  ℕ, zero, suc, ◌+◌, ◌-◌, ◌*◌, ◌^◌, ◌<◌, ◌≤◌, ◌≡◌, refl, ap, sym, ◌∙◌, true, false, some,
}
use c_language.Prelude.{
  List, [], ◌∷◌, ◌++◌, length, length-append, replicate, arith, ltb, ◌==◌, u32,
}
use c_language.Audio.Io.Laws.{IsBytes, IsBytes-append}
use c_language.Audio.Header.{AudioHeader, write_header}
use c_language.Audio.Header.RoundTrip.{IsHeader, read-write_header}
use c_language.Audio.Annotation.{annotationcpy}
use c_language.Audio.Annotation.Laws.{
  NoZeros, last, read_annotation_full, write_annotation_full, annotationcpy_full,
}
use c_language.Audio.Args.Options.{crypt_word}
use c_language.Audio.Crypt.{crypt_samples}
use c_language.Audio.Crypt.Stream.{crypt_samples_undo}
use c_language.Audio.Recode.{Buffers, recode, recode_headed, recode_annotated, transform, write_all}
use c_language.Audio.Recode.Options.{crypt_word-decoded}

*-positive : (a b : ℕ) → 1 ≤ a → 1 ≤ b → 1 ≤ a * b
*-positive (suc a) (suc b) p q = omega arith
*-positive zero b p q = absurd (omega arith)
*-positive (suc a) zero p q = absurd (omega arith)

replicate_add : (a b v : ℕ) → replicate (a + b) v ≡ replicate a v ++ replicate b v
replicate_add zero b v = ap (λ n. replicate n v) (omega arith)
replicate_add (suc a) b v =
    ap (λ n. replicate n v) (let e : suc a + b ≡ suc (a + b) = omega arith in e)
    ∙ ap (λ t. v ∷ t) (replicate_add a b v)

abbrev pub zeros : ℕ → List ℕ
zeros n = replicate n 0

-- A text and the zeros that end it.
abbrev pub padded : List ℕ → ℕ → List ℕ
padded text pad = text ++ zeros (suc pad)

last-zeros : (n d : ℕ) → last d (zeros (suc n)) ≡ 0
last-zeros zero d = refl
last-zeros (suc n) d = last-zeros n 0

last-padded : (text : List ℕ) (pad d : ℕ) → last d (padded text pad) ≡ 0
last-padded [] pad d = last-zeros pad d
last-padded (x ∷ text) pad d = last-padded text pad x

zeros-IsBytes : (n : ℕ) → IsBytes (zeros n)
zeros-IsBytes zero = tt
zeros-IsBytes (suc n) = (omega arith, zeros-IsBytes n)

length-zeros : (n : ℕ) → length (zeros n) ≡ n
length-zeros zero = refl
length-zeros (suc n) = ap suc (length-zeros n)

length-padded : (text : List ℕ) (pad : ℕ) → length (padded text pad) ≡ length text + suc pad
length-padded text pad = omega (arith, length-append text (zeros (suc pad)), length-zeros (suc pad))

-- Copied into a buffer of zeros, a padded text stands there with its padding.
copied :
    (text : List ℕ) (pad spare : ℕ) (post : List ℕ)
    → NoZeros text
    → annotationcpy (padded text pad ++ post) 0 (zeros (length (padded text pad) + spare)) 0
      ≡ some (suc (length text), padded text pad ++ zeros spare)
copied text pad spare post nz = rw (before, after) (rw e done)
  where
    n : ℕ
    n = suc (length text)

    before : padded text pad ++ post ≡ text ++ (0 ∷ (zeros pad ++ post))
    before = append_assoc text (zeros (suc pad)) post

    after : zeros (length (padded text pad) + spare) ≡ zeros n ++ zeros (pad + spare)
    after =
        ap (λ k. zeros k)
          (let l = length-padded text pad in
            let e : length (padded text pad) + spare ≡ n + (pad + spare) = omega arith in e)
        ∙ replicate_add n (pad + spare) 0

    e : padded text pad ++ zeros spare ≡ text ++ (0 ∷ zeros (pad + spare))
    e =
        append_assoc text (zeros (suc pad)) (zeros spare)
        ∙ ap (λ t. text ++ (0 ∷ t)) (sym (replicate_add pad spare 0))

    done :
        annotationcpy (text ++ (0 ∷ (zeros pad ++ post))) 0 (zeros n ++ zeros (pad + spare)) 0
        ≡ some (n, text ++ (0 ∷ zeros (pad + spare)))
    done =
        annotationcpy_full text (zeros pad ++ post) (zeros n) [] (zeros (pad + spare)) 0 0 nz refl
          (length-zeros n)
        ∙ ap (λ k. some (k, text ++ (0 ∷ zeros (pad + spare)))) (omega arith)

module _ (text : List ℕ) (pad spare uninit key : ℕ) (argv : List (List ℕ)) (m : Buffers)
    (h g : AudioHeader) (valid : IsHeader h) (fresh : g.magic_number ≡ 0) (text_ends : NoZeros text)
    (bytes : IsBytes text) (key_fits : key < 2 ^ 32)
    (offset : h.data_offset ≡ 24 + length (padded text pad))
    (room_in : length (padded text pad) ≤ length m.input_annotation)
    (room_out : m.output_annotation ≡ zeros (length (padded text pad) + spare)) where
  -- One run of -c with -p, with what the loop over the samples makes of them.
  run_crypt :
      (audio coded : List ℕ)
      → crypt_samples key h.channels (h.encoding - 1) m.input_frame m.output_frame audio
        ≡ some coded
      → recode uninit argv (crypt_word 1 key) m g (write_header h ++ (padded text pad ++ audio))
        ≡ some (true, write_header h ++ (padded text pad ++ coded))
  unfolding recode recode_headed recode_annotated transform write_all
  run_crypt audio coded e =
      let ann = padded text pad in
      let all_bytes : IsBytes ann =
        IsBytes-append text (zeros (suc pad)) bytes (zeros-IsBytes (suc pad)) in
      let size : u32 (h.data_offset + 2 ^ 32 - 24) ≡ length ann =
        let o = valid.offset_max in omega arith in
      let small : ltb 1024 (length ann) ≡ false = let o = valid.offset_max in ground arith in
      let (post, _, filled) =
        read_annotation_full uninit ann audio m.input_annotation all_bytes room_in in
      let ends : (last uninit ann == 0) ≡ true = rw (last-padded text pad uninit) refl in
      let byte_size : u32 (h.encoding + 2 ^ 32 - 1) ≡ h.encoding - 1 =
        let lo = valid.encoding_min in let hi = valid.encoding_max in omega arith in
      let written =
        write_annotation_full uninit ann (zeros spare) all_bytes
          (let o = valid.offset_max in omega arith) in
      let (no_u, no_d, c, p, k) = crypt_word-decoded 1 key (omega arith) key_fits in
      rw (
        read-write_header h g (ann ++ audio) valid fresh,
        size,
        small,
        filled,
        ends,
        p,
        room_out,
        copied text pad spare post text_ends,
        no_u,
        no_d,
        c,
        k,
        byte_size,
        written,
        e,
      )

  -- For a file whose header is valid, whose annotation is a text with only zeros behind it and
  -- fills the header's data offset, and whose samples are whole frames of bytes, as many bytes as
  -- the header's data size, a run with -c and -p and any 32-bit key succeeds when the buffers can
  -- hold a frame and the annotation. It writes the same header and annotation
  -- and as many bytes of samples, and a run with the same key over what it wrote writes the
  -- first file again.
  pub recode_crypt_undo :
      (n : ℕ) (audio : List ℕ)
      → IsBytes audio
      → length audio ≡ n * (h.channels * (h.encoding - 1))
      → h.data_size ≡ length audio
      → h.channels * (h.encoding - 1) ≤ length m.input_frame
      → h.channels * (h.encoding - 1) ≤ length m.output_frame
      → (coded : List ℕ) × (length coded ≡ length audio)
        × (recode uninit argv (crypt_word 1 key) m g (write_header h ++ (padded text pad ++ audio))
            ≡ some (true, write_header h ++ (padded text pad ++ coded)))
        × (recode uninit argv (crypt_word 1 key) m g (write_header h ++ (padded text pad ++ coded))
            ≡ some (true, write_header h ++ (padded text pad ++ audio)))
  recode_crypt_undo n audio b l size i o =
      let bytes = h.encoding - 1 in
      let lo : 1 ≤ bytes = let e = valid.encoding_min in omega arith in
      let hi : bytes ≤ 4 = let e = valid.encoding_max in omega arith in
      let one : 1 ≤ h.channels = valid.channels_min in
      let frame : 0 < h.channels * bytes = grind (arith, *-positive h.channels bytes one lo) in
      let (coded, first, size, second) =
        crypt_samples_undo key n h.channels bytes m.input_frame m.output_frame audio [] lo hi i o b
          l tt frame in
      let e = rw (append-nil) at first in
      (coded, size, run_crypt audio coded e, run_crypt coded audio second)
