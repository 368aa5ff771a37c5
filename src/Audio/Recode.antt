-- ===== src/Audio/Recode.antt =====
-- `recode` of hw1/src/hw1.c. The buffers and the header are global variables of the program.
pub mod Undo
pub mod Options
use c_language.Prelude.{ℕ, suc, ◌+◌, ◌-◌, ◌*◌, ◌/◌, ◌^◌, Bool, true, false, Option, some}
use c_language.Prelude.{List, [], ◌++◌, length, u32, u64, ◌<<<◌, ◌>>>◌, ltb, if◌then◌else◌, ◌>>=◌}
use c_language.Audio.Header.{AudioHeader, read_header, write_header}
use c_language.Audio.Frame.{read_frame}
use c_language.Audio.Annotation.{read_annotation, write_annotation, annotationcpy, make_annotation}
use c_language.Audio.Annotation.{has_option}
use c_language.Audio.Crypt.{crypt_samples}
use c_language.Audio.Speed.{up_loop, down_start}

pub record Buffers : Type 0 where
  pub input_annotation : List ℕ
  pub output_annotation : List ℕ
  pub previous_frame : List ℕ
  pub input_frame : List ℕ
  pub output_frame : List ℕ

-- fac = global_options<<6; fac = fac >> 54; factor = fac+1;
unfoldable pub option_factor : ℕ → ℕ
option_factor options = u64 (options <<< 6) >>> 54 + 1

-- tkey = global_options<<32; key = tkey>>32;
unfoldable pub option_key : ℕ → ℕ
option_key options = u32 (u64 (options <<< 32) >>> 32)

-- The return value, and what is written to standard output.
abbrev pub Recoded : Type 0
Recoded = Option (Bool × List ℕ)

-- The header and the annotation, and the samples behind them.
unfoldable pub write_all : ℕ → AudioHeader → List ℕ → ℕ → Option (List ℕ) → Recoded
write_all uninit h annotation size samples = do
  a ← write_annotation uninit annotation size
  s ← samples
  some (true, write_header h ++ (a.1 ++ s))

-- The transformation that the options select, from the header, the annotation to write and its
-- size. Every round of a loop reads a byte at least, so that the input bounds the rounds.
unfoldable pub transform : ℕ → ℕ → Buffers → AudioHeader → List ℕ → ℕ → List ℕ → Recoded
transform uninit options m h annotation size s =
    let bytes = u32 (h.encoding + 2 ^ 32 - 1) in
    let fuel = suc (length s) in
    let factor = option_factor options in
    if has_option options 62
    then write_all uninit (record h { data_size = h.data_size / factor }) annotation size
        (up_loop fuel h.channels bytes factor 0 m.input_frame s)
    else (if has_option options 61
        then write_all uninit (record h { data_size = u32 (h.data_size * factor) }) annotation size
            (read_frame m.previous_frame h.channels bytes s
              >>= down_start fuel h.channels bytes factor m.input_frame m.output_frame)
        else (if has_option options 60
            then write_all uninit h annotation size
                (crypt_samples (option_key options) h.channels bytes m.input_frame m.output_frame s)
            else some (true, [])))

-- Behind a successful `read_annotation`.
unfoldable pub recode_annotated :
    ℕ → List (List ℕ) → ℕ → Buffers → AudioHeader → ℕ → List ℕ → List ℕ → Recoded
recode_annotated uninit argv options m h size inp s =
    if has_option options 59
    then annotationcpy inp 0 m.output_annotation 0
      >>= (λ r. transform uninit options m h r.1 size s)
    else make_annotation argv options size inp m.output_annotation >>= (λ r.
      transform uninit options m (record h { data_offset = u32 (24 + r.0) }) r.1
        (u32 (u32 (24 + r.0) + 2 ^ 32 - 24)) s)

unfoldable pub recode_headed :
    ℕ → List (List ℕ) → ℕ → Buffers → Bool × AudioHeader × List ℕ → Recoded
recode_headed uninit argv options m (false, h, s) = some (false, [])
recode_headed uninit argv options m (true, h, s) =
    let size = u32 (h.data_offset + 2 ^ 32 - 24) in
    if ltb 1024 size
    then some (false, [])
    else read_annotation uninit m.input_annotation size s >>= (λ r.
      if r.0 then recode_annotated uninit argv options m h size r.1 r.2 else some (false, []))

unfoldable pub recode : ℕ → List (List ℕ) → ℕ → Buffers → AudioHeader → List ℕ → Recoded
recode uninit argv options m hp s = recode_headed uninit argv options m (read_header hp s)
