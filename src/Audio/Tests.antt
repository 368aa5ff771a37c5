-- ===== src/Audio/Tests.antt =====
-- The models of hw1 run on small inputs, and the theorems applied to them.
use c_language.Prelude.{
  ℕ, ◌+◌, ◌%◌, ◌^◌, ◌<◌, ◌≤◌, ◌≡◌, inl, inr, ◌≢◌, ◌⊎◌, refl, true, false, some, arith,
}
use c_language.Prelude.{List, [], ◌∷◌, ◌++◌, length, replicate}
use c_language.Audio.Io.{write_word, word_byte}
use c_language.Audio.Io.Laws.{IsBytes}
use c_language.Audio.Header.{AudioHeader, read_header, write_header, audio_magic, annotation_max}
use c_language.Audio.Header.RoundTrip.{IsHeader, read-write_header}
use c_language.Audio.Header.Accept.{read_header_accepts}
use c_language.Audio.Annotation.{
  make_annotation, has_option, append_text, append_option, append_options, append_zeros,
  annotationcpy,
}
use c_language.Audio.Annotation.Bounds.{make_annotation_bounds}
use c_language.Audio.Args.{
  validargs, str_to_int, str_to_hex, mode_args, crypt_args, take_key, after_key, hex_length,
  hex_digit, str_to_hex_loop,
}
use c_language.Audio.Args.Numbers.{decimal, str_to_int-decimal, str_to_hex-hexadecimal}
use c_language.Audio.Args.Options.{speed_word, crypt_word, IsSpeed, IsCrypt, validargs_options}
use c_language.Audio.Args.Rejected.{crypt_p_rejected}
use c_language.Audio.Crypt.{crypt_samples}
use c_language.Audio.Crypt.Stream.{crypt_samples_undo}
use c_language.Prelude.{flatten}
use c_language.Prelude.{◌-◌, ◌*◌, ◌/◌}
use c_language.Audio.Speed.{up_loop, interpolate}
use c_language.Audio.Speed.Between.{place, interpolate_between}
use c_language.Audio.Speed.Up.{kept, up_loop-kept}
use c_language.Audio.Recode.{Buffers, recode, option_factor, option_key}
use c_language.Audio.Recode.Options.{speed_word-decoded, crypt_word-decoded}
use c_language.Audio.Recode.Undo.{recode_crypt_undo, zeros, padded}

-- Two frames of one 16-bit sample behind an annotation of eight bytes.
abbrev speech : AudioHeader
speech = record {
  magic_number = audio_magic;
  data_offset = 32;
  data_size = 4;
  encoding = 3;
  sample_rate = 8000;
  channels = 1;
}

abbrev blank : AudioHeader
blank = record {
  magic_number = 0;
  data_offset = 0;
  data_size = 0;
  encoding = 0;
  sample_rate = 0;
  channels = 0;
}

abbrev buffers : Buffers
buffers = record {
  input_annotation = replicate 16 0;
  output_annotation = zeros 16;
  previous_frame = replicate 8 0;
  input_frame = replicate 8 0;
  output_frame = replicate 8 0;
}

abbrev samples : List ℕ
samples = 1 ∷ (2 ∷ (3 ∷ (4 ∷ [])))

samples-IsBytes : IsBytes samples
samples-IsBytes = (omega arith, (omega arith, (omega arith, (omega arith, tt))))

abbrev note_text : List ℕ
note_text = b'h' ∷ []

speech-IsHeader : IsHeader speech
speech-IsHeader = record {
  magic = refl;
  aligned = refl;
  offset_max = omega arith;
  size_fits = omega arith;
  encoding_min = omega arith;
  encoding_max = omega arith;
  rate_fits = omega arith;
  channels_min = omega arith;
  channels_max = omega arith;
}

abbrev stream_of : List ℕ → List ℕ
stream_of audio = write_header speech ++ (padded note_text 6 ++ audio)

recode_crypt_undo_example :
    (coded : List ℕ) × (length coded ≡ 4)
    × (recode 0 [] (crypt_word 1 7) buffers blank (stream_of samples)
        ≡ some (true, stream_of coded))
    × (recode 0 [] (crypt_word 1 7) buffers blank (stream_of coded)
        ≡ some (true, stream_of samples))
recode_crypt_undo_example =
    recode_crypt_undo note_text 6 8 0 7 [] buffers speech blank speech-IsHeader refl
      (omega arith, tt) (omega arith, tt) (omega arith) refl (omega arith) refl 2 samples
      samples-IsBytes refl refl (omega arith) (omega arith)

crypt_samples_undo_example :
    (coded : List ℕ) × (crypt_samples 7 1 2 (replicate 8 0) (replicate 8 0) (samples ++ (9 ∷ []))
      ≡ some coded)
    × (length coded ≡ length samples)
    × (crypt_samples 7 1 2 (replicate 8 0) (replicate 8 0) coded ≡ some samples)
crypt_samples_undo_example =
    crypt_samples_undo 7 2 1 2 (replicate 8 0) (replicate 8 0) samples (9 ∷ []) (omega arith)
      (omega arith) (omega arith) (omega arith) samples-IsBytes refl (omega arith, tt) (omega arith)

read-write_header_example :
    read_header blank (write_header speech ++ samples) ≡ (true, speech, samples)
read-write_header_example = read-write_header speech blank samples speech-IsHeader refl

abbrev crypt_args_test : List (List ℕ)
crypt_args_test =
    (b'a' ∷ [])
    ∷ ((b'-' ∷ (b'c' ∷ [])) ∷ ((b'-' ∷ (b'k' ∷ [])) ∷ ((b'7' ∷ []) ∷ ((b'-' ∷ (b'p' ∷ [])) ∷ []))))

accepted_test : validargs crypt_args_test 0 ≡ some (true, crypt_word 1 7)
unfolding validargs mode_args crypt_args take_key after_key hex_length hex_digit str_to_hex
    str_to_hex_loop
accepted_test = refl

validargs_options_example :
    (crypt_word 1 7 ≡ 2 ^ 63)
    ⊎ (IsSpeed 4 (crypt_word 1 7) ⊎ (IsSpeed 2 (crypt_word 1 7) ⊎ IsCrypt (crypt_word 1 7)))
validargs_options_example = validargs_options crypt_args_test (crypt_word 1 7) accepted_test

crypt_p_rejected_example :
    validargs ((b'a' ∷ []) ∷ ((b'-' ∷ (b'c' ∷ [])) ∷ ((b'-' ∷ (b'p' ∷ [])) ∷ []))) 0
    ≢ some (true, 2 ^ 60)
crypt_p_rejected_example = crypt_p_rejected (b'a' ∷ []) [] (2 ^ 60)

speed_word-decoded_example :
    (has_option (speed_word 4 1 9) 62 ≡ true)
    × (has_option (speed_word 4 1 9) 61 ≡ false)
    × (has_option (speed_word 4 1 9) 59 ≡ true)
    × (option_factor (speed_word 4 1 9) ≡ 10)
speed_word-decoded_example = speed_word-decoded 4 1 9 (omega arith) (omega arith) (omega arith)

crypt_word-decoded_example :
    (has_option (crypt_word 0 7) 62 ≡ false)
    × (has_option (crypt_word 0 7) 61 ≡ false)
    × (has_option (crypt_word 0 7) 60 ≡ true)
    × (has_option (crypt_word 0 7) 59 ≡ false)
    × (option_key (crypt_word 0 7) ≡ 7)
crypt_word-decoded_example = crypt_word-decoded 0 7 (omega arith) (omega arith)

str_to_int-decimal_example : str_to_int (b'4' ∷ (b'2' ∷ [])) ≡ decimal 0 (b'4' ∷ (b'2' ∷ []))
str_to_int-decimal_example =
    str_to_int-decimal (b'4' ∷ (b'2' ∷ []))
      (omega arith, omega arith, (omega arith, omega arith, tt)) (omega arith)

str_to_hex-hexadecimal_example : (str_to_hex (b'9' ∷ (b'f' ∷ (b'F' ∷ []))) ≡ 2559) × (2559 < 2 ^ 32)
str_to_hex-hexadecimal_example =
    str_to_hex-hexadecimal (b'9' ∷ (b'f' ∷ (b'F' ∷ []))) (9 ∷ (15 ∷ (15 ∷ []))) (omega arith) (
      inl (omega arith, refl),
      (inr (omega arith, omega arith, inl refl), (inr (omega arith, omega arith, inr refl), tt)),
    )

-- A header alone, byte by byte.
header-IsBytes : IsBytes (write_header speech ++ [])
unfolding write_header write_word word_byte
header-IsBytes = ground arith

read_header_accepts_example :
    (write_header speech ++ [] ≡ write_header speech ++ [])
    × (speech.magic_number ≡ audio_magic)
    × (speech.data_offset % 8 ≡ 0)
    × ((speech.data_offset ≤ annotation_max) ⊎ (2 ^ 31 ≤ speech.data_offset))
    × (2 ≤ speech.encoding)
    × (speech.encoding ≤ 5)
    × (1 ≤ speech.channels)
    × (speech.channels ≤ 2)
read_header_accepts_example =
    read_header_accepts blank speech (write_header speech ++ []) [] header-IsBytes refl
      (read-write_header speech blank [] speech-IsHeader refl)

abbrev made_up : List ℕ
made_up =
    b'a' ∷ (b' ' ∷ (b'-' ∷ (b'c' ∷ (b' ' ∷ (b'-' ∷ (b'k' ∷ (b' ' ∷ (b'7' ∷ (10 ∷ zeros 6)))))))))

make_annotation_test :
    make_annotation
      ((b'a' ∷ []) ∷ ((b'-' ∷ (b'c' ∷ [])) ∷ ((b'-' ∷ (b'k' ∷ [])) ∷ ((b'7' ∷ []) ∷ []))))
      (crypt_word 0 7)
      0
      []
      (zeros 16)
    ≡ some (16, made_up)
unfolding make_annotation append_text append_option append_options append_zeros has_option
    annotationcpy
make_annotation_test = refl

make_annotation_bounds_example :
    (16 ≤ 16) × (length made_up ≡ 16) × (16 % 8 ≡ 0) × ((24 + 16) % 8 ≡ 0)
make_annotation_bounds_example =
    make_annotation_bounds
      ((b'a' ∷ []) ∷ ((b'-' ∷ (b'c' ∷ [])) ∷ ((b'-' ∷ (b'k' ∷ [])) ∷ ((b'7' ∷ []) ∷ []))))
      (crypt_word 0 7) 0 [] (zeros 16) make_annotation_test

abbrev two_bytes : List ℕ
two_bytes = 1 ∷ (2 ∷ [])

up_loop-kept_example :
    up_loop 5 1 2 2 0 (replicate 8 0) (flatten (two_bytes ∷ (two_bytes ∷ [])) ++ (9 ∷ []))
    ≡ some (flatten (kept 2 0 (two_bytes ∷ (two_bytes ∷ []))))
up_loop-kept_example =
    up_loop-kept 1 2 2 (two_bytes ∷ (two_bytes ∷ [])) 5 0 (replicate 8 0) (9 ∷ [])
      (((omega arith, (omega arith, tt)), refl), (((omega arith, (omega arith, tt)), refl), tt))
      (omega arith, tt) (omega arith) (omega arith) (omega arith) (omega arith)

-- From -3 to 3, the first of two parts.
interpolate_between_example :
    ((place 4294967293 ≤ place 3)
      × (place (interpolate 4294967293 3 1 2)
          ≡ place 4294967293 + (place 3 - place 4294967293) * 1 / 2)
      × (place (interpolate 4294967293 3 1 2) ≤ place 3))
    ⊎ ((place 3 < place 4294967293)
        × (place (interpolate 4294967293 3 1 2)
            ≡ place 4294967293 - (place 4294967293 - place 3) * 1 / 2)
        × (place 3 ≤ place (interpolate 4294967293 3 1 2)))
interpolate_between_example =
    interpolate_between 4294967293 3 1 2 (omega arith) (omega arith) (omega arith) (omega arith)
      (omega arith) (omega arith)
