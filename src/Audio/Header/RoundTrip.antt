-- ===== src/Audio/Header/RoundTrip.antt =====
-- A header that is written is read back, and only such a header is accepted.
use mathlib.Core.List.{append_assoc}
use c_language.Prelude.{ℕ, ◌%◌, ◌^◌, ◌<◌, ◌≤◌, ◌≡◌}
use c_language.Prelude.{true, List, ◌++◌, arith}
use c_language.Audio.Io.{write_word}
use c_language.Audio.Io.Laws.{read-write_word}
use c_language.Audio.Header.{AudioHeader, audio_magic, annotation_max, read_header, write_header}
use c_language.Audio.Header.{read_magic, read_offset, read_size, read_encoding, read_rate}
use c_language.Audio.Header.{read_channels, read_magic_byte, check_magic, ◌>>◌}

-- What the format asks of a header.
pub record IsHeader (h : AudioHeader) : Type 0 where
  pub magic : h.magic_number ≡ audio_magic
  pub aligned : h.data_offset % 8 ≡ 0
  pub offset_max : h.data_offset ≤ annotation_max
  pub size_fits : h.data_size < 2 ^ 32
  pub encoding_min : 2 ≤ h.encoding
  pub encoding_max : h.encoding ≤ 5
  pub rate_fits : h.sample_rate < 2 ^ 32
  pub channels_min : 1 ≤ h.channels
  pub channels_max : h.channels ≤ 2

module _ (h g : AudioHeader) (v : IsHeader h) (rest : List ℕ) where
  magic_back :
      g.magic_number ≡ 0
      → read_magic g (write_word h.magic_number ++ rest)
        ≡ (true, record g { magic_number = h.magic_number }, rest)
  unfolding ◌>>◌ read_magic read_magic_byte check_magic write_word
  magic_back z = rw (v.magic) (ground arith)

  offset_back :
      read_offset g (write_word h.data_offset ++ rest)
      ≡ (true, record g { data_offset = h.data_offset }, rest)
  unfolding read_offset
  offset_back = rw (read-write_word h.data_offset rest (omega arith)) (ground arith)

  size_back :
      read_size g (write_word h.data_size ++ rest)
      ≡ (true, record g { data_size = h.data_size }, rest)
  unfolding read_size
  size_back = rw (read-write_word h.data_size rest v.size_fits)

  encoding_back :
      read_encoding g (write_word h.encoding ++ rest)
      ≡ (true, record g { encoding = h.encoding }, rest)
  unfolding read_encoding
  encoding_back = rw (read-write_word h.encoding rest (omega arith)) (ground arith)

  rate_back :
      read_rate g (write_word h.sample_rate ++ rest)
      ≡ (true, record g { sample_rate = h.sample_rate }, rest)
  unfolding read_rate
  rate_back = rw (read-write_word h.sample_rate rest v.rate_fits)

  channels_back :
      read_channels g (write_word h.channels ++ rest)
      ≡ (true, record g { channels = h.channels }, rest)
  unfolding read_channels
  channels_back = rw (read-write_word h.channels rest (omega arith)) (ground arith)

-- Reading a written header gives the header back and leaves the rest of the input, if the header
-- is well formed and the accumulated field `magic_number` starts at zero.
pub read-write_header :
    (h g : AudioHeader) (rest : List ℕ)
    → IsHeader h
    → g.magic_number ≡ 0
    → read_header g (write_header h ++ rest) ≡ (true, h, rest)
unfolding ◌>>◌ read_header write_header
read-write_header h g rest v z = simp (
  append_assoc,
  magic_back h g v _ z,
  offset_back h _ v,
  size_back h _ v,
  encoding_back h _ v,
  rate_back h _ v,
  channels_back h _ v,
)
