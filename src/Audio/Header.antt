-- ===== src/Audio/Header.antt =====
-- `AUDIO_HEADER` of hw1/include/audio.h, and `read_header` and `write_header` of
-- hw1/src/hw1.c. A reader takes the header that it fills in and the unread input, and returns
-- the C function's result with both as it leaves them.
pub mod RoundTrip
pub mod Accept
use c_language.Prelude.{ℕ, ◌+◌, ◌-◌, ◌*◌, ◌%◌, ◌^◌, Bool, true, false, not, ◌&&◌, ◌||◌}
use c_language.Prelude.{List, [], ◌∷◌, ◌++◌, u8, u32, sign_extend, is_negative, ltb, ◌==◌}
use c_language.Prelude.{if◌then◌else◌}
use c_language.Audio.Io.{getchar, read_word, write_word}

-- The fields are `unsigned int`.
pub record AudioHeader : Type 0 where
  pub magic_number : ℕ
  pub data_offset : ℕ
  pub data_size : ℕ
  pub encoding : ℕ
  pub sample_rate : ℕ
  pub channels : ℕ

abbrev pub annotation_max : ℕ
annotation_max = 1024

abbrev pub audio_magic : ℕ
audio_magic = 779316836

abbrev pub Reader : Type 0
Reader = AudioHeader → List ℕ → Bool × AudioHeader × List ℕ

-- An early `return 0` skips what follows.
unfoldable pub continue : Reader → Bool × AudioHeader × List ℕ → Bool × AudioHeader × List ℕ
continue q (true, h, s) = q h s
continue q (false, h, s) = (false, h, s)

infixl 5 ◌>>◌
unfoldable pub ◌>>◌ : Reader → Reader → Reader
unfolding continue
◌>>◌ p q h s = continue q (p h s)

-- One round of the loop over the magic number: the byte expected at `j`, and is it the last?
-- The accumulator is the field itself, which is not reset first.
unfoldable pub read_magic_byte : ℕ → Bool → Reader
unfolding getchar
read_magic_byte expected last h s =
    let (b, s') = getchar s in
    let c = sign_extend (u8 b) in
    let m = u32 (h.magic_number + c) in
    if c == expected
    then (true, record h { magic_number = if last then m else u32 (m * 256) }, s')
    else (false, h, s')

unfoldable pub check_magic : Reader
check_magic h s = (h.magic_number == audio_magic, h, s)

unfoldable pub read_magic : Reader
read_magic = do
  read_magic_byte 46 false
  read_magic_byte 115 false
  read_magic_byte 110 false
  read_magic_byte 100 true
  check_magic

-- `temp` is an `int`. Its pattern is divisible by 8 exactly when it is.
unfoldable pub read_offset : Reader
read_offset h s =
    let (temp, s') = read_word 4 0 s in
    if not (temp % 8 == 0) || (not (is_negative temp) && ltb annotation_max temp)
    then (false, h, s')
    else (true, record h { data_offset = temp }, s')

unfoldable pub read_size : Reader
read_size h s = let (temp, s') = read_word 4 0 s in (true, record h { data_size = temp }, s')

unfoldable pub read_encoding : Reader
read_encoding h s =
    let (temp, s') = read_word 4 0 s in
    if temp == 2 || (temp == 3 || (temp == 4 || temp == 5))
    then (true, record h { encoding = temp }, s')
    else (false, h, s')

unfoldable pub read_rate : Reader
read_rate h s = let (temp, s') = read_word 4 0 s in (true, record h { sample_rate = temp }, s')

unfoldable pub read_channels : Reader
read_channels h s =
    let (temp, s') = read_word 4 0 s in
    if temp == 1 || temp == 2 then (true, record h { channels = temp }, s') else (false, h, s')

unfoldable pub read_header : Reader
read_header = do read_magic; read_offset; read_size; read_encoding; read_rate; read_channels

unfoldable pub write_header : AudioHeader → List ℕ
write_header h =
    write_word h.magic_number
    ++ (write_word h.data_offset
        ++ (write_word h.data_size
            ++ (write_word h.encoding ++ (write_word h.sample_rate ++ write_word h.channels))))
