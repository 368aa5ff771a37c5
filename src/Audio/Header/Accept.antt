-- ===== src/Audio/Header/Accept.antt =====
-- What `read_header` accepts: the inverse of writing, with the checks of each field.
use mathlib.Core.List.{append_assoc}
use c_language.Prelude.{ℕ, ◌+◌, ◌*◌, ◌%◌, ◌^◌, ◌<◌, ◌≤◌, ◌≡◌, ◌⊎◌, inl, inr, refl, ap, ◌∙◌}
use c_language.Prelude.{Bool, true, false, List, [], ◌∷◌, ◌++◌, arith, u32, if◌then◌else◌}
use c_language.Audio.Io.{read_word, write_word}
use c_language.Audio.Io.Laws.{IsBytes, read_word-cases, WholeWord}
use c_language.Audio.Header.{
  AudioHeader, Reader, audio_magic, annotation_max, read_header, write_header,
}
use c_language.Audio.Header.{read_magic, read_offset, read_size, read_encoding, read_rate}
use c_language.Audio.Header.{read_channels, read_magic_byte, check_magic, continue, ◌>>◌}

-- The value of the next word, and the input behind it.
abbrev word : List ℕ → ℕ
word s = (read_word 4 0 s).0

abbrev behind : List ℕ → List ℕ
behind s = (read_word 4 0 s).1

>>-true :
    (p q : Reader) (g h : AudioHeader) (s rest : List ℕ)
    → (p >> q) g s ≡ (true, h, rest)
    → (g' : AudioHeader) × (s' : List ℕ) × (p g s ≡ (true, g', s')) × (q g' s' ≡ (true, h, rest))
unfolding ◌>>◌
>>-true p q g h s rest e = split (p g s) refl e
  where
    split :
        (r : Bool × AudioHeader × List ℕ)
        → p g s ≡ r
        → continue q r ≡ (true, h, rest)
        → (g' : AudioHeader) × (s' : List ℕ) × (p g s ≡ (true, g', s'))
          × (q g' s' ≡ (true, h, rest))
    split (true, g', s') e f = (g', s', e, f)
    split (false, g', s') e f = cc

whole_of_rest : (s : List ℕ) → IsBytes s → ¬ (behind s ≡ []) → WholeWord s
whole_of_rest s b ne = elim (read_word-cases s b) [ inl w ↦ w | inr e ↦ absurd (ne e.none_left) ]

nonempty_of_whole : {s : List ℕ} → WholeWord s → ¬ (s ≡ [])
unfolding write_word
nonempty_of_whole w e = cc (w.written)

behind-IsBytes : (s : List ℕ) → IsBytes s → IsBytes (behind s)
behind-IsBytes s b = elim (read_word-cases s b) [ inl w ↦ w.bytes_left | inr e ↦ rw e.none_left tt ]

-- Where a later word is whole, so is the one before it.
whole_before : (s : List ℕ) → IsBytes s → WholeWord (behind s) → WholeWord s
whole_before s b w = whole_of_rest s b (nonempty_of_whole w)

five_words :
    (s : List ℕ)
    → IsBytes s
    → WholeWord (behind (behind (behind (behind s))))
    → s
      ≡ write_word (word s)
        ++ (write_word (word (behind s))
            ++ (write_word (word (behind (behind s)))
                ++ (write_word (word (behind (behind (behind s))))
                    ++ (write_word (word (behind (behind (behind (behind s)))))
                        ++ behind (behind (behind (behind (behind s))))))))
five_words s b w4 =
    let b1 = behind-IsBytes s b in
    let b2 = behind-IsBytes (behind s) b1 in
    let b3 = behind-IsBytes (behind (behind s)) b2 in
    let w3 = whole_before (behind (behind (behind s))) b3 w4 in
    let w2 = whole_before (behind (behind s)) b2 w3 in
    let w1 = whole_before (behind s) b1 w2 in
    let w0 = whole_before s b w1 in
    w0.written
    ∙ ap (λ t. write_word (word s) ++ t)
        (w1.written
          ∙ ap (λ t. write_word (word (behind s)) ++ t)
              (w2.written
                ∙ ap (λ t. write_word (word (behind (behind s))) ++ t)
                    (w3.written
                      ∙ ap (λ t. write_word (word (behind (behind (behind s)))) ++ t) w4.written)))

assemble :
    (h : AudioHeader) (rest : List ℕ) {s t : List ℕ}
    → s ≡ write_word h.magic_number ++ t
    → t
      ≡ write_word h.data_offset
        ++ (write_word h.data_size
            ++ (write_word h.encoding
                ++ (write_word h.sample_rate ++ (write_word h.channels ++ rest))))
    → s ≡ write_header h ++ rest
unfolding write_header
assemble h rest p q = p ∙ rw q (simp append_assoc)

module _ (g h : AudioHeader) (s rest : List ℕ) where
  magic_byte_accepts :
      (expected : ℕ) (last : Bool)
      → expected < 128
      → IsBytes s
      → read_magic_byte expected last g s ≡ (true, h, rest)
      → (s ≡ expected ∷ rest)
        × IsBytes rest
        × (h ≡ record g {
          magic_number =
              if last
              then u32 (g.magic_number + expected)
              else u32 (u32 (g.magic_number + expected) * 256);
        })
  unfolding read_magic_byte
  magic_byte_accepts expected last small b e = magic_cases s b e
    where
      magic_cases :
          (s : List ℕ)
          → IsBytes s
          → read_magic_byte expected last g s ≡ (true, h, rest)
          → (s ≡ expected ∷ rest)
            × IsBytes rest
            × (h ≡ record g {
              magic_number =
                  if last
                  then u32 (g.magic_number + expected)
                  else u32 (u32 (g.magic_number + expected) * 256);
            })
      magic_cases [] b e = ground arith
      magic_cases (c ∷ s) b e = ground arith

module _ (g h : AudioHeader) (s rest : List ℕ) where
  magic_accepts :
      IsBytes s
      → g.magic_number ≡ 0
      → read_magic g s ≡ (true, h, rest)
      → (h ≡ record g { magic_number = audio_magic })
        × (s ≡ write_word audio_magic ++ rest)
        × IsBytes rest
  unfolding read_magic check_magic write_word
  magic_accepts b z e =
      let tail4 = read_magic_byte 100 true >> check_magic in
      let tail3 = read_magic_byte 110 false >> tail4 in
      let tail2 = read_magic_byte 115 false >> tail3 in
      let (h1, s1, p1, e1) = >>-true (read_magic_byte 46 false) tail2 g h s rest e in
      let (h2, s2, p2, e2) = >>-true (read_magic_byte 115 false) tail3 h1 h s1 rest e1 in
      let (h3, s3, p3, e3) = >>-true (read_magic_byte 110 false) tail4 h2 h s2 rest e2 in
      let (h4, s4, p4, last) = >>-true (read_magic_byte 100 true) check_magic h3 h s3 rest e3 in
      let (i1, b1, f1) = magic_byte_accepts g h1 s s1 46 false (omega arith) b p1 in
      let (i2, b2, f2) = magic_byte_accepts h1 h2 s1 s2 115 false (omega arith) b1 p2 in
      let (i3, b3, f3) = magic_byte_accepts h2 h3 s2 s3 110 false (omega arith) b2 p3 in
      let (i4, b4, f4) = magic_byte_accepts h3 h4 s3 s4 100 true (omega arith) b3 p4 in
      let m1 : h1.magic_number ≡ 46 * 256 = rw (f1, z) in
      let m2 : h2.magic_number ≡ (46 * 256 + 115) * 256 = rw (f2, m1) in
      let m3 : h3.magic_number ≡ ((46 * 256 + 115) * 256 + 110) * 256 = rw (f3, m2) in
      ground (arith, m3)

  offset_accepts :
      read_offset g s ≡ (true, h, rest)
      → (h ≡ record g { data_offset = word s })
        × (rest ≡ behind s)
        × (word s % 8 ≡ 0)
        × ((word s ≤ annotation_max) ⊎ (2 ^ 31 ≤ word s))
  unfolding read_offset
  offset_accepts e = ground arith

  size_accepts :
      read_size g s ≡ (true, h, rest) → (h ≡ record g { data_size = word s }) × (rest ≡ behind s)
  unfolding read_size
  size_accepts e = ground arith

  encoding_accepts :
      read_encoding g s ≡ (true, h, rest)
      → (h ≡ record g { encoding = word s }) × (rest ≡ behind s) × (2 ≤ word s) × (word s ≤ 5)
  unfolding read_encoding
  encoding_accepts e = ground arith

  rate_accepts :
      read_rate g s ≡ (true, h, rest) → (h ≡ record g { sample_rate = word s }) × (rest ≡ behind s)
  unfolding read_rate
  rate_accepts e = ground arith

  channels_accepts :
      IsBytes s
      → read_channels g s ≡ (true, h, rest)
      → (h ≡ record g { channels = word s })
        × (rest ≡ behind s)
        × (1 ≤ word s)
        × (word s ≤ 2)
        × WholeWord s
  unfolding read_channels
  channels_accepts b e = elim (read_word-cases s b) [
    | inl w ↦ ground arith
    | inr n ↦ ground (arith, n.low_byte)
  ]

-- Whatever `read_header` accepts from a stream of bytes is a header that `write_header` would have
-- written, read to its end: its magic number, encoding and channels are the format's, and its data
-- offset is divisible by 8 and at most `ANNOTATION_MAX`, or at least 2 ^ 31 (the code compares the
-- offset as an `int`). The accumulated field `magic_number` starts at zero.
pub read_header_accepts :
    (g h : AudioHeader) (s rest : List ℕ)
    → IsBytes s
    → g.magic_number ≡ 0
    → read_header g s ≡ (true, h, rest)
    → (s ≡ write_header h ++ rest)
      × (h.magic_number ≡ audio_magic)
      × (h.data_offset % 8 ≡ 0)
      × ((h.data_offset ≤ annotation_max) ⊎ (2 ^ 31 ≤ h.data_offset))
      × (2 ≤ h.encoding)
      × (h.encoding ≤ 5)
      × (1 ≤ h.channels)
      × (h.channels ≤ 2)
unfolding read_header write_header
read_header_accepts g h s rest b z e =
    let tail5 = read_rate >> read_channels in
    let tail4 = read_encoding >> tail5 in
    let tail3 = read_size >> tail4 in
    let tail2 = read_offset >> tail3 in
    let (h1, s1, p1, e1) = >>-true read_magic tail2 g h s rest e in
    let (h2, s2, p2, e2) = >>-true read_offset tail3 h1 h s1 rest e1 in
    let (h3, s3, p3, e3) = >>-true read_size tail4 h2 h s2 rest e2 in
    let (h4, s4, p4, e4) = >>-true read_encoding tail5 h3 h s3 rest e3 in
    let (h5, s5, p5, p6) = >>-true read_rate read_channels h4 h s4 rest e4 in
    let (f1, i1, b1) = magic_accepts g h1 s s1 b z p1 in
    let (f2, i2, aligned, small) = offset_accepts h1 h2 s1 s2 p2 in
    let (f3, i3) = size_accepts h2 h3 s2 s3 p3 in
    let (f4, i4, lo4, hi4) = encoding_accepts h3 h4 s3 s4 p4 in
    let (f5, i5) = rate_accepts h4 h5 s4 s5 p5 in
    let j3 : s3 ≡ behind (behind s1) = i3 ∙ ap behind i2 in
    let j4 : s4 ≡ behind (behind (behind s1)) = i4 ∙ ap behind j3 in
    let j5 : s5 ≡ behind (behind (behind (behind s1))) = i5 ∙ ap behind j4 in
    let bytes5 : IsBytes s5 =
      rw j5 (behind-IsBytes _ (behind-IsBytes _ (behind-IsBytes _ (behind-IsBytes s1 b1)))) in
    let (f6, i6, lo6, hi6, whole) = channels_accepts h5 h s5 rest bytes5 p6 in
    let words = five_words s1 b1 (rw j5 at whole) in
    let fields : h ≡ record {
      magic_number = audio_magic;
      data_offset = word s1;
      data_size = word (behind s1);
      encoding = word (behind (behind s1));
      sample_rate = word (behind (behind (behind s1)));
      channels = word (behind (behind (behind (behind s1))));
    } =
      cc in
    let all : s ≡ write_header h ++ rest =
      assemble h rest {t = s1} (rw fields i1) (rw fields (words ∙ rw (i6, j5) refl)) in
    (
      all,
      rw fields refl,
      rw fields aligned,
      rw fields small,
      rw (fields, ← j3) lo4,
      rw (fields, ← j3) hi4,
      rw (fields, ← j5) lo6,
      rw (fields, ← j5) hi6,
    )
