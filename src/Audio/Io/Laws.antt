-- ===== src/Audio/Io/Laws.antt =====
-- What the word loops of the header read and write.
use c_language.Prelude.{ℕ, ◌+◌, ◌*◌, ◌/◌, ◌%◌, ◌-◌, ◌^◌, ◌<◌, ◌≡◌, refl, ap, ◌∙◌, ◌⊎◌, inl, inr}
use c_language.Prelude.{List, [], ◌∷◌, ◌++◌, arith, length}
use c_language.Audio.Io.{read_word, word_byte, write_word}

abbrev pub IsBytes : List ℕ → Type 0
IsBytes [] = Unit {0}
IsBytes (b ∷ s) = (b < 256) × IsBytes s

-- The bytes are written with the most significant first.
write_word_bytes :
    (w : ℕ)
    → w < 2 ^ 32
    → write_word w ≡ w / 2 ^ 24 ∷ w / 2 ^ 16 % 256 ∷ w / 2 ^ 8 % 256 ∷ w % 256 ∷ []
unfolding write_word word_byte
write_word_bytes w h = ground arith

pub read-write_word :
    (w : ℕ) (rest : List ℕ) → w < 2 ^ 32 → read_word 4 0 (write_word w ++ rest) ≡ (w, rest)
unfolding read_word
read-write_word w rest h = rw (write_word_bytes w h) (ap (λ v. (v, rest)) (omega arith))

pub length-write_word : (w : ℕ) → length (write_word w) ≡ 4
unfolding write_word
length-write_word w = refl

pub IsBytes-append : (s t : List ℕ) → IsBytes s → IsBytes t → IsBytes (s ++ t)
IsBytes-append [] t p q = q
IsBytes-append (b ∷ s) t p q = (p.0, IsBytes-append s t p.1 q)

pub IsBytes-split : (s t : List ℕ) → IsBytes (s ++ t) → IsBytes s × IsBytes t
IsBytes-split [] t p = (tt, p)
IsBytes-split (b ∷ s) t p = let (q, r) = IsBytes-split s t p.1 in ((p.0, q), r)

pub word_byte-lt : (w j : ℕ) → word_byte w j < 256
unfolding word_byte
word_byte-lt w j = omega arith

pub write_word-IsBytes : (w : ℕ) → IsBytes (write_word w)
unfolding write_word
write_word-IsBytes w =
    (word_byte-lt w 0, (word_byte-lt w 1, (word_byte-lt w 2, (word_byte-lt w 3, tt))))

four_bytes :
    (a b c d : ℕ) (s : List ℕ)
    → a < 256
    → b < 256
    → c < 256
    → d < 256
    → read_word 4 0 (a ∷ b ∷ c ∷ d ∷ s) ≡ (((a * 256 + b) * 256 + c) * 256 + d, s)
unfolding read_word
four_bytes a b c d s p q r t = ap (λ v. (v, s)) (omega arith)

written_back :
    (a b c d : ℕ)
    → a < 256
    → b < 256
    → c < 256
    → d < 256
    → write_word (((a * 256 + b) * 256 + c) * 256 + d) ≡ a ∷ b ∷ c ∷ d ∷ []
written_back a b c d p q r t =
    let w = ((a * 256 + b) * 256 + c) * 256 + d in
    let e : w < 2 ^ 32 = omega arith in
    let e1 : w / 2 ^ 24 ≡ a = omega arith in
    let e2 : w / 2 ^ 16 % 256 ≡ b = omega arith in
    let e3 : w / 2 ^ 8 % 256 ≡ c = omega arith in
    let e4 : w % 256 ≡ d = omega arith in write_word_bytes w e ∙ cc (e1, e2, e3, e4)

-- What a word read takes from the input: four bytes, or all of it, the last of them the -1 that
-- stands for the end.
pub record WholeWord (s : List ℕ) : Type 0 where
  pub fits : (read_word 4 0 s).0 < 2 ^ 32
  pub written : s ≡ write_word (read_word 4 0 s).0 ++ (read_word 4 0 s).1
  pub bytes_left : IsBytes (read_word 4 0 s).1

pub record EndOfInput (s : List ℕ) : Type 0 where
  pub none_left : (read_word 4 0 s).1 ≡ []
  pub low_byte : (read_word 4 0 s).0 % 256 ≡ 255

four_bytes_whole :
    (a b c d : ℕ) (s : List ℕ)
    → a < 256
    → b < 256
    → c < 256
    → d < 256
    → IsBytes s
    → WholeWord (a ∷ b ∷ c ∷ d ∷ s)
four_bytes_whole a b c d s p q r t rest =
    let e = four_bytes a b c d s p q r t in
    record {
      fits = rw e (omega arith);
      written = rw (e, written_back a b c d p q r t);
      bytes_left = rw e rest;
    }

pub read_word-cases : (s : List ℕ) → IsBytes s → WholeWord s ⊎ EndOfInput s
unfolding read_word
read_word-cases (a ∷ b ∷ c ∷ d ∷ s) (p, (q, (r, (t, rest)))) =
    inl (four_bytes_whole a b c d s p q r t rest)
read_word-cases [] p = inr (record { none_left = refl; low_byte = refl })
read_word-cases (a ∷ []) p = inr (record { none_left = refl; low_byte = omega arith })
read_word-cases (a ∷ b ∷ []) p = inr (record { none_left = refl; low_byte = omega arith })
read_word-cases (a ∷ b ∷ c ∷ []) p = inr (record { none_left = refl; low_byte = omega arith })

pub read_word-nil : read_word 4 0 [] ≡ (2 ^ 32 - 1 - 2 ^ 24 - 2 ^ 16 - 2 ^ 8, [])
unfolding read_word
read_word-nil = refl
