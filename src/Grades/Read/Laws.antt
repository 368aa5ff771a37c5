-- ===== src/Grades/Read/Laws.antt =====
-- What hw2/src/read.c makes of well-formed lines.
use c_language.Prelude.{or_false}
use c_language.Prelude.{
  ℕ, ◌<◌, ◌≡◌, refl, true, false, ◌||◌, some, List, [], ◌∷◌, ◌++◌, length, length-append, All,
  arith, ltb, ◌==◌,
}
use c_language.Grades.Read.{
  Ifile, Reader, Complaint, istoken, flushtoken, with_input, iswhitespace, skip_whitespace,
  gobblewhitespace, fill, fresh_buffer, terminated, advancetoken, advanceeol,
}
use c_language.Grades.Read.Lines.{}
use c_language.Grades.Read.Bytes.{
  skip_whitespace-append, skip_nothing, token_loop-word, eol_loop-line, IsWordByte,
}

-- What a word is made of: it is not empty, has no white space in it, and fits the buffer.
pub record IsWord (word : List ℕ) : Type 0 where
  pub bytes : All IsWordByte word
  pub no_zero : All (λ c. (c == 0) ≡ false) word
  pub some_byte : 0 < length word
  pub room : length word < 64

abbrev StartsPlain : List ℕ → Type 0
StartsPlain [] = Unit
StartsPlain (c ∷ cs) = iswhitespace c ≡ false

-- A name may have white space in it, but not at its front.
pub record IsName (name : List ℕ) : Type 0 where
  pub no_line_feed : All (λ c. (c == b'\n') ≡ false) name
  pub no_zero : All (λ c. (c == 0) ≡ false) name
  pub front : StartsPlain name
  pub room : length name < 64

-- What follows a line is neither a comment nor an empty line.
abbrev pub IsPlain : List ℕ → Type 0
IsPlain [] = Unit
IsPlain (c ∷ cs) = ((c == b'#') ≡ false) × ((c == b'\n') ≡ false)

skip_word : (word rest : List ℕ) → IsWord word → skip_whitespace (word ++ rest) ≡ word ++ rest
skip_word [] rest w = let l = w.some_byte in absurd (omega arith)
skip_word (c ∷ word) rest w = skip_nothing c (word ++ rest) (or_false _ _ w.bytes.0).0

newline_plain : iswhitespace b'\n' ≡ false
unfolding iswhitespace
newline_plain = refl

skip_name :
    (name rest : List ℕ)
    → StartsPlain name
    → skip_whitespace (name ++ b'\n' ∷ rest) ≡ name ++ b'\n' ∷ rest
skip_name [] rest h = skip_nothing b'\n' rest newline_plain
skip_name (c ∷ name) rest h = skip_nothing c (name ++ b'\n' ∷ rest) h

terminated_word : (word : List ℕ) → 0 < length word → terminated word ≡ word ++ 0 ∷ []
unfolding terminated
terminated_word [] h = absurd (omega arith)
terminated_word (c ∷ word) h = refl

fits_buffer : (word : List ℕ) → length word < 64 → ltb (length (word ++ 0 ∷ [])) 65 ≡ true
fits_buffer word h = let l = length-append word (0 ∷ []) in ground arith

module _ (file : List ℕ) (prev : List Ifile) (errors : List Complaint) where
  -- A reader of the file, with its readahead buffer.
  abbrev pub with_token : List ℕ → ℕ → List ℕ → Reader
  with_token token line input = record {
    ifile = record { name = file; line = line; input = input };
    prev = prev;
    token = token;
    errors = errors;
  }

  abbrev pub at : ℕ → List ℕ → Reader
  at line input = with_token [] line input

  fresh_at :
      (line : ℕ) (input : List ℕ) → fresh_buffer (at line input) ≡ at line (skip_whitespace input)
  unfolding fresh_buffer flushtoken istoken gobblewhitespace with_input
  fresh_at line input = refl

  pub advance_word :
      (line : ℕ) (spaces word rest : List ℕ) (c : ℕ)
      → All (λ d. iswhitespace d ≡ true) spaces
      → IsWord word
      → (iswhitespace c || (c == b'\n')) ≡ true
      → advancetoken (at line (spaces ++ (word ++ c ∷ rest)))
        ≡ some (with_token (word ++ 0 ∷ []) line (c ∷ rest))
  unfolding advancetoken fill with_input
  advance_word line spaces word rest c h w e =
      rw
        (
          fresh_at line (spaces ++ (word ++ c ∷ rest)),
          skip_whitespace-append spaces (word ++ c ∷ rest) h,
          skip_word word (c ∷ rest) w,
          token_loop-word word rest c w.bytes e,
          terminated_word word w.some_byte,
          fits_buffer word w.room,
        )
        refl

  pub advance_name :
      (line : ℕ) (spaces name rest : List ℕ)
      → All (λ d. iswhitespace d ≡ true) spaces
      → IsName name
      → advanceeol (at line (spaces ++ (name ++ b'\n' ∷ rest)))
        ≡ some (with_token (name ++ 0 ∷ []) line (b'\n' ∷ rest))
  unfolding advanceeol fill with_input
  advance_name line spaces name rest h n =
      rw
        (
          fresh_at line (spaces ++ (name ++ b'\n' ∷ rest)),
          skip_whitespace-append spaces (name ++ b'\n' ∷ rest) h,
          skip_name name rest n.front,
          eol_loop-line name rest n.no_line_feed,
          fits_buffer name n.room,
        )
        refl
