-- ===== src/Grades/Read/Bytes.antt =====
-- The loops of hw2/src/read.c on the bytes of words and names.
use c_language.Prelude.{ℕ, ◌≡◌, refl, true, false, ◌||◌, some, List, [], ◌∷◌, ◌++◌, All, ◌==◌}
use c_language.Grades.Read.{iswhitespace, skip_whitespace, token_loop, eol_loop}
use c_language.Grades.Read.Lines.{newstring}

-- White space in front of what follows it is passed over.
pub skip_whitespace-append :
    (spaces rest : List ℕ)
    → All (λ c. iswhitespace c ≡ true) spaces
    → skip_whitespace (spaces ++ rest) ≡ skip_whitespace rest
unfolding skip_whitespace
skip_whitespace-append [] rest h = refl
skip_whitespace-append (c ∷ spaces) rest h = rw (h.0, skip_whitespace-append spaces rest h.1) refl

pub skip_nothing :
    (c : ℕ) (rest : List ℕ) → iswhitespace c ≡ false → skip_whitespace (c ∷ rest) ≡ c ∷ rest
unfolding skip_whitespace
skip_nothing c rest h = rw h refl

-- The bytes of a word.
abbrev pub IsWordByte : ℕ → Type 0
IsWordByte c = (iswhitespace c || (c == b'\n')) ≡ false

pub token_loop-word :
    (word rest : List ℕ) (c : ℕ)
    → All IsWordByte word
    → (iswhitespace c || (c == b'\n')) ≡ true
    → token_loop (word ++ c ∷ rest) ≡ (word, c ∷ rest)
unfolding token_loop
token_loop-word [] rest c h e = rw e refl
token_loop-word (d ∷ word) rest c h e = rw (h.0, token_loop-word word rest c h.1 e) refl

pub eol_loop-line :
    (line rest : List ℕ)
    → All (λ c. (c == b'\n') ≡ false) line
    → eol_loop (line ++ b'\n' ∷ rest) ≡ some (line, b'\n' ∷ rest)
unfolding eol_loop
eol_loop-line [] rest h = refl
eol_loop-line (c ∷ line) rest h = rw (h.0, eol_loop-line line rest h.1) refl

pub newstring_of :
    (word : List ℕ) → All (λ c. (c == 0) ≡ false) word → newstring (word ++ 0 ∷ []) ≡ word
unfolding newstring
newstring_of [] h = refl
newstring_of (c ∷ word) h = rw (h.0, newstring_of word h.1) refl
