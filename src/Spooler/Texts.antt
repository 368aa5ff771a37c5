-- ===== src/Spooler/Texts.antt =====
-- The strings of hw4/src/main.c: `strtok`, `strchr` and `fgets` of C.
pub mod Laws
use c_language.Prelude.{ℕ, Bool, ◌||◌, ◌-◌, Option, none, some}
use c_language.Prelude.{List, [], ◌∷◌, ◌++◌, length, ltb, ◌==◌, if◌then◌else◌}
use c_language.Spooler.State.{Text}

-- A buffer of `malloc(100)` holds the text and its terminator.
abbrev pub fits : Text → Bool
fits a = ltb (length a) 100

abbrev pub flush : Text → List Text → List Text
flush [] rest = rest
flush (c ∷ a) rest = (c ∷ a) ∷ rest

-- The loop over `strtok`: the separators delimit tokens, and empty tokens are passed over.
unfoldable pub tokens_loop : ℕ → Text → Text → List Text
tokens_loop separator token [] = flush token []
tokens_loop separator token (c ∷ cs) =
    let rest = tokens_loop separator (if c == separator then [] else (token ++ c ∷ [])) cs in
    if c == separator then flush token rest else rest

abbrev pub tokens : ℕ → Text → List Text
tokens separator text = tokens_loop separator [] text

-- fgets(line,100,fp) with the line feed removed: `room` is what the buffer still takes.
unfoldable pub lines_loop : ℕ → Text → Text → List Text
lines_loop room line [] = flush line []
lines_loop room line (c ∷ cs) =
    let ends = c == b'\n' in
    let full = ltb room 2 in
    let line' = if ends then line else (line ++ c ∷ []) in
    let again = ends || full in
    let rest = lines_loop (if again then 99 else (room - 1)) (if again then [] else line') cs in
    if again then line' ∷ rest else rest

abbrev pub file_lines : Text → List Text
file_lines content = lines_loop 99 [] content

-- jobarray[q-1], and `none` for the read of jobarray[-1].
unfoldable pub last_token : List Text → Option Text
last_token [] = none
last_token (t ∷ []) = some t
last_token (t ∷ (u ∷ ts)) = last_token (u ∷ ts)
