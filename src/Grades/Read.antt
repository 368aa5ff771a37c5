-- ===== src/Grades/Read.antt =====
-- The tokens of hw2/src/read.c. The reader is the stack of the open files, each with its name, its
-- line and what is still to be read from it, and the readahead buffer: the bytes from tokenptr to
-- tokenend, among them the zero that ends a token. `none` is a call of `fatal`, or a write behind
-- the 64 bytes of the buffer. A byte is not 255, which `char` does not tell from EOF.
pub mod Lines
pub mod Names
pub mod Bytes
pub mod Laws
pub mod People
pub mod Assignments
pub mod Scores
pub mod Course
mod Tests
use c_language.Prelude.{
  ℕ, zero, suc, ◌+◌, Bool, true, false, not, ◌&&◌, ◌||◌, Option, none, some, ◌>>=◌, List, [], ◌∷◌,
  ◌++◌, map, length, ltb, ◌==◌, if◌then◌else◌, same_text,
}

-- ifile->name, ifile->line and what getc(ifile->fd) still returns.
pub record Ifile : Type 0 where
  pub name : List ℕ
  pub line : ℕ
  pub input : List ℕ

-- The calls of `error`, which write a message and count it.
pub data Complaint : Type 0 where
  flushing_token expected_token expected_newline expected_eof : Complaint
  expected_surname expected_name expected_id expected_type expected_file_name : Complaint
  expected_weight expected_maximum expected_mean expected_stddev expected_scale : Complaint
  expected_normalization expected_score expected_value expected_normalized : Complaint
  quantile_range scale_range : Complaint

pub record Reader : Type 0 where
  pub ifile : Ifile
  pub prev : List Ifile
  pub token : List ℕ
  pub errors : List Complaint

unfoldable pub istoken : Reader → Bool
istoken r = not (length r.token == 0)

unfoldable pub flushtoken : Reader → Reader
flushtoken r = record r { token = [] }

-- error(...), with the messages in the order in which they are written.
unfoldable pub complain : Complaint → Reader → Reader
complain e r = record r { errors = r.errors ++ e ∷ [] }

unfoldable pub with_input : Reader → List ℕ → Reader
with_input r input = record r { ifile = record (r.ifile) { input = input } }

-- ifile->line++
unfoldable pub next_line : Reader → Reader
next_line r = record r { ifile = record (r.ifile) { line = suc (r.ifile.line) } }

unfoldable pub iswhitespace : ℕ → Bool
iswhitespace c = (c == b',') || ((c == b':') || ((c == b' ') || ((c == b'\t') || (c == 12))))

-- while(iswhitespace(c = getc(ifile->fd))); ungetc(c, ifile->fd)
unfoldable pub skip_whitespace : List ℕ → List ℕ
skip_whitespace [] = []
skip_whitespace (c ∷ cs) =
    let rest = skip_whitespace cs in if iswhitespace c then rest else (c ∷ cs)

unfoldable pub gobblewhitespace : Reader → Reader
gobblewhitespace r = if istoken r then r else with_input r (skip_whitespace r.ifile.input)

-- The loop of advancetoken: the bytes up to white space or a line feed, and the rest.
unfoldable pub token_loop : List ℕ → List ℕ × List ℕ
token_loop [] = ([], [])
token_loop (c ∷ cs) =
    let rest = token_loop cs in
    if iswhitespace c || (c == b'\n') then ([], c ∷ cs) else (c ∷ rest.0, rest.1)

-- The buffer that is filled, with its terminator, where it has room.
unfoldable pub fill : Reader → List ℕ → List ℕ → Option Reader
fill r token input =
    if ltb (length token) 65 then some (record (with_input r input) { token = token }) else none

-- Unread input is complained about and flushed before anything is read.
unfoldable pub fresh_buffer : Reader → Reader
fresh_buffer r = gobblewhitespace (flushtoken (if istoken r then complain flushing_token r else r))

-- if(tokenend != tokenptr) *tokenend++ = '\0'
unfoldable pub terminated : List ℕ → List ℕ
terminated [] = []
terminated (c ∷ cs) = c ∷ (cs ++ 0 ∷ [])

unfoldable pub advancetoken : Reader → Option Reader
advancetoken r =
    let s = fresh_buffer r in let t = token_loop s.ifile.input in fill s (terminated t.0) t.1

-- The loop of advanceeol, and `none` at the end of the file.
unfoldable pub eol_loop : List ℕ → Option (List ℕ × List ℕ)
eol_loop [] = none
eol_loop (c ∷ cs) =
    let rest = eol_loop cs in
    if c == b'\n' then some ([], c ∷ cs) else (rest >>= λ t. some (c ∷ t.0, t.1))

unfoldable pub advanceeol : Reader → Option Reader
advanceeol r = do let s = fresh_buffer r; t ← eol_loop s.ifile.input; fill s (t.0 ++ 0 ∷ []) t.1

-- if(!istoken()) advancetoken();
unfoldable pub need_token : Reader → Option Reader
need_token r = if istoken r then some r else advancetoken r

-- istoken() && !strcmp(tokenptr, key)
unfoldable pub is_key : List ℕ → Reader → Bool
is_key key r = istoken r && same_text r.token (key ++ 0 ∷ [])

unfoldable pub checktoken : List ℕ → Reader → Option (Bool × Reader)
checktoken key r = do
  s ← need_token r
  if is_key key s then some (true, flushtoken s) else some (false, s)

unfoldable pub expecttoken : List ℕ → Reader → Option Reader
expecttoken key r = do
  s ← need_token r
  if is_key key s then some (flushtoken s) else some (complain expected_token s)
