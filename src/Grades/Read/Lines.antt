-- ===== src/Grades/Read/Lines.antt =====
-- The lines and the stack of files of hw2/src/read.c.
use c_language.Prelude.{
  ℕ, zero, suc, Bool, true, false, Option, none, some, ◌>>=◌, List, [], ◌∷◌, length, ◌==◌,
  if◌then◌else◌,
}
use c_language.Grades.Read.{
  Ifile, Reader, expected_newline, expected_eof, expected_file_name, istoken, flushtoken, complain,
  with_input, next_line, gobblewhitespace, advanceeol,
}

-- while((c = getc(ifile->fd)) != '\n'), with the end of the file fatal: what is behind the line.
unfoldable pub behind_line : List ℕ → Option (List ℕ)
behind_line [] = none
behind_line (c ∷ cs) = let rest = behind_line cs in if c == b'\n' then some cs else rest

-- One round of gobbleblanklines, and whether there is another one: a comment, or a line feed
-- with the white space behind it.
unfoldable pub blank_byte : ℕ → List ℕ → Reader → Option (Bool × Reader)
blank_byte c cs r =
    if c == b'#'
    then (behind_line cs >>= λ rest. some (true, next_line (with_input r rest)))
    else (if c == b'\n'
        then some (true, gobblewhitespace (next_line (with_input r cs)))
        else some (false, r))

unfoldable pub blank_round : List ℕ → Reader → Option (Bool × Reader)
blank_round [] r = some (false, r)
blank_round (c ∷ cs) r = blank_byte c cs r

-- Each round but the last one takes a byte, so that one round more than there are bytes is enough.
unfoldable pub blank_loop : ℕ → Reader → Option Reader
blank_loop zero r = none
blank_loop (suc fuel) r =
    blank_round r.ifile.input r >>= λ s. elim s.0 [ true ↦ blank_loop fuel s.1 | false ↦ some s.1 ]

unfoldable pub gobbleblanklines : Reader → Option Reader
gobbleblanklines r = if istoken r then some r else blank_loop (suc (length r.ifile.input)) r

-- getc(ifile->fd), and `none` for EOF.
unfoldable pub getc : Reader → List ℕ → Option (ℕ × Reader)
getc r [] = none
getc r (c ∷ cs) = some (c, with_input r cs)

-- The next byte of the buffer, or else of the file.
unfoldable pub nextchar_of : List ℕ → Reader → Option (ℕ × Reader)
nextchar_of [] r = getc (flushtoken r) r.ifile.input
nextchar_of (c ∷ token) r = some (c, record r { token = token })

unfoldable pub nextchar : Reader → Option (ℕ × Reader)
nextchar r = nextchar_of r.token r

-- while((c = nextchar()) != '\n') after the buffer is flushed.
unfoldable pub scan_ahead : Reader → Option Reader
scan_ahead r = behind_line r.ifile.input >>= λ rest. some (next_line (with_input r rest))

unfoldable pub end_of_line : ℕ → Reader → Option Reader
end_of_line c r =
    if c == b'\n'
    then gobbleblanklines (next_line r)
    else scan_ahead (flushtoken (complain expected_newline r))

unfoldable pub expectnewline : Reader → Option Reader
expectnewline r = nextchar (gobblewhitespace r) >>= λ t. end_of_line t.0 t.1

unfoldable pub previousfile_of : List Ifile → Reader → Option Reader
previousfile_of [] r = none
previousfile_of (f ∷ files) r = some (record r { ifile = f; prev = files })

unfoldable pub previousfile : Reader → Option Reader
previousfile r = previousfile_of r.prev r

-- The loop over previousfile ends in the outermost file.
unfoldable pub outermost : Ifile → List Ifile → Ifile
outermost f [] = f
outermost f (g ∷ files) = outermost g files

unfoldable pub skip_excess : Reader → Reader
skip_excess r = record (flushtoken (complain expected_eof r)) {
  ifile = outermost r.ifile r.prev;
  prev = [];
}

-- A byte that is there is read before prev is looked at.
unfoldable pub at_eof : List ℕ → Reader → Reader
at_eof [] r = if length r.prev == 0 then r else skip_excess r
at_eof (c ∷ cs) r = skip_excess (with_input r cs)

unfoldable pub expecteof : Reader → Reader
expecteof r = if istoken r then skip_excess r else at_eof r.ifile.input r

-- newstring(tokenptr, tokensize()): the string up to its terminator.
unfoldable pub newstring : List ℕ → List ℕ
newstring [] = []
newstring (c ∷ cs) = let rest = newstring cs in if c == 0 then [] else (c ∷ rest)

-- `fopen` is given the name and returns what the file holds.
unfoldable pub open_file : (List ℕ → Option (List ℕ)) → List ℕ → Reader → Option Reader
open_file fopen n r = do
  input ← fopen n
  gobbleblanklines
      (record r { ifile = record { name = n; line = 1; input = input }; prev = r.ifile ∷ r.prev })

unfoldable pub pushfile : (List ℕ → Option (List ℕ)) → Reader → Option Reader
pushfile fopen r = do
  s ← advanceeol r
  let t = if istoken s then s else complain expected_file_name s
  u ← expectnewline (flushtoken t)
  open_file fopen (newstring s.token) u
