-- ===== src/Grades/Read/Names.antt =====
-- The names and identifiers of hw2/src/read.c, and the people of a course.
use c_language.Prelude.{ℕ, true, false, Option, none, some, ◌>>=◌, List, [], ◌∷◌, if◌then◌else◌}
use c_language.Grades.Records.{Person}
use c_language.Grades.Read.{
  Reader, Complaint, expected_surname, expected_name, expected_id, expected_type, istoken,
  flushtoken, complain, need_token, advanceeol, checktoken,
}
use c_language.Grades.Read.Lines.{expectnewline, newstring}

-- A token as a string, and the complaint when there is none.
unfoldable pub take_string : Complaint → Reader → List ℕ × Reader
take_string e r =
    if istoken r then (newstring r.token, flushtoken r) else ([], flushtoken (complain e r))

unfoldable pub need_string : Complaint → Reader → Option (List ℕ × Reader)
need_string e r = do s ← need_token r; some (take_string e s)

abbrev pub readsurname : Reader → Option (List ℕ × Reader)
readsurname r = need_string expected_surname r

abbrev pub readid : Reader → Option (List ℕ × Reader)
readid r = need_string expected_id r

abbrev pub readatype : Reader → Option (List ℕ × Reader)
readatype r = need_string expected_type r

-- The rest of the line is the name.
unfoldable pub readname : Reader → Option (List ℕ × Reader)
readname r = do
  s ← advanceeol r
  let t = take_string expected_name s
  u ← expectnewline t.1
  some (t.0, u)

unfoldable pub read_person : Reader → Option (Option Person × Reader)
read_person r = do
  s ← readsurname r
  n ← readname s.1
  some (some (record { surname = s.0; name = n.0 }), n.1)

abbrev pub professor : List ℕ
professor = b'P' ∷ b'R' ∷ b'O' ∷ b'F' ∷ b'E' ∷ b'S' ∷ b'S' ∷ b'O' ∷ b'R' ∷ []

abbrev pub assistant : List ℕ
assistant = b'A' ∷ b'S' ∷ b'S' ∷ b'I' ∷ b'S' ∷ b'T' ∷ b'A' ∷ b'N' ∷ b'T' ∷ []

-- Without the keyword there is nobody.
unfoldable pub readprofessor : Reader → Option (Option Person × Reader)
readprofessor r = do
  t ← checktoken professor r
  elim t.0 [ true ↦ read_person t.1 | false ↦ some (none, t.1) ]

unfoldable pub readassistant : Reader → Option (Option Person × Reader)
readassistant r = do
  t ← checktoken assistant r
  elim t.0 [ true ↦ read_person t.1 | false ↦ some (none, t.1) ]
