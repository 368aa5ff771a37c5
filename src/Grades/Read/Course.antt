-- ===== src/Grades/Read/Course.antt =====
-- The sections and the course of hw2/src/read.c. `fopen` gives what a file holds, and `fresh` and
-- `uninit` what newscore and newassignment leave in their fields. Files that name one another
-- without an end take more than any fuel, as they take more than any stack.
use c_language.Prelude.{
  ℕ, zero, suc, Bool, true, false, Option, none, some, ◌>>=◌, List, [], ◌∷◌, if◌then◌else◌,
}
use c_language.Grades.Float.{FloatOps}
use c_language.Grades.Records.{ScoreLine, SectionLines, AssignmentLines, CourseLines}
use c_language.Grades.Read.{Ifile, Reader, istoken, need_token, expecttoken}
use c_language.Grades.Read.Lines.{gobbleblanklines, expecteof, pushfile}
use c_language.Grades.Read.Names.{readid, readname, readprofessor, readassistant}
use c_language.Grades.Read.Assignments.{on_key, readassignments}
use c_language.Grades.Read.Scores.{readstudents}

abbrev section : List ℕ
section = b'S' ∷ b'E' ∷ b'C' ∷ b'T' ∷ b'I' ∷ b'O' ∷ b'N' ∷ []

abbrev file_key : List ℕ
file_key = b'F' ∷ b'I' ∷ b'L' ∷ b'E' ∷ []

abbrev course : List ℕ
course = b'C' ∷ b'O' ∷ b'U' ∷ b'R' ∷ b'S' ∷ b'E' ∷ []

-- The loop in front of a section: at the end of a file the one before it goes on, and whether a
-- token was found. `files` is the rest of the stack.
unfoldable pub seek_token : List Ifile → Reader → Option (Bool × Reader)
seek_token [] r = do s ← need_token r; some (istoken s, s)
seek_token (f ∷ files) r = do
  s ← need_token r
  if istoken s then some (true, s) else seek_token files (record s { ifile = f; prev = files })

module _ (F : FloatOps) (scan : List ℕ → Option F.Num) (fresh : ScoreLine F)
    (fopen : List ℕ → Option (List ℕ)) where
  module _ (asgts : List (AssignmentLines F)) where
    unfoldable pub read_section : Reader → Option (SectionLines F × Reader)
    read_section r = do
      n ← readname r
      a ← readassistant n.1
      s ← readstudents F scan fresh asgts a.1
      some (record { name = n.0; assistant_of = a.0; roster = s.0 }, s.1)

    unfoldable pub readsections : ℕ → Reader → Option (List (SectionLines F) × Reader)
    readsections zero r = none
    readsections (suc fuel) r = do
      t ← seek_token r.prev r
      elim t.0 [
        | false ↦ some ([], t.1)
        | true ↦
            on_key file_key t.1 (λ s. pushfile fopen s >>= λ u. readsections fuel u)
              λ s.
                on_key section s
                  (λ s. do
                    a ← read_section s
                    rest ← readsections fuel a.1
                    some (a.0 ∷ rest.0, rest.1))
                  λ s. some ([], s)
      ]

  module _ (uninit : F.Num) (fuel : ℕ) where
    unfoldable pub readcourse : Reader → Option (CourseLines F × Reader)
    readcourse r = do
      s ← expecttoken course r
      n ← readid s
      t ← readname n.1
      p ← readprofessor t.1
      a ← readassignments F scan uninit p.1
      c ← readsections a.0 fuel a.1
      some (
        record { number = n.0; title = t.0; professor_of = p.0; assignments = a.0; sections = c.0 },
        c.1,
      )

    unfoldable pub readfile : List ℕ → Option (CourseLines F × Reader)
    readfile root = do
      input ← fopen root
      r ← gobbleblanklines (record {
        ifile = record { name = root; line = 1; input = input };
        prev = [];
        token = [];
        errors = [];
      })
      c ← readcourse r
      s ← gobbleblanklines c.1
      some (c.0, expecteof s)
