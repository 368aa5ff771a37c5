-- ===== src/Spooler/Invariant/Runs.antt =====
-- Every run of `main` of hw4/src/main.c keeps what holds of the tables.
use c_language.Prelude.{ℕ, suc, refl, Option, none, some, List, [], ◌∷◌, arith}
use c_language.Spooler.State.{
  Text, Spooler, Line, Outcome, falls, continues, breaks, exits, undefined,
}
use c_language.Spooler.Texts.{file_lines}
use c_language.Spooler.Rounds.{
  Session, waiting, ended, crashed, prepend, after_body, file_loop, session, enter, empty_spooler,
  spool,
}
use c_language.Spooler.Invariant.{holders, busy_at, IsSpooler}
use c_language.Spooler.Invariant.Tables.{Always}
use c_language.Spooler.Invariant.Rounds.{file_round-IsSpooler, round-IsSpooler}

-- What holds of the tables wherever a session has come to.
abbrev pub Leaves : (Spooler → Type 0) → Session → Type 0
Leaves P (waiting s out) = P s
Leaves P (ended s out) = P s
Leaves P crashed = Unit

prepend-Leaves :
    (out : List Line) (r : Session) → Leaves IsSpooler r → Leaves IsSpooler (prepend out r)
prepend-Leaves out (waiting s rest) h = h
prepend-Leaves out (ended s rest) h = h
prepend-Leaves out crashed h = tt

after_body-Leaves :
    (again : Spooler → Session) (leave : Spooler → List Line → Session) (o : Outcome)
    → ((s : Spooler) → IsSpooler s → Leaves IsSpooler (again s))
    → ((s : Spooler) (out : List Line) → IsSpooler s → Leaves IsSpooler (leave s out))
    → Always IsSpooler o
    → Leaves IsSpooler (after_body again leave o)
after_body-Leaves again leave (falls s out) f g i = prepend-Leaves out _ (f s i)
after_body-Leaves again leave (continues s out) f g i = prepend-Leaves out _ (f s i)
after_body-Leaves again leave (breaks s out) f g i = g s out i
after_body-Leaves again leave (exits s out) f g i = i
after_body-Leaves again leave undefined f g i = tt

module _ (clock : ℕ → ℕ) where
  file_loop-Leaves :
      (k : ℕ) (s : Spooler) (lines : List Text)
      → IsSpooler s
      → Leaves IsSpooler (file_loop clock k s lines)
  unfolding file_loop
  file_loop-Leaves k s [] i = i
  file_loop-Leaves k s (line ∷ lines) i =
      after_body-Leaves _ _ _ (λ t h. file_loop-Leaves (suc k) t lines h) (λ t out h. h)
        (file_round-IsSpooler (clock k) s line i)

  session-Leaves :
      (k : ℕ) (s : Spooler) (lines : List Text)
      → IsSpooler s
      → Leaves IsSpooler (session clock k s lines)
  unfolding session
  session-Leaves k s [] i = i
  session-Leaves k s (line ∷ lines) i =
      after_body-Leaves _ _ _ (λ t h. session-Leaves (suc k) t lines h) (λ t out h. h)
        (round-IsSpooler (clock k) s line i)

  enter-Leaves :
      (k : ℕ) (lines : List Text) (r : Session)
      → Leaves IsSpooler r
      → Leaves IsSpooler (enter clock k lines r)
  enter-Leaves k lines (waiting s out) i = prepend-Leaves out _ (session-Leaves k s lines i)
  enter-Leaves k lines (ended s out) i = i
  enter-Leaves k lines crashed i = tt

empty-IsSpooler : IsSpooler empty_spooler
unfolding holders busy_at
empty-IsSpooler = record {
  matched = record { ids = tt; served = tt; flags = tt; balanced = λ k. refl };
  names = tt;
  printers_room = omega arith;
  jobs_room = omega arith;
  types_room = omega arith;
  conversions_room = omega arith;
  printable = tt;
  declared = tt;
  jobids = tt;
}

-- Wherever a run with any command file and any lines has come to without an access that C leaves
-- undefined: the tables are within their bounds; printers and jobs are numbered by their rows, and
-- have declared types; names of printers differ; each running job has a printer of its type among
-- those that may print it; and each printer is busy exactly with the one job that chose it.
pub spool-IsSpooler :
    (clock : ℕ → ℕ) (content : Option Text) (lines : List Text)
    → Leaves IsSpooler (spool clock content lines)
unfolding spool
spool-IsSpooler clock none lines = session-Leaves clock 0 empty_spooler lines empty-IsSpooler
spool-IsSpooler clock (some content) lines =
    enter-Leaves clock _ lines _
      (file_loop-Leaves clock 0 empty_spooler (file_lines content) empty-IsSpooler)
