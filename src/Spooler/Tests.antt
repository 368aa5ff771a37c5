-- ===== src/Spooler/Tests.antt =====
-- The spooler of hw4 runs on command lines, and the theorems applied to them.
use c_language.Prelude.{
  ℕ, ◌+◌, ◌/◌, ◌%◌, ◌^◌, ◌≡◌, refl, some, none, List, [], ◌∷◌, ◌++◌, arith, All,
}
use c_language.Spooler.State.{Text, Printer, Spooler}
use c_language.Spooler.Texts.{tokens}
use c_language.Spooler.Texts.Laws.{joined, tokens-joined}
use c_language.Spooler.Commands.{new_job, any_printer, eligible_loop, find_printer}
use c_language.Spooler.Schedule.{schedule}
use c_language.Spooler.Rounds.{type, printer, print, enables, Session, spool, empty_spooler}
use c_language.Spooler.Board.{Reach, Settled}
use c_language.Spooler.Board.Refines.{board, schedule-Reach, schedule-Settled}
use c_language.Spooler.Eligible.{repeated_printer}
use c_language.Spooler.Invariant.{IsSpooler}
use c_language.Spooler.Invariant.Runs.{Leaves, spool-IsSpooler}
use c_language.Spooler.Invariant.Exclusive.{Exclusive, spool-Exclusive}

abbrev spaced : Text → Text → Text
spaced a b = a ++ b' ' ∷ b

abbrev txt : Text
txt = b't' ∷ b'x' ∷ b't' ∷ []

abbrev alice : Text
alice = b'a' ∷ []

abbrev letter : Text
letter = b'l' ∷ b'.' ∷ txt

-- A type and a printer for it, from the command file.
abbrev config : Text
config = spaced type txt ++ b'\n' ∷ spaced printer (spaced alice txt)

-- Two jobs are queued, and the printer is switched on.
abbrev commands : List Text
commands = spaced print letter ∷ (spaced print letter ∷ (spaced enables alice ∷ []))

abbrev clock : ℕ → ℕ
clock k = k

spool-IsSpooler_example : Leaves IsSpooler (spool clock (some config) commands)
spool-IsSpooler_example = spool-IsSpooler clock (some config) commands

spool-Exclusive_example : Leaves Exclusive (spool clock (some config) commands)
spool-Exclusive_example = spool-Exclusive clock (some config) commands

abbrev idle : Printer
idle = record { id = 0; name = alice; type = txt; enabled = 1; busy = 0 }

abbrev queue : Spooler
queue = record {
  printers = idle ∷ [];
  jobs =
      new_job empty_spooler 5 letter txt any_printer
      ∷ (new_job empty_spooler 6 letter txt any_printer ∷ []);
  types = txt ∷ [];
  conversions = [];
}

schedule-Reach_example : Reach 7 (board queue) (board (schedule 7 queue).0)
schedule-Reach_example = schedule-Reach 7 queue

schedule-Settled_example : Settled (board (schedule 7 queue).0)
schedule-Settled_example = schedule-Settled 7 queue

parts_of_letter :
    (tokens b'.' (joined b'.' (alice ∷ []) txt) ≡ alice ∷ (txt ∷ []))
    × (tokens b'.' (joined b'.' (alice ∷ []) (txt ++ b'.' ∷ [])) ≡ alice ∷ (txt ∷ []))
parts_of_letter =
    tokens-joined b'.' (alice ∷ []) txt (((λ e. cc), (refl, tt)), tt)
      ((λ e. cc), (refl, (refl, (refl, tt))))

alice_found : find_printer alice (idle ∷ []) ≡ some idle
unfolding find_printer c_language.Prelude.same_text
alice_found = refl

repeated_printer_example :
    (eligible_loop (idle ∷ []) (alice ∷ (alice ∷ [])) 0 0 ≡ some (2 ^ 1, 2))
    × (2 ^ 1 / 2 ^ 0 % 2 ≡ 0)
repeated_printer_example = repeated_printer (idle ∷ []) alice idle alice_found (omega arith)

-- The first job is running on the printer, and the second one waits.
run_outcome : Session
unfolding spool
run_outcome = spool clock (some config) commands

abbrev free : Spooler
free = record queue { jobs = [] }

-- A job for the printer a.
abbrev order : Text
order = spaced print (spaced letter alice)
