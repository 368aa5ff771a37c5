-- ===== src/Spooler/Rounds.antt =====
-- `main` of hw4/src/main.c: the loop over the command file and the interactive loop. `clock`
-- gives the reading of the clock for each line, and the lines are what `fgets` and `readline`
-- return, without a zero byte.
use c_language.Prelude.{ℕ, suc, Bool, true, false, ◌||◌, Option, none, some}
use c_language.Prelude.{List, [], ◌∷◌, ◌++◌, map, length, leb, if◌then◌else◌, same_text}
use c_language.Spooler.State.{
  Text, Spooler, Line, help_text, error_line, printer_line, job_line, Outcome, falls, continues,
  breaks, exits, undefined, invalid_command,
}
use c_language.Spooler.Texts.{tokens, file_lines}
use c_language.Spooler.Commands.{
  declare_type, declare_printer, declare_conversion, print_file, file_print,
}
use c_language.Spooler.Schedule.{cancel, disable, enable, schedule}

abbrev pub help : Text
help = b'h' ∷ b'e' ∷ b'l' ∷ b'p' ∷ []

abbrev pub quit : Text
quit = b'q' ∷ b'u' ∷ b'i' ∷ b't' ∷ []

abbrev pub type : Text
type = b't' ∷ b'y' ∷ b'p' ∷ b'e' ∷ []

abbrev pub printer : Text
printer = b'p' ∷ b'r' ∷ b'i' ∷ b'n' ∷ b't' ∷ b'e' ∷ b'r' ∷ []

abbrev pub conversion : Text
conversion = b'c' ∷ b'o' ∷ b'n' ∷ b'v' ∷ b'e' ∷ b'r' ∷ b's' ∷ b'i' ∷ b'o' ∷ b'n' ∷ []

abbrev pub printerss : Text
printerss = b'p' ∷ b'r' ∷ b'i' ∷ b'n' ∷ b't' ∷ b'e' ∷ b'r' ∷ b's' ∷ []

abbrev pub jobss : Text
jobss = b'j' ∷ b'o' ∷ b'b' ∷ b's' ∷ []

abbrev pub print : Text
print = b'p' ∷ b'r' ∷ b'i' ∷ b'n' ∷ b't' ∷ []

abbrev pub cancels : Text
cancels = b'c' ∷ b'a' ∷ b'n' ∷ b'c' ∷ b'e' ∷ b'l' ∷ []

abbrev pub pauses : Text
pauses = b'p' ∷ b'a' ∷ b'u' ∷ b's' ∷ b'e' ∷ []

abbrev pub resume : Text
resume = b'r' ∷ b'e' ∷ b's' ∷ b'u' ∷ b'm' ∷ b'e' ∷ []

abbrev pub disables : Text
disables = b'd' ∷ b'i' ∷ b's' ∷ b'a' ∷ b'b' ∷ b'l' ∷ b'e' ∷ []

abbrev pub enables : Text
enables = b'e' ∷ b'n' ∷ b'a' ∷ b'b' ∷ b'l' ∷ b'e' ∷ []

abbrev pub rejected : Spooler → Outcome
rejected s = falls s (error_line invalid_command ∷ [])

abbrev pub report_printers : Spooler → List Line
report_printers s = map (λ p. printer_line (some p)) s.printers

abbrev pub report_jobs : Spooler → List Line
report_jobs s = map job_line s.jobs

-- The commands of one word, which the two loops share but for `quit`.
unfoldable pub command0 : Outcome → Spooler → Text → Outcome
command0 on_quit s cmd =
    if same_text cmd help
    then falls s (help_text ∷ [])
    else (if same_text cmd quit
        then on_quit
        else (if same_text cmd printerss
            then falls s (report_printers s)
            else (if same_text cmd jobss then falls s (report_jobs s) else rejected s)))

-- The commands of two words in the command file: those on jobs and printers end the loop.
unfoldable pub file_command1 : ℕ → Spooler → Text → Text → Outcome
file_command1 now s cmd a =
    if same_text cmd type
    then declare_type s a
    else (if same_text cmd print
        then file_print now s a []
        else (if same_text cmd cancels
              || (same_text cmd pauses
                  || (same_text cmd resume || (same_text cmd disables || same_text cmd enables)))
            then breaks s []
            else rejected s))

-- The commands of two words in the interactive loop: `pause` and `resume` end the program.
unfoldable pub command1 : ℕ → Spooler → Text → Text → Outcome
command1 now s cmd a =
    if same_text cmd type
    then declare_type s a
    else (if same_text cmd print
        then print_file true now s a []
        else (if same_text cmd cancels
            then cancel s a
            else (if same_text cmd pauses || same_text cmd resume
                then breaks s []
                else (if same_text cmd disables
                    then disable s a
                    else (if same_text cmd enables then enable s a else rejected s)))))

unfoldable pub command2 : Bool → ℕ → Spooler → Text → Text → Text → Outcome
command2 shown now s cmd a b =
    if same_text cmd printer
    then declare_printer s a b
    else (if same_text cmd print then print_file shown now s a (b ∷ []) else rejected s)

unfoldable pub command3 : Bool → ℕ → Spooler → Text → Text → Text → Text → List Text → Outcome
command3 shown now s cmd a b c rest =
    if same_text cmd conversion
    then declare_conversion s a b c rest
    else (if same_text cmd print then print_file shown now s a (b ∷ (c ∷ rest)) else rejected s)

-- The chains of `else if`, sorted by the number of words that a command takes.
unfoldable pub file_dispatch : ℕ → Spooler → List Text → Outcome
file_dispatch now s [] = continues s []
file_dispatch now s (cmd ∷ []) = command0 (exits s []) s cmd
file_dispatch now s (cmd ∷ (a ∷ [])) = file_command1 now s cmd a
file_dispatch now s (cmd ∷ (a ∷ (b ∷ []))) = command2 false now s cmd a b
file_dispatch now s (cmd ∷ (a ∷ (b ∷ (c ∷ rest)))) = command3 false now s cmd a b c rest

unfoldable pub dispatch : ℕ → Spooler → List Text → Outcome
dispatch now s [] = continues s []
dispatch now s (cmd ∷ []) = command0 (breaks s []) s cmd
dispatch now s (cmd ∷ (a ∷ [])) = command1 now s cmd a
dispatch now s (cmd ∷ (a ∷ (b ∷ []))) = command2 true now s cmd a b
dispatch now s (cmd ∷ (a ∷ (b ∷ (c ∷ rest)))) = command3 true now s cmd a b c rest

-- Whether the scheduling loop showed only printers that are there: the row with the number of the
-- job is not initialized behind the last printer, and not in the array from 32 on.
unfoldable pub all_there : List Line → Bool
all_there [] = true
all_there (help_text ∷ out) = all_there out
all_there (error_line e ∷ out) = all_there out
all_there (printer_line none ∷ out) = false
all_there (printer_line (some p) ∷ out) = all_there out
all_there (job_line j ∷ out) = all_there out

-- A command that reaches the end of the body is followed by the scheduling loop.
unfoldable pub then_schedule : ℕ → Outcome → Outcome
then_schedule now (falls s out) =
    let r = schedule now s in if all_there r.1 then falls r.0 (out ++ r.1) else undefined
then_schedule now (continues s out) = continues s out
then_schedule now (breaks s out) = breaks s out
then_schedule now (exits s out) = exits s out
then_schedule now undefined = undefined

-- The array of words has 40 rows.
unfoldable pub file_round : ℕ → Spooler → Text → Outcome
file_round now s line =
    let words = tokens b' ' line in
    if leb (length words) 40 then file_dispatch now s words else undefined

unfoldable pub round : ℕ → Spooler → Text → Outcome
round now s line =
    let words = tokens b' ' line in
    if leb (length words) 40 then then_schedule now (dispatch now s words) else undefined

-- Where the loops stand: `waiting` in front of a line that is still to come.
pub data Session : Type 0 where
  waiting ended : Spooler → List Line → Session
  crashed : Session

abbrev pub prepend : List Line → Session → Session
prepend out (waiting s rest) = waiting s (out ++ rest)
prepend out (ended s rest) = ended s (out ++ rest)
prepend out crashed = crashed

-- How a loop goes on behind its body, and what a `break` makes of it.
abbrev pub after_body : (Spooler → Session) → (Spooler → List Line → Session) → Outcome → Session
after_body again leave (falls s out) = prepend out (again s)
after_body again leave (continues s out) = prepend out (again s)
after_body again leave (breaks s out) = leave s out
after_body again leave (exits s out) = ended s out
after_body again leave undefined = crashed

-- while ((fgets(line,100,fp))!=NULL)
unfoldable pub file_loop : (ℕ → ℕ) → ℕ → Spooler → List Text → Session
file_loop clock k s [] = waiting s []
file_loop clock k s (line ∷ lines) =
    after_body (λ t. file_loop clock (suc k) t lines) waiting (file_round (clock k) s line)

-- while(1), as far as there are lines; behind the loop the program ends.
unfoldable pub session : (ℕ → ℕ) → ℕ → Spooler → List Text → Session
session clock k s [] = waiting s []
session clock k s (line ∷ lines) =
    after_body (λ t. session clock (suc k) t lines) ended (round (clock k) s line)

-- The interactive loop starts where the command file left the tables.
abbrev pub enter : (ℕ → ℕ) → ℕ → List Text → Session → Session
enter clock k lines (waiting s out) = prepend out (session clock k s lines)
enter clock k lines (ended s out) = ended s out
enter clock k lines crashed = crashed

abbrev pub empty_spooler : Spooler
empty_spooler = record { printers = []; jobs = []; types = []; conversions = [] }

-- The program behind its options: `content` is what the command file of -i holds.
unfoldable pub spool : (ℕ → ℕ) → Option Text → List Text → Session
spool clock none lines = session clock 0 empty_spooler lines
spool clock (some content) lines =
    let batch = file_lines content in
    enter clock (length batch) lines (file_loop clock 0 empty_spooler batch)
