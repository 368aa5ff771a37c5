-- ===== src/Spooler/Commands.antt =====
-- The commands of hw4/src/main.c that work on the tables, as the branches of the interactive
-- loop run them. `now` is the reading of the clock in the round.
use c_language.Prelude.{ℕ, suc, ◌+◌, ◌^◌, Bool, true, false, not, ◌&&◌, ◌||◌, Option, none, some}
use c_language.Prelude.{
  List, [], ◌∷◌, ◌++◌, length, ltb, leb, ◌==◌, if◌then◌else◌, same_text, ◌>>=◌,
}
use c_language.Spooler.State.{
  Text, Printer, queued, Job, Conversion, Spooler, Line, error_line, printer_line, job_line,
  Outcome,
}
use c_language.Spooler.State.{falls, continues, undefined}
use c_language.Spooler.State.{
  duplicate_type, too_many_printers, invalid_printer_name, invalid_file_type, invalid_target_type,
  conversion_exists, unsupported_file_type, invalid_printer,
}
use c_language.Spooler.Texts.{fits, tokens, last_token}

-- The loop that looks for a declared type.
unfoldable pub is_declared : Text → List Text → Bool
is_declared t [] = false
is_declared t (u ∷ types) = same_text u t || is_declared t types

unfoldable pub declare_type : Spooler → Text → Outcome
declare_type s t =
    if is_declared t s.types
    then falls s (error_line duplicate_type ∷ [])
    else (if ltb (length s.types) 100 && fits t
        then falls (record s { types = s.types ++ t ∷ [] }) []
        else undefined)

-- The loop that looks for the name of a printer.
unfoldable pub is_printer : Text → List Printer → Bool
is_printer name [] = false
is_printer name (p ∷ printers) = same_text p.name name || is_printer name printers

abbrev pub new_printer : Spooler → Text → Text → Printer
new_printer s name type = record {
  id = length s.printers;
  name = name;
  type = type;
  enabled = 0;
  busy = 0;
}

-- A full table is complained about, and the command goes on.
unfoldable pub declare_printer : Spooler → Text → Text → Outcome
declare_printer s name type =
    let warning =
      (if leb 32 (length s.printers) then (error_line too_many_printers ∷ []) else []) in
    let p = new_printer s name type in
    if is_printer name s.printers
    then continues s (warning ++ error_line invalid_printer_name ∷ [])
    else (if not (is_declared type s.types)
        then continues s (warning ++ error_line invalid_file_type ∷ [])
        else (if ltb (length s.printers) 32 && (fits name && fits type)
            then falls (record s { printers = s.printers ++ p ∷ [] })
                (warning ++ printer_line (some p) ∷ [])
            else undefined))

-- The loop that looks for a conversion with the program, or with both of the types.
unfoldable pub is_conversion : Conversion → List Conversion → Bool
is_conversion c [] = false
is_conversion c (d ∷ ds) =
    (same_text d.conv_name c.conv_name
      || (same_text d.conv_src c.conv_src && same_text d.conv_dest c.conv_dest))
    || is_conversion c ds

-- The program with its arguments behind single spaces.
unfoldable pub command_text : Text → List Text → Text
command_text name [] = name
command_text name (a ∷ rest) = command_text (name ++ b' ' ∷ a) rest

unfoldable pub add_conversion : Spooler → Conversion → List Line → Outcome
add_conversion s c warning =
    if is_conversion c s.conversions
    then continues s (warning ++ error_line conversion_exists ∷ [])
    else (if ltb (length s.conversions) 100
          && (fits c.conv_name && (fits c.conv_src && fits c.conv_dest))
        then falls (record s { conversions = s.conversions ++ c ∷ [] }) warning
        else undefined)

abbrev pub is_alone : List Text → Bool
is_alone [] = true
is_alone (a ∷ rest) = false

-- A type that is not declared is complained about, and the command goes on. With arguments the
-- program is put together in its buffer before the tables are searched.
unfoldable pub declare_conversion : Spooler → Text → Text → Text → List Text → Outcome
declare_conversion s src dest name rest =
    let warning =
      (if is_declared dest s.types && is_declared src s.types
        then []
        else (error_line invalid_target_type ∷ [])) in
    let program = command_text name rest in
    if is_alone rest || fits program
    then add_conversion s (record { conv_name = program; conv_src = src; conv_dest = dest }) warning
    else undefined

-- The parts of a file name are put in an array of ten rows.
unfoldable pub few_parts : Text → Bool
few_parts file = leb (length (tokens b'.' file)) 10

-- The part of a file name behind its last dot.
unfoldable pub type_of_file : Text → Option Text
type_of_file file = last_token (tokens b'.' file)

abbrev pub new_job : Spooler → ℕ → Text → Text → ℕ → Job
new_job s now file type eligible = record {
  jobid = length s.jobs;
  status = queued;
  file_name = file;
  file_type = type;
  eligible_printers = eligible;
  chosen_printer = none;
  creation_time = now;
  change_time = now;
}

-- The interactive loop shows the new job, the loop over the command file does not.
unfoldable pub enqueue_typed : Bool → ℕ → Spooler → Text → ℕ → Text → Outcome
enqueue_typed shown now s file eligible type =
    let j = new_job s now file type eligible in
    if not (is_declared type s.types)
    then continues s (error_line unsupported_file_type ∷ [])
    else (if ltb (length s.jobs) 1024
        then falls (record s { jobs = s.jobs ++ j ∷ [] }) (if shown then (job_line j ∷ []) else [])
        else undefined)

-- A file name without a part: the loop over the types compares them with the row in front of the
-- array, and compares nothing where there are none.
abbrev pub no_part : Spooler → List Text → Outcome
no_part s [] = continues s (error_line unsupported_file_type ∷ [])
no_part s (t ∷ types) = undefined

abbrev pub on_type : Spooler → Option Text → (Text → Outcome) → Outcome
on_type s none f = no_part s s.types
on_type s (some t) f = f t

unfoldable pub enqueue : Bool → ℕ → Spooler → Text → ℕ → Outcome
enqueue shown now s file eligible =
    if fits file && few_parts file
    then on_type s (type_of_file file) (enqueue_typed shown now s file eligible)
    else undefined

abbrev pub any_printer : ℕ
any_printer = 4294967295

-- The first printer of the name, as the inner loop of `print` finds it.
unfoldable pub find_printer : Text → List Printer → Option Printer
find_printer name [] = none
find_printer name (p ∷ printers) =
    if same_text p.name name then some p else find_printer name printers

-- temp+=pow(2,id) and jobprintercount++: the sum is a `double`, and converting one of 2^32 or
-- more is undefined.
unfoldable pub add_eligible : ℕ → ℕ → Option Printer → Option (ℕ × ℕ)
add_eligible temp found none = some (temp, found)
add_eligible temp found (some p) =
    if ltb (temp + 2 ^ p.id) (2 ^ 32) then some (temp + 2 ^ p.id, suc found) else none

unfoldable pub eligible_loop : List Printer → List Text → ℕ → ℕ → Option (ℕ × ℕ)
eligible_loop printers [] temp found = some (temp, found)
eligible_loop printers (name ∷ names) temp found =
    add_eligible temp found (find_printer name printers) >>= λ r.
    eligible_loop printers names r.0 r.1

abbrev pub on_eligible : Option (ℕ × ℕ) → (ℕ → ℕ → Outcome) → Outcome
on_eligible none f = undefined
on_eligible (some (temp, found)) f = f temp found

unfoldable pub print_on : Bool → ℕ → Spooler → Text → List Text → ℕ → ℕ → Outcome
print_on shown now s file names temp found =
    if found == length names
    then enqueue shown now s file temp
    else continues s (error_line invalid_printer ∷ [])

-- `print`, with the printers that are named or without any.
unfoldable pub print_file : Bool → ℕ → Spooler → Text → List Text → Outcome
print_file shown now s file [] = enqueue shown now s file any_printer
print_file shown now s file (name ∷ names) =
    on_eligible (eligible_loop s.printers (name ∷ names) 0 0)
      (print_on shown now s file (name ∷ names))

-- `print` in the command file, which does not show the job.
abbrev pub file_print : ℕ → Spooler → Text → List Text → Outcome
file_print now s file names = print_file false now s file names
