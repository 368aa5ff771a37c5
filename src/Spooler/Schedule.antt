-- ===== src/Spooler/Schedule.antt =====
-- The rest of the interactive loop of hw4/src/main.c: `cancel`, `disable` and `enable`, and the
-- loop that gives the queued jobs to printers at the end of a round.
use c_language.Prelude.{ℕ, suc, Bool, true, false, not, ◌&&◌, ◌||◌, Option, none, some}
use c_language.Prelude.{
  List, [], ◌∷◌, ◌++◌, map, length, get_elem?, ltb, ◌==◌, if◌then◌else◌, same_text, bit_and, ◌^◌,
}
use c_language.Spooler.State.{
  Text, Printer, JobStatus, queued, running, paused, completed, aborted, Job, Spooler, Line,
  error_line, printer_line, job_line,
}
use c_language.Spooler.State.{
  Outcome, falls, undefined, invalid_printer_name, already_disabled, already_enabled,
}

abbrev pub is_queued : JobStatus → Bool
is_queued queued = true
is_queued running = false
is_queued paused = false
is_queued completed = false
is_queued aborted = false

abbrev pub cancelled : Text → Job → Bool
cancelled file j = same_text j.file_name file && is_queued j.status

unfoldable pub cancel_job : Text → Job → Job
cancel_job file j = if cancelled file j then record j { status = aborted } else j

unfoldable pub any_cancelled : Text → List Job → Bool
any_cancelled file [] = false
any_cancelled file (j ∷ jobs) = cancelled file j || any_cancelled file jobs

-- The time of the change goes to the row behind the last job, which is not there when the table
-- is full; the next `print` overwrites it.
unfoldable pub cancel : Spooler → Text → Outcome
cancel s file =
    if ltb (length s.jobs) 1024 || not (any_cancelled file s.jobs)
    then falls (record s { jobs = map (cancel_job file) s.jobs }) []
    else undefined

-- The state of the loops of `disable` and `enable`: whether validprinter was set, the printers
-- and what was written.
abbrev pub Switch : Type 0
Switch = Bool × List Printer × List Line

unfoldable pub disable_row : Text → Printer → List Printer → Switch → Switch
disable_row name p printers rest =
    let off : Printer = record p { enabled = 0 } in
    if same_text p.name name
    then (if p.enabled == 0
        then (false, p ∷ printers, error_line already_disabled ∷ [])
        else (true, off ∷ rest.1, printer_line (some off) ∷ rest.2))
    else (rest.0, p ∷ rest.1, rest.2)

unfoldable pub disable_loop : Text → List Printer → Switch
disable_loop name [] = (false, [], [])
disable_loop name (p ∷ printers) = disable_row name p printers (disable_loop name printers)

unfoldable pub enable_row : Text → Printer → List Printer → Switch → Switch
enable_row name p printers rest =
    let on : Printer = record p { enabled = 1 } in
    if same_text p.name name
    then (if p.enabled == 1
        then (false, p ∷ printers, error_line already_enabled ∷ [])
        else (true, on ∷ rest.1, printer_line (some on) ∷ rest.2))
    else (rest.0, p ∷ rest.1, rest.2)

unfoldable pub enable_loop : Text → List Printer → Switch
enable_loop name [] = (false, [], [])
enable_loop name (p ∷ printers) = enable_row name p printers (enable_loop name printers)

-- validprinter==-1
unfoldable pub switched : Spooler → Switch → Outcome
switched s r =
    falls (record s { printers = r.1 })
      (r.2 ++ (if r.0 then [] else (error_line invalid_printer_name ∷ [])))

abbrev pub disable : Spooler → Text → Outcome
disable s name = switched s (disable_loop name s.printers)

abbrev pub enable : Spooler → Text → Outcome
enable s name = switched s (enable_loop name s.printers)

-- The conditions under which the loop starts the job on the printer.
unfoldable pub can_print : Job → Printer → Bool
can_print j p =
    same_text j.file_type p.type
    && ((is_queued j.status && ((p.busy == 0) && (p.enabled == 1)))
        && not (bit_and j.eligible_printers (2 ^ p.id) == 0))

abbrev pub start : ℕ → ℕ → Job → Job
start now k j = record j { status = running; chosen_printer = some k; change_time = now }

-- What the inner loop does from row `k` on: the job and the printers, where it found one.
abbrev pub keep_row : Printer → Option (Job × List Printer) → Option (Job × List Printer)
keep_row p none = none
keep_row p (some r) = some (r.0, p ∷ r.1)

unfoldable pub offer : ℕ → Job → ℕ → List Printer → Option (Job × List Printer)
offer now j k [] = none
offer now j k (p ∷ printers) =
    let rest = offer now j (suc k) printers in
    if can_print j p
    then some (start now k j, record p { busy = 1 } ∷ printers)
    else keep_row p rest

-- The printers that a round of the outer loop leaves, its job, and what it writes: the status of
-- the printer in the row of the job, printers[i].
unfoldable pub after_offer :
    ℕ → Job → List Printer → Option (Job × List Printer) → Job × List Printer × List Line
after_offer i j printers none = (j, printers, [])
after_offer i j printers (some r) = (r.0, r.1, printer_line (get_elem? r.1 i) ∷ (job_line r.0 ∷ []))

unfoldable pub schedule_loop : ℕ → ℕ → List Job → List Printer → List Job × List Printer × List Line
schedule_loop now i [] printers = ([], printers, [])
schedule_loop now i (j ∷ jobs) printers =
    let r = after_offer i j printers (offer now j 0 printers) in
    let rest = schedule_loop now (suc i) jobs r.1 in (r.0 ∷ rest.0, rest.1, r.2 ++ rest.2)

unfoldable pub schedule : ℕ → Spooler → Spooler × List Line
schedule now s =
    let r = schedule_loop now 0 s.jobs s.printers in (record s { jobs = r.0; printers = r.1 }, r.2)
