-- ===== src/Spooler/State.antt =====
-- The tables that `main` of hw4/src/main.c keeps in local arrays, with the records of
-- hw4/include/imprimer.h, and what the program writes to its output. A string is the list of its
-- bytes without the terminating zero; the arrays are lists of the rows that are in use.
use c_language.Prelude.{ℕ, List, Option}

abbrev pub Text : Type 0
Text = List ℕ

-- `enabled` and `busy` are 0 or 1. The connection in `other_info` is the library's.
pub record Printer : Type 0 where
  pub id : ℕ
  pub name : Text
  pub type : Text
  pub enabled : ℕ
  pub busy : ℕ

pub data JobStatus : Type 0 where
  queued running paused completed aborted : JobStatus

-- `chosen_printer` is the row of the printer, and `none` before the program sets it. No
-- conversion pipeline is started, and `pgid` is never set.
pub record Job : Type 0 where
  pub jobid : ℕ
  pub status : JobStatus
  pub file_name : Text
  pub file_type : Text
  pub eligible_printers : ℕ
  pub chosen_printer : Option ℕ
  pub creation_time : ℕ
  pub change_time : ℕ

-- A row of conv_name, conv_src and conv_dest.
pub record Conversion : Type 0 where
  pub conv_name : Text
  pub conv_src : Text
  pub conv_dest : Text

pub record Spooler : Type 0 where
  pub printers : List Printer
  pub jobs : List Job
  pub types : List Text
  pub conversions : List Conversion

-- The texts that go through imp_format_error_message.
pub data Complaint : Type 0 where
  duplicate_type too_many_printers invalid_printer_name invalid_file_type : Complaint
  invalid_target_type conversion_exists unsupported_file_type invalid_printer : Complaint
  already_disabled already_enabled invalid_command : Complaint

-- What is written: the formatting is the library's. The status of a row behind the last
-- printer, which is not initialized, is `printer_line none`: `then_schedule` makes it undefined.
pub data Line : Type 0 where
  help_text : Line
  error_line : Complaint → Line
  printer_line : Option Printer → Line
  job_line : Job → Line

-- How the body of a loop over the commands ends: at its end, at a `continue`, at a `break`, at
-- an `exit`, or at an access that C leaves undefined.
pub data Outcome : Type 0 where
  falls continues breaks exits : Spooler → List Line → Outcome
  undefined : Outcome
