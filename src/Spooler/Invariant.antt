-- ===== src/Spooler/Invariant.antt =====
-- What holds of the tables of hw4/src/main.c between two commands.
pub mod Board
pub mod Tables
pub mod Printers
pub mod Jobs
pub mod Switches
pub mod Rounds
pub mod Runs
pub mod Exclusive
use c_language.Prelude.{
  ℕ, zero, suc, ◌+◌, ◌/◌, ◌%◌, ◌^◌, ◌≤◌, ◌≡◌, ◌≢◌, true, Option, none, some, List, [], ◌∷◌, map,
  length, get_elem?, All, ◌==◌, if◌then◌else◌,
}
use c_language.Spooler.State.{
  Text, Printer, JobStatus, queued, running, paused, completed, aborted, Job, Spooler,
}
use c_language.Spooler.Commands.{is_declared}

-- The parts of a printer and of a job that never change.
abbrev pub Row : Type 0
Row = ℕ × Text × Text

abbrev pub row : Printer → Row
row p = (p.id, p.name, p.type)

abbrev pub catalogue : List Printer → List Row
catalogue printers = map row printers

abbrev pub Ticket : Type 0
Ticket = ℕ × Text

abbrev pub ticket : Job → Ticket
ticket j = (j.jobid, j.file_type)

abbrev pub tickets : List Job → List Ticket
tickets jobs = map ticket jobs

-- The numbers of the elements are consecutive, from `n` on.
abbrev pub Numbered {ℓ} : {A : Type ℓ} → (A → ℕ) → ℕ → List A → Type 0
Numbered f n [] = Unit
Numbered f n (x ∷ xs) = (f x ≡ n) × Numbered f (suc n) xs

abbrev pub Distinct : List Row → Type 0
Distinct [] = Unit
Distinct (r ∷ rows) = All (λ q. r.1 ≢ q.1) rows × Distinct rows

-- A running job has a printer of its type among those that may print it; no other job has one.
abbrev pub Served : List Row → Option ℕ → Text → ℕ → JobStatus → Type 0
Served rows chosen type eligible running =
    (k : ℕ) × (r : Row) × (chosen ≡ some k)
    × (get_elem? rows k ≡ some r)
    × (type ≡ r.2)
    × (eligible / 2 ^ k % 2 ≡ 1)
Served rows chosen type eligible queued = chosen ≡ none
Served rows chosen type eligible paused = ⊥
Served rows chosen type eligible completed = ⊥
Served rows chosen type eligible aborted = chosen ≡ none

abbrev pub Serves : List Row → Job → Type 0
Serves rows j = Served rows j.chosen_printer j.file_type j.eligible_printers j.status

abbrev pub held : ℕ → Option ℕ → ℕ
held k none = 0
held k (some m) = if m == k then 1 else 0

-- How many jobs have chosen the printer of the row.
unfoldable pub holders : ℕ → List Job → ℕ
holders k [] = 0
holders k (j ∷ jobs) = held k j.chosen_printer + holders k jobs

unfoldable pub busy_at : List Printer → ℕ → ℕ
busy_at [] k = 0
busy_at (p ∷ printers) zero = p.busy
busy_at (p ∷ printers) (suc k) = busy_at printers k

pub record IsBoard (jobs : List Job) (printers : List Printer) : Type 0 where
  pub ids : Numbered (λ r. r.0) 0 (catalogue printers)
  pub served : All (Serves (catalogue printers)) jobs
  pub flags : All (λ p. p.busy ≤ 1) printers
  pub balanced : (k : ℕ) → holders k jobs ≡ busy_at printers k

pub record IsSpooler (s : Spooler) : Type 0 where
  pub matched : IsBoard s.jobs s.printers
  pub names : Distinct (catalogue s.printers)
  pub printers_room : length (catalogue s.printers) ≤ 32
  pub jobs_room : length (tickets s.jobs) ≤ 1024
  pub types_room : length s.types ≤ 100
  pub conversions_room : length s.conversions ≤ 100
  pub printable : All (λ r. is_declared r.2 s.types ≡ true) (catalogue s.printers)
  pub declared : All (λ t. is_declared t.1 s.types ≡ true) (tickets s.jobs)
  pub jobids : Numbered (λ t. t.0) 0 (tickets s.jobs)
