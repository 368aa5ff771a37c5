-- ===== src/Spooler/Board.antt =====
-- What the scheduling loop of hw4/src/main.c promises: jobs and printers as a board on which any
-- waiting job may be started on any printer that is fit for it.
pub mod Refines
use c_language.Prelude.{ℕ, ◌≡◌, refl, some, List, [], ◌∷◌, ◌++◌, length, All}
use c_language.Spooler.State.{Printer, Job}
use c_language.Spooler.Schedule.{start}
use c_language.Spooler.Suits.{Suits}

abbrev pub Board : Type 0
Board = List Job × List Printer

abbrev pub occupied : Printer → Printer
occupied p = record p { busy = 1 }

-- One job is started: it notes the row of the printer, which is then busy.
pub data Step (now : ℕ) : Board → Board → Type 0 where
  starts :
      (a b : List Job) (j : Job) (c d : List Printer) (p : Printer)
      → Suits j p
      → Step now (a ++ j ∷ b, c ++ p ∷ d) (a ++ start now (length c) j ∷ b, c ++ occupied p ∷ d)

pub data Reach (now : ℕ) : Board → Board → Type 0 where
  here : {s : Board} → Reach now s s
  next : {s t u : Board} → Step now s t → Reach now t u → Reach now s u

-- No waiting job is left with a printer that is fit for it.
abbrev pub Settled : Board → Type 0
Settled (jobs, printers) = All (λ j. All (λ p. ¬ Suits j p) printers) jobs

-- A step of the other jobs is a step behind one more job.
Step-cons :
    {now : ℕ} (j : Job) {s t : Board} → Step now s t → Step now (j ∷ s.0, s.1) (j ∷ t.0, t.1)
Step-cons j (starts a b i c d p h) = starts (j ∷ a) b i c d p h

pub Reach-cons :
    {now : ℕ} (j : Job) {s t : Board} → Reach now s t → Reach now (j ∷ s.0, s.1) (j ∷ t.0, t.1)
Reach-cons j here = here
Reach-cons j (next h r) = next (Step-cons j h) (Reach-cons j r)
