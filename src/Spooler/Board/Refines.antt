-- ===== src/Spooler/Board/Refines.antt =====
-- The scheduling loop of hw4/src/main.c against the steps of the board.
use c_language.Prelude.{
  ℕ, suc, ◌+◌, ◌≡◌, refl, ap, ◌∙◌, inl, inr, false, Option, none, some, List, [], ◌∷◌, ◌++◌, length,
  All, All-append, All-split, Bool-cases, arith,
}
use c_language.Spooler.State.{Printer, Spooler, Job, queued, running}
use c_language.Spooler.Schedule.{
  start, can_print, keep_row, offer, after_offer, schedule_loop, schedule,
}
use c_language.Spooler.Suits.{Suits, can_print-Suits, Suits-can_print}
use c_language.Spooler.Board.{Board, occupied, Reach, Settled, Reach-cons}
use c_language.Spooler.Board.Step.{starts}
use c_language.Spooler.Board.Reach.{here, next}

-- What an offer that succeeds has found: the first fit printer.
pub record Found (now k : ℕ) (j : Job) (printers : List Printer) (r : Job × List Printer)
    : Type 0 where
  pub front : List Printer
  pub back : List Printer
  pub row : Printer
  pub splits : printers ≡ front ++ row ∷ back
  pub first : All (λ p. ¬ Suits j p) front
  pub fit : Suits j row
  pub job_started : r.0 ≡ start now (k + length front) j
  pub row_taken : r.1 ≡ front ++ occupied row ∷ back

abbrev pub Offered : ℕ → ℕ → Job → List Printer → Option (Job × List Printer) → Type 0
Offered now k j printers none = All (λ p. ¬ Suits j p) printers
Offered now k j printers (some r) = Found now k j printers r

unsuited : (j : Job) (p : Printer) → can_print j p ≡ false → ¬ Suits j p
unsuited j p e s = let t = Suits-can_print j p s in cc

keep_row-Offered :
    (now k : ℕ) (j : Job) (p : Printer) (printers : List Printer) (o : Option (Job × List Printer))
    → ¬ Suits j p
    → Offered now (suc k) j printers o
    → Offered now k j (p ∷ printers) (keep_row p o)
keep_row-Offered now k j p printers none n h = (n, h)
keep_row-Offered now k j p printers (some r) n h = record {
  front = p ∷ h.front;
  back = h.back;
  row = h.row;
  splits = ap (λ l. p ∷ l) h.splits;
  first = (n, h.first);
  fit = h.fit;
  job_started = h.job_started ∙ ap (λ i. start now i j) (omega arith);
  row_taken = ap (λ l. p ∷ l) h.row_taken;
}

-- The inner loop finds the first printer that is fit, and fails only where none is.
pub offer-Offered :
    (now k : ℕ) (j : Job) (printers : List Printer)
    → Offered now k j printers (offer now j k printers)
unfolding offer
offer-Offered now k j [] = tt
offer-Offered now k j (p ∷ printers) =
    let ih = offer-Offered now (suc k) j printers in
    elim (Bool-cases (can_print j p)) [
      | inl e ↦ rw e (record {
        front = [];
        back = printers;
        row = p;
        splits = refl;
        first = tt;
        fit = can_print-Suits j p e;
        job_started = ap (λ i. start now i j) (omega arith);
        row_taken = refl;
      })
      | inr e ↦ rw e (keep_row-Offered now k j p printers _ (unsuited j p e) ih)
    ]

-- No printer of the list may start the job.
abbrev Unserved : Job → List Printer → Type 0
Unserved j printers = All (λ p. ¬ Suits j p) printers

occupied-unsuited : (j : Job) (p : Printer) → ¬ Suits j (occupied p)
occupied-unsuited j p s = let e : (occupied p).busy ≡ 0 = s.free in ground arith

started-Unserved :
    (now k : ℕ) (j : Job) (printers : List Printer) → Unserved (start now k j) printers
started-Unserved now k j [] = tt
started-Unserved now k j (p ∷ printers) =
    (λ s. let e : running ≡ queued = s.waits in cc, started-Unserved now k j printers)

module _ (now i : ℕ) (j : Job) (printers : List Printer) where
  taken-Unserved :
      (r : Job × List Printer) (i' : Job)
      → Found now 0 j printers r
      → Unserved i' printers
      → Unserved i' r.1
  taken-Unserved r i' h u =
      let (a, b) = All-split _ h.front _ (rw h.splits at u) in
      rw h.row_taken (All-append _ h.front _ a (occupied-unsuited i' h.row, b.1))

  -- One round of the outer loop is at most one step, leaves no fit printer for its job, and makes
  -- no printer fit for another one.
  after_offer-Step :
      (o : Option (Job × List Printer)) (jobs : List Job)
      → Offered now 0 j printers o
      → let r = after_offer i j printers o in
        Reach now (j ∷ jobs, printers) (r.0 ∷ jobs, r.1)
        × Unserved r.0 r.1
        × ((i' : Job) → Unserved i' printers → Unserved i' r.1)
  unfolding after_offer
  after_offer-Step none jobs h = (here, h, λ i' u. u)
  after_offer-Step (some r) jobs h =
      let at_row : r.0 ≡ start now (length h.front) j =
        h.job_started ∙ ap (λ n. start now n j) (omega arith) in
      (
        rw (h.splits, h.row_taken, at_row)
            (next (starts [] jobs j h.front h.back h.row h.fit) here),
        rw at_row (started-Unserved now (length h.front) j r.1),
        λ i' u. taken-Unserved r i' h u,
      )

  pub offered :
      (jobs : List Job)
      → let r = after_offer i j printers (offer now j 0 printers) in
        Reach now (j ∷ jobs, printers) (r.0 ∷ jobs, r.1)
        × Unserved r.0 r.1
        × ((i' : Job) → Unserved i' printers → Unserved i' r.1)
  offered jobs = after_offer-Step _ jobs (offer-Offered now 0 j printers)

schedule_loop-Unserved :
    (now i : ℕ) (jobs : List Job) (printers : List Printer) (i' : Job)
    → Unserved i' printers
    → Unserved i' (schedule_loop now i jobs printers).1
unfolding schedule_loop
schedule_loop-Unserved now i [] printers i' u = u
schedule_loop-Unserved now i (j ∷ jobs) printers i' u =
    let (a, b, c) = offered now i j printers jobs in
    schedule_loop-Unserved now (suc i) jobs _ i' (c i' u)

Reach-trans : {now : ℕ} {s t u : Board} → Reach now s t → Reach now t u → Reach now s u
Reach-trans here r = r
Reach-trans (next h q) r = next h (Reach-trans q r)

schedule_loop-Reach :
    (now i : ℕ) (jobs : List Job) (printers : List Printer)
    → let r = schedule_loop now i jobs printers in
      Reach now (jobs, printers) (r.0, r.1) × Settled (r.0, r.1)
unfolding schedule_loop
schedule_loop-Reach now i [] printers = (here, tt)
schedule_loop-Reach now i (j ∷ jobs) printers =
    let (a, b, c) = offered now i j printers jobs in
    let (d, e) = schedule_loop-Reach now (suc i) jobs _ in
    (Reach-trans a (Reach-cons _ d), (schedule_loop-Unserved now (suc i) jobs _ _ b, e))

abbrev pub board : Spooler → Board
board s = (s.jobs, s.printers)

-- The scheduling loop is a run of steps of the board, each of which starts a waiting job on a
-- printer that is fit for it.
pub schedule-Reach : (now : ℕ) (s : Spooler) → Reach now (board s) (board (schedule now s).0)
unfolding schedule
schedule-Reach now s = (schedule_loop-Reach now 0 s.jobs s.printers).0

-- When the scheduling loop has ended, no job that waits has a printer that is fit for it.
pub schedule-Settled : (now : ℕ) (s : Spooler) → Settled (board (schedule now s).0)
unfolding schedule
schedule-Settled now s = (schedule_loop-Reach now 0 s.jobs s.printers).1
