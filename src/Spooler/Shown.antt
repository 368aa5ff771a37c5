-- ===== src/Spooler/Shown.antt =====
-- Where every job has a printer in the row with its number, the scheduling loop of hw4/src/main.c
-- shows only printers that are there.
use c_language.Prelude.{
  ℕ, zero, suc, ◌+◌, ◌<◌, ◌≤◌, ◌≡◌, refl, ap, inl, inr, true, Option, some, none, List, [], ◌∷◌,
  length, get_elem?, arith, Bool-cases, Option-cases,
}
use c_language.Spooler.State.{Printer, Job, Spooler}
use c_language.Spooler.Schedule.{can_print, keep_row, offer, after_offer, schedule_loop, schedule}
use c_language.Spooler.Rounds.{all_there}

in_table : (ps : List Printer) (i : ℕ) → i < length ps → (p : Printer) × (get_elem? ps i ≡ some p)
in_table [] i h = absurd (omega arith)
in_table (p ∷ ps) zero h = (p, refl)
in_table (p ∷ ps) (suc i) h = in_table ps i (omega arith)

module _ (now : ℕ) where
  SameRows : ℕ → Option (Job × List Printer) → Type 0
  SameRows n none = Unit
  SameRows n (some r) = length r.1 ≡ n

  keep_row-SameRows :
      (p : Printer) (n : ℕ) (o : Option (Job × List Printer))
      → SameRows n o
      → SameRows (suc n) (keep_row p o)
  unfolding SameRows
  keep_row-SameRows p n none h = tt
  keep_row-SameRows p n (some r) h = ap suc h

  offer-SameRows : (j : Job) (k : ℕ) (ps : List Printer) → SameRows (length ps) (offer now j k ps)
  unfolding SameRows offer
  offer-SameRows j k [] = tt
  offer-SameRows j k (p ∷ ps) = elim (Bool-cases (can_print j p)) [
    | inl e ↦ rw e refl
    | inr e ↦ rw e (keep_row-SameRows p (length ps) _ (offer-SameRows j (suc k) ps))
  ]

  pub schedule_loop_shows :
      (i : ℕ) (jobs : List Job) (ps : List Printer)
      → i + length jobs ≤ length ps
      → all_there (schedule_loop now i jobs ps).2 ≡ true
  unfolding schedule_loop after_offer all_there SameRows
  schedule_loop_shows i [] ps h = refl
  schedule_loop_shows i (j ∷ jobs) ps h = elim (Option-cases (offer now j 0 ps)) [
    | inl e ↦ rw e (schedule_loop_shows (suc i) jobs ps (omega arith))
    | inr (r, e) ↦
        let same : length r.1 ≡ length ps = rw e at (offer-SameRows j 0 ps) in
        let (p, f) = in_table r.1 i (omega arith) in
        rw (e, f) (schedule_loop_shows (suc i) jobs r.1 (omega arith))
  ]

  pub schedule_shows :
      (s : Spooler) → length s.jobs ≤ length s.printers → all_there (schedule now s).1 ≡ true
  unfolding schedule
  schedule_shows s h = schedule_loop_shows 0 s.jobs s.printers (omega arith)
