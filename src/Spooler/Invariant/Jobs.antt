-- ===== src/Spooler/Invariant/Jobs.antt =====
-- `print` and `cancel` of hw4/src/main.c keep what holds of the tables.
use c_language.Prelude.{is_true, and_true}
use c_language.Prelude.{
  ℕ, ◌≡◌, refl, sym, ◌∙◌, inl, inr, Bool, true, not, ◌||◌, ◌&&◌, Option, none, some, List, [], ◌∷◌,
  ◌++◌, map, length, All, All-append, arith, ltb, ◌==◌, Bool-cases,
}
use c_language.Prelude.{map-append, length-map}
use c_language.Spooler.State.{
  Text, queued, running, paused, completed, aborted, JobStatus, Job, Spooler,
}
use c_language.Spooler.Texts.{fits}
use c_language.Spooler.Commands.{
  is_declared, few_parts, type_of_file, no_part, new_job, enqueue_typed, on_type, enqueue,
  any_printer, on_eligible, print_on, print_file, eligible_loop,
}
use c_language.Spooler.Schedule.{is_queued, cancelled, cancel_job, any_cancelled, cancel}
use c_language.Spooler.Invariant.{Row, ticket, tickets, Serves, Served, holders, IsSpooler}
use c_language.Spooler.Invariant.Board.{holders-append}
use c_language.Spooler.Invariant.Tables.{Always, Always-if, add_room}
use c_language.Spooler.Invariant.Printers.{Numbered-append}

module _ (shown : Bool) (now : ℕ) (s : Spooler) (i : IsSpooler s) where
  add_job :
      (file type : Text) (eligible : ℕ)
      → is_declared type s.types ≡ true
      → ltb (length s.jobs) 1024 ≡ true
      → IsSpooler (record s { jobs = s.jobs ++ new_job s now file type eligible ∷ [] })
  unfolding holders
  add_job file type eligible known room =
      let j = new_job s now file type eligible in
      let all : tickets (s.jobs ++ j ∷ []) ≡ tickets s.jobs ++ ticket j ∷ [] =
        map-append ticket s.jobs (j ∷ []) in
      let counted = length-map ticket s.jobs in
      record {
        matched = record {
          ids = i.matched.ids;
          served = All-append _ _ _ i.matched.served (refl, tt);
          flags = i.matched.flags;
          balanced = λ k. holders-append k s.jobs (j ∷ []) ∙ (omega arith ∙ i.matched.balanced k);
        };
        names = i.names;
        printers_room = i.printers_room;
        jobs_room = rw all (add_room (tickets s.jobs) (ticket j) 1024 (rw counted room));
        types_room = i.types_room;
        conversions_room = i.conversions_room;
        printable = i.printable;
        declared = rw all (All-append _ _ _ i.declared (known, tt));
        jobids = rw all (Numbered-append _ 0 _ (ticket j) i.jobids (sym counted ∙ omega arith));
      }

  enqueue-IsSpooler :
      (file : Text) (eligible : ℕ) → Always IsSpooler (enqueue shown now s file eligible)
  unfolding enqueue enqueue_typed
  enqueue-IsSpooler file eligible =
      Always-if _ (fits file && few_parts file) _ _ (λ _. typed (type_of_file file)) λ _. tt
    where
      partless : (types : List Text) → Always IsSpooler (no_part s types)
      partless [] = i
      partless (t ∷ types) = tt

      typed :
          (o : Option Text)
          → Always IsSpooler (on_type s o (enqueue_typed shown now s file eligible))
      typed none = partless s.types
      typed (some t) =
          Always-if _ (not (is_declared t s.types)) _ _ (λ _. i)
            λ known.
              Always-if _ (ltb (length s.jobs) 1024) _ _
                (λ room. add_job file t eligible (is_true _ known) room) λ _. tt

  print_on-IsSpooler :
      (file : Text) (names : List Text) (o : Option (ℕ × ℕ))
      → Always IsSpooler (on_eligible o (print_on shown now s file names))
  unfolding print_on
  print_on-IsSpooler file names none = tt
  print_on-IsSpooler file names (some r) =
      Always-if _ (r.1 == length names) _ _ (λ _. enqueue-IsSpooler file r.0) λ _. i

  pub print_file-IsSpooler :
      (file : Text) (names : List Text) → Always IsSpooler (print_file shown now s file names)
  unfolding print_file
  print_file-IsSpooler file [] = enqueue-IsSpooler file any_printer
  print_file-IsSpooler file (name ∷ names) =
      print_on-IsSpooler file (name ∷ names) (eligible_loop s.printers (name ∷ names) 0 0)

-- A cancelled job keeps its printer field, its number and its type.
abort_Served :
    (rows : List Row) (chosen : Option ℕ) (type : Text) (eligible : ℕ) (status : JobStatus)
    → is_queued status ≡ true
    → Served rows chosen type eligible status
    → Served rows chosen type eligible aborted
abort_Served rows chosen type eligible queued e h = h
abort_Served rows chosen type eligible running e h = cc
abort_Served rows chosen type eligible paused e h = cc
abort_Served rows chosen type eligible completed e h = cc
abort_Served rows chosen type eligible aborted e h = cc

module _ (file : Text) where
  cancel_job-Serves : (rows : List Row) (j : Job) → Serves rows j → Serves rows (cancel_job file j)
  unfolding cancel_job
  cancel_job-Serves rows j h = elim (Bool-cases (cancelled file j)) [
    | inl e ↦ rw e (abort_Served rows _ _ _ j.status (and_true _ _ e).1 h)
    | inr e ↦ rw e h
  ]

  cancel_job_keeps :
      (j : Job)
      → (ticket (cancel_job file j) ≡ ticket j)
        × ((cancel_job file j).chosen_printer ≡ j.chosen_printer)
  unfolding cancel_job
  cancel_job_keeps j = elim (Bool-cases (cancelled file j)) [
    | inl e ↦ (rw e refl, rw e refl)
    | inr e ↦ (rw e refl, rw e refl)
  ]

  cancel_served :
      (rows : List Row) (jobs : List Job)
      → All (Serves rows) jobs
      → All (Serves rows) (map (cancel_job file) jobs)
  cancel_served rows [] h = tt
  cancel_served rows (j ∷ jobs) h = (cancel_job-Serves rows j h.0, cancel_served rows jobs h.1)

  cancel_tickets : (jobs : List Job) → tickets (map (cancel_job file) jobs) ≡ tickets jobs
  cancel_tickets [] = refl
  cancel_tickets (j ∷ jobs) = rw ((cancel_job_keeps j).0, cancel_tickets jobs) refl

  cancel_holders :
      (k : ℕ) (jobs : List Job) → holders k (map (cancel_job file) jobs) ≡ holders k jobs
  unfolding holders
  cancel_holders k [] = refl
  cancel_holders k (j ∷ jobs) = rw ((cancel_job_keeps j).1, cancel_holders k jobs) refl

  pub cancel-IsSpooler : (s : Spooler) → IsSpooler s → Always IsSpooler (cancel s file)
  unfolding cancel
  cancel-IsSpooler s i =
      let same = cancel_tickets s.jobs in
      Always-if _ (ltb (length s.jobs) 1024 || not (any_cancelled file s.jobs)) _ _
        (λ _. record {
          matched = record {
            ids = i.matched.ids;
            served = cancel_served _ s.jobs i.matched.served;
            flags = i.matched.flags;
            balanced = λ k. cancel_holders k s.jobs ∙ i.matched.balanced k;
          };
          names = i.names;
          printers_room = i.printers_room;
          jobs_room = rw same i.jobs_room;
          types_room = i.types_room;
          conversions_room = i.conversions_room;
          printable = i.printable;
          declared = rw same i.declared;
          jobids = rw same i.jobids;
        })
        λ _. tt
