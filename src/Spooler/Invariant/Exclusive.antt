-- ===== src/Spooler/Invariant/Exclusive.antt =====
-- No printer is given to two running jobs of hw4/src/main.c at a time.
use c_language.Prelude.{
  ℕ, zero, suc, ◌≤◌, ◌≡◌, refl, sym, ap, ◌∙◌, Option, some, List, [], ◌∷◌, All, All-get_elem?,
  arith, get_elem?,
}
use mathlib.Core.Option.{some-injective}
use c_language.Spooler.State.{Text, Printer, Job, running, Spooler}
use c_language.Spooler.Rounds.{Session, waiting, ended, crashed, spool}
use c_language.Spooler.Invariant.{Row, Served, Serves, held, holders, busy_at, IsSpooler}
use c_language.Spooler.Invariant.Runs.{Leaves, spool-IsSpooler}

abbrev pub Exclusive : Spooler → Type 0
Exclusive s =
    (m n : ℕ) (j i : Job)
    → get_elem? s.jobs m ≡ some j
    → get_elem? s.jobs n ≡ some i
    → j.status ≡ running
    → i.status ≡ running
    → j.chosen_printer ≡ i.chosen_printer
    → m ≡ n

holders-positive :
    (k : ℕ) (jobs : List Job) (m : ℕ) (j : Job)
    → get_elem? jobs m ≡ some j
    → held k j.chosen_printer ≡ 1
    → 1 ≤ holders k jobs
unfolding holders
holders-positive k [] m j e h = cc
holders-positive k (x ∷ jobs) zero j e h =
    let q : held k x.chosen_printer ≡ 1 =
      ap (λ z. held k z.chosen_printer) (some-injective x j e) ∙ h in
    omega arith
holders-positive k (x ∷ jobs) (suc m) j e h =
    let ih = holders-positive k jobs m j e h in omega arith

holders-single :
    (k : ℕ) (jobs : List Job) (m n : ℕ) (j i : Job)
    → get_elem? jobs m ≡ some j
    → get_elem? jobs n ≡ some i
    → held k j.chosen_printer ≡ 1
    → held k i.chosen_printer ≡ 1
    → holders k jobs ≤ 1
    → m ≡ n
unfolding holders
holders-single k [] m n j i e f g h l = cc
holders-single k (x ∷ jobs) zero zero j i e f g h l = refl
holders-single k (x ∷ jobs) zero (suc n) j i e f g h l =
    let q : held k x.chosen_printer ≡ 1 =
      ap (λ z. held k z.chosen_printer) (some-injective x j e) ∙ g in
    let r = holders-positive k jobs n i f h in absurd (omega arith)
holders-single k (x ∷ jobs) (suc m) zero j i e f g h l =
    let q : held k x.chosen_printer ≡ 1 =
      ap (λ z. held k z.chosen_printer) (some-injective x i f) ∙ h in
    let r = holders-positive k jobs m j e g in absurd (omega arith)
holders-single k (x ∷ jobs) (suc m) (suc n) j i e f g h l =
    ap suc (holders-single k jobs m n j i e f g h (omega arith))

busy_at-le_one : (ps : List Printer) (k : ℕ) → All (λ p. p.busy ≤ 1) ps → busy_at ps k ≤ 1
unfolding busy_at
busy_at-le_one [] k h = omega arith
busy_at-le_one (p ∷ ps) zero h = h.0
busy_at-le_one (p ∷ ps) (suc k) h = busy_at-le_one ps k h.1

held_self : (k : ℕ) → held k (some k) ≡ 1
held_self k = ground arith

running_chosen :
    (rows : List Row) (j : Job)
    → Serves rows j
    → j.status ≡ running
    → (k : ℕ) × (j.chosen_printer ≡ some k)
running_chosen rows j h e = let (k, r, c, _, _, _) = served in (k, c)
  where
    served : Served rows j.chosen_printer j.file_type j.eligible_printers running
    served = rw e at h

IsSpooler-Exclusive : (s : Spooler) → IsSpooler s → Exclusive s
IsSpooler-Exclusive s h m n j i e f p q c =
    let b = h.matched in
    let (k, at) = running_chosen _ j (All-get_elem? _ s.jobs m j b.served e) p in
    let g : held k j.chosen_printer ≡ 1 = ap (held k) at ∙ held_self k in
    let g' : held k i.chosen_printer ≡ 1 = ap (held k) (sym c ∙ at) ∙ held_self k in
    let l : holders k s.jobs ≤ 1 = rw (b.balanced k) (busy_at-le_one s.printers k b.flags) in
    holders-single k s.jobs m n j i e f g g' l

Leaves-weaken :
    (P Q : Spooler → Type 0) (r : Session) → ((s : Spooler) → P s → Q s) → Leaves P r → Leaves Q r
Leaves-weaken P Q (waiting s out) f h = f s h
Leaves-weaken P Q (ended s out) f h = f s h
Leaves-weaken P Q crashed f h = tt

-- In the tables that a run leaves, no two running jobs have chosen the same printer.
pub spool-Exclusive :
    (clock : ℕ → ℕ) (content : Option Text) (lines : List Text)
    → Leaves Exclusive (spool clock content lines)
spool-Exclusive clock content lines =
    Leaves-weaken IsSpooler Exclusive (spool clock content lines) IsSpooler-Exclusive
      (spool-IsSpooler clock content lines)
