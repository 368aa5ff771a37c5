-- ===== src/Spooler/Invariant/Switches.antt =====
-- `disable` and `enable` of hw4/src/main.c keep what holds of the tables.
use c_language.Prelude.{
  ℕ, zero, suc, ◌≤◌, ◌≡◌, refl, sym, ap, ◌∙◌, inl, inr, List, [], ◌∷◌, All, ◌==◌, Bool-cases,
  same_text,
}
use c_language.Spooler.State.{Text, Printer, Spooler}
use c_language.Spooler.Schedule.{
  Switch, disable_row, disable_loop, enable_row, enable_loop, switched, disable, enable,
}
use c_language.Spooler.Invariant.{row, catalogue, busy_at, IsSpooler}
use c_language.Spooler.Invariant.Tables.{Always}

-- Two tables of printers that differ in their switches at most.
record Alike (a b : List Printer) : Type 0 where
  rows : catalogue b ≡ catalogue a
  busy_same : (k : ℕ) → busy_at b k ≡ busy_at a k
  flags_same : All (λ p. p.busy ≤ 1) a → All (λ p. p.busy ≤ 1) b

Alike-refl : (a : List Printer) → Alike a a
Alike-refl a = record { rows = refl; busy_same = λ k. refl; flags_same = λ h. h }

Alike-cons :
    (p q : Printer) (a b : List Printer)
    → row q ≡ row p
    → q.busy ≡ p.busy
    → Alike a b
    → Alike (p ∷ a) (q ∷ b)
unfolding busy_at
Alike-cons p q a b e f h = record {
  rows = ap (λ z. z ∷ catalogue b) e ∙ ap (λ z. row p ∷ z) h.rows;
  busy_same = same;
  flags_same = λ g. (rw f g.0, h.flags_same g.1);
}
  where
    same : (k : ℕ) → busy_at (q ∷ b) k ≡ busy_at (p ∷ a) k
    same zero = f
    same (suc k) = h.busy_same k

disable_row-Alike :
    (name : Text) (p : Printer) (ps : List Printer) (r : Switch)
    → Alike ps r.1
    → Alike (p ∷ ps) (disable_row name p ps r).1
unfolding disable_row
disable_row-Alike name p ps r h = elim (Bool-cases (same_text p.name name)) [
  | inl e ↦ elim (Bool-cases (p.enabled == 0)) [
    | inl f ↦ rw (e, f) (Alike-refl _)
    | inr f ↦ rw (e, f) (Alike-cons p _ ps _ refl refl h)
  ]
  | inr e ↦ rw e (Alike-cons p p ps _ refl refl h)
]

enable_row-Alike :
    (name : Text) (p : Printer) (ps : List Printer) (r : Switch)
    → Alike ps r.1
    → Alike (p ∷ ps) (enable_row name p ps r).1
unfolding enable_row
enable_row-Alike name p ps r h = elim (Bool-cases (same_text p.name name)) [
  | inl e ↦ elim (Bool-cases (p.enabled == 1)) [
    | inl f ↦ rw (e, f) (Alike-refl _)
    | inr f ↦ rw (e, f) (Alike-cons p _ ps _ refl refl h)
  ]
  | inr e ↦ rw e (Alike-cons p p ps _ refl refl h)
]

disable_loop-Alike : (name : Text) (ps : List Printer) → Alike ps (disable_loop name ps).1
unfolding disable_loop
disable_loop-Alike name [] = Alike-refl []
disable_loop-Alike name (p ∷ ps) =
    disable_row-Alike name p ps (disable_loop name ps) (disable_loop-Alike name ps)

enable_loop-Alike : (name : Text) (ps : List Printer) → Alike ps (enable_loop name ps).1
unfolding enable_loop
enable_loop-Alike name [] = Alike-refl []
enable_loop-Alike name (p ∷ ps) =
    enable_row-Alike name p ps (enable_loop name ps) (enable_loop-Alike name ps)

switched-IsSpooler :
    (s : Spooler) (r : Switch)
    → Alike s.printers r.1
    → IsSpooler s
    → Always IsSpooler (switched s r)
unfolding switched
switched-IsSpooler s r h i = record {
  matched = record {
    ids = rw h.rows i.matched.ids;
    served = rw h.rows i.matched.served;
    flags = h.flags_same i.matched.flags;
    balanced = λ k. i.matched.balanced k ∙ sym (h.busy_same k);
  };
  names = rw h.rows i.names;
  printers_room = rw h.rows i.printers_room;
  jobs_room = i.jobs_room;
  types_room = i.types_room;
  conversions_room = i.conversions_room;
  printable = rw h.rows i.printable;
  declared = i.declared;
  jobids = i.jobids;
}

pub disable-IsSpooler :
    (s : Spooler) (name : Text) → IsSpooler s → Always IsSpooler (disable s name)
disable-IsSpooler s name i = switched-IsSpooler s _ (disable_loop-Alike name s.printers) i

pub enable-IsSpooler : (s : Spooler) (name : Text) → IsSpooler s → Always IsSpooler (enable s name)
enable-IsSpooler s name i = switched-IsSpooler s _ (enable_loop-Alike name s.printers) i
