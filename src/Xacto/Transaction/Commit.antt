-- ===== src/Xacto/Transaction/Commit.antt =====
-- How `trans_commit` ends, by the statuses of the dependency set.
use c_language.Prelude.{or_false}
use c_language.Prelude.{
  ℕ, zero, suc, ◌≤◌, ◌≡◌, refl, Bool, true, false, ◌||◌, not, Option, none, some,
}
use c_language.Prelude.{List, [], ◌∷◌, length, arith, Bool-cases, inl, inr, ◌⊎◌}
use c_language.Xacto.Transaction.{
  TransStatus, Transaction, Manager, returns, stuck, find, set_status, pending, committed,
}
use c_language.Xacto.Transaction.{
  aborted, ◌>>>=◌, trans_unref, is_committed, is_aborted, commit_now, end_round,
}
use c_language.Xacto.Transaction.{
  commit_round, commit_loop, commit_depends, commit_found, trans_commit, go_on, leave,
}

has_status_aborted : TransStatus → Bool
has_status_aborted pending = false
has_status_aborted committed = false
has_status_aborted aborted = true

has_status_committed : TransStatus → Bool
has_status_committed pending = false
has_status_committed committed = true
has_status_committed aborted = false

is_aborted_same : (s : TransStatus) → has_status_aborted s ≡ is_aborted s
unfolding has_status_aborted is_aborted
is_aborted_same pending = refl
is_aborted_same committed = refl
is_aborted_same aborted = refl

is_committed_same : (s : TransStatus) → has_status_committed s ≡ is_committed s
unfolding has_status_committed is_committed
is_committed_same pending = refl
is_committed_same committed = refl
is_committed_same aborted = refl

-- Of a transaction that a dependency names.
aborted_at : Option Transaction → Bool
aborted_at none = false
aborted_at (some t) = has_status_aborted t.status

committed_at : Option Transaction → Bool
committed_at none = false
committed_at (some t) = has_status_committed t.status

pub has_aborted : List Transaction → List ℕ → Bool
has_aborted ts [] = false
has_aborted ts (d ∷ ds) = aborted_at (find d ts) || has_aborted ts ds

-- Some dependency has not committed.
pub has_open : List Transaction → List ℕ → Bool
has_open ts [] = false
has_open ts (d ∷ ds) = not (committed_at (find d ts)) || has_open ts ds

unfoldable pub AreLive : List Transaction → List ℕ → Type 0
AreLive ts [] = Unit
AreLive ts (d ∷ ds) = ((t : Transaction) × (find d ts ≡ some t)) × AreLive ts ds

or_none : (a : Bool) → (a || false) ≡ true → a ≡ true
or_none true e = refl
or_none false e = e

or_last : (flag a : Bool) → (flag || (a || false)) ≡ true → (flag || a) ≡ true
or_last true a e = refl
or_last false true e = refl
or_last false false e = e

or_assoc : (flag a b : Bool) → (flag || (a || b)) ≡ true → ((flag || a) || b) ≡ true
or_assoc true a b e = refl
or_assoc false a b e = e

-- One round, at a live dependency.
round_aborted :
    (tp : ℕ) (all : List ℕ) (d : Transaction) (rest : List ℕ) (flag : Bool) (m : Manager)
    → is_aborted d.status ≡ true
    → commit_round tp all (some d) rest flag m ≡ leave (returns (aborted, set_status m tp aborted))
unfolding commit_round
round_aborted tp all d rest flag m e = rw e refl

goes_next :
    (tp : ℕ) (all : List ℕ) (t : Transaction) (d : ℕ) (rest : List ℕ) (flag : Bool) (m : Manager)
    → is_aborted t.status ≡ false
    → commit_round tp all (some t) (d ∷ rest) flag m
      ≡ go_on d rest (flag || not (is_committed t.status))
unfolding commit_round end_round
goes_next tp all t d rest flag m n = rw n refl

decides :
    (tp first : ℕ) (others : List ℕ) (t : Transaction) (flag : Bool) (m : Manager)
    → is_aborted t.status ≡ false
    → (flag || not (is_committed t.status)) ≡ false
    → commit_round tp (first ∷ others) (some t) [] flag m ≡ leave (commit_now tp m)
unfolding commit_round end_round
decides tp first others t flag m n e = rw (n, e) refl

again :
    (tp first : ℕ) (others : List ℕ) (t : Transaction) (flag : Bool) (m : Manager)
    → is_aborted t.status ≡ false
    → (flag || not (is_committed t.status)) ≡ true
    → commit_round tp (first ∷ others) (some t) [] flag m ≡ go_on first others false
unfolding commit_round end_round
again tp first others t flag m n e = rw (n, e) refl

-- The scan of the rest of the set, when a dependency in it has aborted.
scan_aborted :
    (k tp : ℕ) (all : List ℕ) (d : ℕ) (rest : List ℕ) (flag : Bool) (m : Manager)
    → length (d ∷ rest) ≤ k
    → AreLive m.transactions (d ∷ rest)
    → has_aborted m.transactions (d ∷ rest) ≡ true
    → commit_loop k tp all d rest flag m ≡ returns (aborted, set_status m tp aborted)
unfolding commit_loop AreLive has_aborted aborted_at
scan_aborted zero tp all d rest flag m l v a = absurd (omega arith)
scan_aborted (suc k) tp all d [] flag m l ((t, e), v) a =
    let h = rw (e, is_aborted_same t.status) at a in
    let q = or_none _ h in rw (commit_loop, e, round_aborted tp all t [] flag m q) refl
scan_aborted (suc k) tp all d (d2 ∷ rest) flag m l ((t, e), v) a =
    elim (Bool-cases (is_aborted t.status)) [
      | inl y ↦ rw (commit_loop, e, round_aborted tp all t (d2 ∷ rest) flag m y) refl
      | inr n ↦
          rw (commit_loop, e, goes_next tp all t d2 rest flag m n)
            (scan_aborted k tp all d2 rest (flag || not (is_committed t.status)) m (omega arith) v
              (rw (e, is_aborted_same t.status, n) at a))
    ]

-- When all have committed.
scan_committed :
    (k tp : ℕ) (first : ℕ) (others : List ℕ) (d : ℕ) (rest : List ℕ) (m : Manager)
    → length (d ∷ rest) ≤ k
    → AreLive m.transactions (d ∷ rest)
    → has_aborted m.transactions (d ∷ rest) ≡ false
    → has_open m.transactions (d ∷ rest) ≡ false
    → commit_loop k tp (first ∷ others) d rest false m ≡ commit_now tp m
unfolding commit_loop AreLive has_aborted aborted_at has_open committed_at
scan_committed zero tp first others d rest m l v a o = absurd (omega arith)
scan_committed (suc k) tp first others d [] m l ((t, e), v) a o =
    let (n, _) = or_false _ _ (rw (e, is_aborted_same t.status) at a) in
    let (c, _) =
      or_false (not (is_committed t.status)) false (rw (e, is_committed_same t.status) at o) in
    rw (commit_loop, e, decides tp first others t false m n c) refl
scan_committed (suc k) tp first others d (d2 ∷ rest) m l ((t, e), v) a o =
    let (n, a') = or_false _ _ (rw (e, is_aborted_same t.status) at a) in
    let (c, o') =
      or_false (not (is_committed t.status)) (has_open m.transactions (d2 ∷ rest))
        (rw (e, is_committed_same t.status) at o) in
    rw (commit_loop, e, goes_next tp (first ∷ others) t d2 rest false m n, c)
      (scan_committed k tp first others d2 rest m (omega arith) v a' o')

-- When none has aborted and one is open, the loop does not end.
scan_open :
    (k tp : ℕ) (first : ℕ) (others : List ℕ) (d : ℕ) (rest : List ℕ) (flag : Bool) (m : Manager)
    → AreLive m.transactions (d ∷ rest)
    → has_aborted m.transactions (d ∷ rest) ≡ false
    → (flag || has_open m.transactions (d ∷ rest)) ≡ true
    → AreLive m.transactions (first ∷ others)
    → has_aborted m.transactions (first ∷ others) ≡ false
    → has_open m.transactions (first ∷ others) ≡ true
    → commit_loop k tp (first ∷ others) d rest flag m ≡ stuck
unfolding commit_loop AreLive has_aborted aborted_at has_open committed_at
scan_open zero tp first others d rest flag m v a o va aa oa = refl
scan_open (suc k) tp first others d [] flag m ((t, e), v) a o va aa oa =
    let (n, _) = or_false _ _ (rw (e, is_aborted_same t.status) at a) in
    let f : (flag || not (is_committed t.status)) ≡ true =
      or_last flag _ (rw (e, is_committed_same t.status) at o) in
    rw (commit_loop, e, again tp first others t flag m n f)
      (scan_open k tp first others first others false m va aa oa va aa oa)
scan_open (suc k) tp first others d (d2 ∷ rest) flag m ((t, e), v) a o va aa oa =
    let (n, a') = or_false _ _ (rw (e, is_aborted_same t.status) at a) in
    rw (commit_loop, e, goes_next tp (first ∷ others) t d2 rest flag m n)
      (scan_open k tp first others d2 rest (flag || not (is_committed t.status)) m v a'
        (or_assoc flag _ _ (rw (e, is_committed_same t.status) at o)) va aa oa)

nothing_aborted : (ts : List Transaction) → has_aborted ts [] ≡ false
unfolding has_aborted
nothing_aborted ts = refl

nothing_open : (ts : List Transaction) → has_open ts [] ≡ false
unfolding has_open
nothing_open ts = refl

-- The three endings, at the dependency set itself.
by_depends :
    (fuel tp : ℕ) (ds : List ℕ) (m : Manager)
    → AreLive m.transactions ds
    → length ds ≤ fuel
    → ((has_aborted m.transactions ds ≡ true)
        × (commit_depends fuel tp ds m ≡ returns (aborted, set_status m tp aborted)))
      ⊎ (((has_aborted m.transactions ds ≡ false)
            × (has_open m.transactions ds ≡ true)
            × ((k : ℕ) → commit_depends k tp ds m ≡ stuck))
          ⊎ ((has_aborted m.transactions ds ≡ false)
              × (has_open m.transactions ds ≡ false)
              × (commit_depends fuel tp ds m ≡ commit_now tp m)))
unfolding commit_depends
by_depends fuel tp [] m v l =
    inr (inr (nothing_aborted m.transactions, nothing_open m.transactions, refl))
by_depends fuel tp (d ∷ rest) m v l = elim (Bool-cases (has_aborted m.transactions (d ∷ rest))) [
  | inl a ↦ inl (a, scan_aborted fuel tp (d ∷ rest) d rest false m l v a)
  | inr a ↦ inr (elim (Bool-cases (has_open m.transactions (d ∷ rest))) [
    | inl o ↦ inl (a, o, λ k. scan_open k tp d rest d rest false m v a o v a o)
    | inr o ↦ inr (a, o, scan_committed fuel tp d rest d rest m l v a o)
  ])
]

-- Of a pending transaction whose dependencies are live, with rounds for the whole set: it aborts
-- where one of them has aborted; else it spins, however many rounds it is given, where one of
-- them has not committed; and else it commits, which gives up its reference.
pub trans_commit_cases :
    (fuel tp : ℕ) (m : Manager) {t : Transaction}
    → find tp m.transactions ≡ some t
    → t.status ≡ pending
    → AreLive m.transactions t.depends
    → length t.depends ≤ fuel
    → ((has_aborted m.transactions t.depends ≡ true)
        × (trans_commit fuel tp m ≡ returns (aborted, set_status m tp aborted)))
      ⊎ (((has_aborted m.transactions t.depends ≡ false)
            × (has_open m.transactions t.depends ≡ true)
            × ((k : ℕ) → trans_commit k tp m ≡ stuck))
          ⊎ ((has_aborted m.transactions t.depends ≡ false)
              × (has_open m.transactions t.depends ≡ false)
              × (trans_commit fuel tp m ≡ (
                  trans_unref tp (set_status m tp committed) >>>= λ m'. returns (committed, m')))))
unfolding trans_commit commit_found commit_now
trans_commit_cases fuel tp m {t} e live v l = rw e (by_depends fuel tp t.depends m v l)
