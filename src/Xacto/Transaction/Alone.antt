-- ===== src/Xacto/Transaction/Alone.antt =====
-- `trans_abort` where no transaction depends on another one.
use mathlib.Core.Path.{subst}
use c_language.Prelude.{
  ℕ, zero, suc, ◌+◌, ◌<◌, ◌≤◌, ◌≡◌, refl, sym, ap, ◌∙◌, inl, inr, false, some, List, [], ◌∷◌, ◌++◌,
  u32, length, append_assoc, All, arith, ◌==◌, ==_refl, Bool-cases,
}
use c_language.Xacto.Transaction.{
  Transaction, Manager, returns, find, update, change, first_id, next_after, next_of, pending,
  aborted, on_found, unlink, status_of, set_status, trans_get_status, trans_unref, holds,
}
use c_language.Xacto.Transaction.{pass, visit, visit_depends, trans_abort, abort_dependents}
use c_language.Xacto.Transaction.References.{IsManager, Rising, change-IsManager, find-update}

abbrev pub Alone : List Transaction → Type 0
Alone = All (λ t. t.depends ≡ [])

Rising-at :
    (lo hi : ℕ) (front : List Transaction) (t : Transaction) (rest : List Transaction)
    → Rising lo hi (front ++ t ∷ rest)
    → lo ≤ t.id
unfolding Rising
Rising-at lo hi [] t rest r = r.0
Rising-at lo hi (p ∷ front) t rest r =
    let h = Rising-at (suc p.id) hi front t rest r.1 in let l = r.0 in omega arith

found_at :
    (lo hi : ℕ) (front : List Transaction) (t : Transaction) (rest : List Transaction)
    → Rising lo hi (front ++ t ∷ rest)
    → find t.id (front ++ t ∷ rest) ≡ some t
unfolding Rising find
found_at lo hi [] t rest r = rw (==_refl t.id) refl
found_at lo hi (p ∷ front) t rest r =
    let h = Rising-at (suc p.id) hi front t rest r.1 in
    let other : (p.id == t.id) ≡ false = ground arith in
    rw other (found_at (suc p.id) hi front t rest r.1)

next_at :
    (lo hi : ℕ) (front : List Transaction) (t : Transaction) (rest : List Transaction)
    → Rising lo hi (front ++ t ∷ rest)
    → next_after t.id (front ++ t ∷ rest) ≡ some (first_id rest)
unfolding Rising next_after
next_at lo hi [] t rest r = rw (==_refl t.id) refl
next_at lo hi (p ∷ front) t rest r =
    let h = Rising-at (suc p.id) hi front t rest r.1 in
    let other : (p.id == t.id) ≡ false = ground arith in
    rw other (next_at (suc p.id) hi front t rest r.1)

next_here :
    (m : Manager) (front : List Transaction) (t : Transaction) (rest : List Transaction)
    → m.transactions ≡ front ++ t ∷ rest
    → Rising 1 m.counter (front ++ t ∷ rest)
    → next_of t.id m.transactions ≡ some (first_id rest)
unfolding next_of
next_here m front t rest q r =
    let h = Rising-at 1 m.counter front t rest r in
    let other : (t.id == 0) ≡ false = ground arith in
    rw (other, q) (next_at 1 m.counter front t rest r)

passes :
    (rounds tp : ℕ) (t : Transaction) (ts : List Transaction)
    → t.depends ≡ []
    → visit rounds tp (some t) ts ≡ pass
unfolding visit visit_depends
passes rounds tp t ts e = elim (Bool-cases (t.id == tp)) [
  | inl same ↦ rw same refl
  | inr other ↦ rw (other, e) refl
]

pub positive : (n : ℕ) → 1 ≤ n → (j : ℕ) × (n ≡ suc j)
positive zero l = absurd (omega arith)
positive (suc j) l = (j, refl)

module _ (held : List ℕ) (tp : ℕ) where
  -- The walk from `a` on, behind which `rest` follows.
  walk-Alone :
      (fuel a : ℕ) (m : Manager) (front rest : List Transaction)
      → m.transactions ≡ front ++ rest
      → Rising 1 m.counter (front ++ rest)
      → next_of a m.transactions ≡ some (first_id rest)
      → Alone rest
      → length rest < fuel
      → abort_dependents fuel held tp (some a) m ≡ returns m
  unfolding abort_dependents first_id
  walk-Alone zero a m front rest q r n h l = absurd (omega arith)
  walk-Alone (suc fuel) a m front [] q r n h l = rw (abort_dependents, n) refl
  walk-Alone (suc fuel) a m front (t ∷ rest) q r n h l =
      let (j, e) = positive t.id (Rising-at 1 m.counter front t rest r) in
      let n' : next_of a m.transactions ≡ some (suc j) = n ∙ ap (λ i. some i) e in
      let found : find t.id m.transactions ≡ some t = rw q (found_at 1 m.counter front t rest r) in
      let v : visit (suc fuel) tp (find t.id m.transactions) m.transactions ≡ pass =
        rw found (passes (suc fuel) tp t m.transactions h.0) in
      let v' = subst (λ i. visit (suc fuel) tp (find i m.transactions) m.transactions ≡ pass) e v in
      let split = sym (append_assoc front (t ∷ []) rest) in
      let ih =
        walk-Alone fuel t.id m (front ++ t ∷ []) rest (q ∙ split)
          (subst (Rising 1 m.counter) split r) (next_here m front t rest q r) h.1 (omega arith) in
      let ih' = subst (λ i. abort_dependents fuel held tp (some i) m ≡ returns m) e ih in
      rw (abort_dependents, n', v') ih'

update-Alone :
    (tp : ℕ) (ts : List Transaction)
    → Alone ts
    → Alone (update tp (λ t. record t { status = aborted }) ts)
unfolding update
update-Alone tp [] h = tt
update-Alone tp (t ∷ ts) h = elim (Bool-cases (t.id == tp)) [
  | inl e ↦ rw e h
  | inr e ↦ rw e (h.0, update-Alone tp ts h.1)
]

length-update :
    (tp : ℕ) (f : Transaction → Transaction) (ts : List Transaction)
    → length (update tp f ts) ≡ length ts
unfolding update
length-update tp f [] = refl
length-update tp f (t ∷ ts) = let ih = length-update tp f ts in ground arith

unref_returns :
    (tp : ℕ) (m : Manager) {t : Transaction}
    → find tp m.transactions ≡ some t
    → (m' : Manager) × (trans_unref tp m ≡ returns m')
unfolding trans_unref on_found change
unref_returns tp m {t} e = elim (Bool-cases (t.refcnt == 1)) [
  | inl one ↦ (record m { transactions = unlink tp m.transactions }, rw (e, one) refl)
  | inr more ↦
      (change m tp (λ t. record t { refcnt = u32 (t.refcnt + 4294967295) }), rw (e, more) refl)
]

Alone-aborts :
    (fuel tp : ℕ) (m : Manager)
    → IsManager m
    → trans_get_status tp m ≡ some pending
    → Alone m.transactions
    → length m.transactions < fuel
    → trans_abort (suc fuel) [] tp m ≡ trans_unref tp (set_status m tp aborted)
unfolding trans_abort holds IsManager set_status change next_of
Alone-aborts fuel tp m v e h l =
    let m' = set_status m tp aborted in
    let len = length-update tp (λ t. record t { status = aborted }) m.transactions in
    let walked =
      walk-Alone (tp ∷ []) tp fuel 0 m' [] m'.transactions refl
        (change-IsManager tp _ m (λ t. refl) v) refl (update-Alone tp m.transactions h)
        (omega arith) in
    rw (trans_abort, e, walked) refl

-- On a pending transaction of a well-formed list, where no transaction depends on another one and
-- the fuel is more than the number of the transactions by two, trans_abort returns, and what it
-- leaves is the transaction marked as aborted with one reference given up.
pub trans_abort-Alone :
    (fuel tp : ℕ) (m : Manager) {t : Transaction}
    → IsManager m
    → find tp m.transactions ≡ some t
    → t.status ≡ pending
    → Alone m.transactions
    → length m.transactions < fuel
    → (m' : Manager) × (trans_abort (suc fuel) [] tp m ≡ returns m')
      × (trans_unref tp (set_status m tp aborted) ≡ returns m')
unfolding trans_get_status status_of set_status change
trans_abort-Alone fuel tp m v e s h l =
    let live : status_of (find tp m.transactions) ≡ some pending = rw e (ap (λ x. some x) s) in
    let (m', r) =
      unref_returns tp (set_status m tp aborted)
        (find-update tp (λ t. record t { status = aborted }) m.transactions (λ t. refl) e) in
    (m', Alone-aborts fuel tp m v live h l ∙ r, r)
