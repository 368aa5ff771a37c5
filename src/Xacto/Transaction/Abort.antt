-- ===== src/Xacto/Transaction/Abort.antt =====
-- What `trans_abort` leaves where it returns.
use mathlib.Core.Option.{some-injective}
use c_language.Prelude.{ℕ, zero, suc, ◌<◌, ◌≡◌, sym, refl, ◌∙◌, Option, none, some}
use c_language.Prelude.{
  List, [], ◌∷◌, arith, ◌==◌, Bool-cases, Option-cases, All, ==_iff, ==_ne, inl, inr, ◌⊎◌,
}
use c_language.Xacto.Transaction.{
  TransStatus, Transaction, Manager, Outcome, returns, exits, stuck, dangling, ◌>>>=◌, find,
  set_status,
}
use c_language.Xacto.Transaction.{
  pending, committed, aborted, trans_unref, trans_get_status, next_of, update, change, status_of,
  holds,
}
use c_language.Xacto.Transaction.{
  Visit, pass, abort_it, no_end, dangles, visit, trans_abort, abort_dependents, on_found, unlink,
}
use c_language.Xacto.Transaction.References.{
  IsManager, Rising, Leaves, trans_unref-IsManager, change-IsManager,
}

set_status-IsManager :
    (m : Manager) (tp : ℕ) (s : TransStatus) → IsManager m → IsManager (set_status m tp s)
unfolding set_status
set_status-IsManager m tp s v = change-IsManager tp _ m (λ t. refl) v

Leaves-bind :
    (P : Manager → Type 0) (o : Outcome Manager) (f : Manager → Outcome Manager)
    → Leaves P o
    → ((m : Manager) → P m → Leaves P (f m))
    → Leaves P (o >>>= f)
unfolding Leaves
Leaves-bind P (returns m) f l k = k m l
Leaves-bind P exits f l k = tt
Leaves-bind P stuck f l k = tt
Leaves-bind P dangling f l k = tt

-- The ways the two calls go.
by_status :
    (s : Option TransStatus)
    → (s ≡ none) ⊎ ((s ≡ some committed) ⊎ ((s ≡ some aborted) ⊎ (s ≡ some pending)))
by_status none = inl refl
by_status (some committed) = inr (inl refl)
by_status (some aborted) = inr (inr (inl refl))
by_status (some pending) = inr (inr (inr refl))

by_visit : (v : Visit) → (v ≡ pass) ⊎ ((v ≡ no_end) ⊎ ((v ≡ dangles) ⊎ (v ≡ abort_it)))
by_visit pass = inl refl
by_visit no_end = inr (inl refl)
by_visit dangles = inr (inr (inl refl))
by_visit abort_it = inr (inr (inr refl))

by_next : (o : Option ℕ) → (o ≡ none) ⊎ ((o ≡ some 0) ⊎ ((n : ℕ) × (o ≡ some (suc n))))
by_next none = inl refl
by_next (some zero) = inr (inl refl)
by_next (some (suc n)) = inr (inr (n, refl))

-- What holds of the list whatever transaction is marked as aborted, and whatever reference is
-- given up, holds behind an abort and behind its walk.
module _ (P : Manager → Type 0) (marks : (tp : ℕ) (m : Manager) → P m → P (set_status m tp aborted))
    (unrefs : (tp : ℕ) (m : Manager) → P m → Leaves P (trans_unref tp m)) where
  mutual
    unfolding trans_abort abort_dependents Leaves

    abort_keeps :
        (fuel : ℕ) (held : List ℕ) (tp : ℕ) (m : Manager)
        → P m
        → Leaves P (trans_abort fuel held tp m)
    abort_keeps zero held tp m v = tt
    abort_keeps (suc fuel) held tp m v = elim (Bool-cases (holds tp held)) [
      | inl h ↦ rw (trans_abort, h) tt
      | inr h ↦ elim (by_status (trans_get_status tp m)) [
        | inl e ↦ rw (trans_abort, h, e) tt
        | inr (inl e) ↦ rw (trans_abort, h, e) tt
        | inr (inr (inl e)) ↦ rw (trans_abort, h, e) (unrefs tp m v)
        | inr (inr (inr e)) ↦
            rw (trans_abort, h, e)
              (Leaves-bind P
                (abort_dependents fuel (tp ∷ held) tp (some 0) (set_status m tp aborted))
                (trans_unref tp)
                (walk_keeps fuel (tp ∷ held) tp (some 0) (set_status m tp aborted) (marks tp m v))
                (unrefs tp))
      ]
    ]

    walk_keeps :
        (fuel : ℕ) (held : List ℕ) (tp : ℕ) (a : Option ℕ) (m : Manager)
        → P m
        → Leaves P (abort_dependents fuel held tp a m)
    walk_keeps zero held tp a m v = tt
    walk_keeps (suc fuel) held tp none m v = tt
    walk_keeps (suc fuel) held tp (some a) m v = elim (by_next (next_of a m.transactions)) [
      | inl e ↦ rw (abort_dependents, e) tt
      | inr (inl e) ↦ rw (abort_dependents, e) v
      | inr (inr (n, e)) ↦
          elim (by_visit (visit (suc fuel) tp (find (suc n) m.transactions) m.transactions)) [
            | inl f ↦ rw (abort_dependents, e, f) (walk_keeps fuel held tp (some (suc n)) m v)
            | inr (inl f) ↦ rw (abort_dependents, e, f) tt
            | inr (inr (inl f)) ↦ rw (abort_dependents, e, f) tt
            | inr (inr (inr f)) ↦
                rw (abort_dependents, e, f)
                  (Leaves-bind P (trans_abort fuel held (suc n) m)
                    (λ m'. abort_dependents fuel held tp (next_of a m'.transactions) m')
                    (abort_keeps fuel held (suc n) m v)
                    (λ m' v'. walk_keeps fuel held tp (next_of a m'.transactions) m' v'))
          ]
    ]

  -- A pending transaction that has been marked.
  marked :
      (fuel : ℕ) (held : List ℕ) (tp : ℕ) (m : Manager)
      → P (set_status m tp aborted)
      → Leaves P (
          abort_dependents fuel (tp ∷ held) tp (some 0) (set_status m tp aborted)
          >>>= trans_unref tp)
  marked fuel held tp m v =
      Leaves-bind P (abort_dependents fuel (tp ∷ held) tp (some 0) (set_status m tp aborted))
        (trans_unref tp) (walk_keeps fuel (tp ∷ held) tp (some 0) (set_status m tp aborted) v)
        (unrefs tp)

-- The transaction is aborted, or is not in the list.
abbrev pub Aborted : ℕ → List Transaction → Type 0
Aborted tp ts = All (λ t. t.id ≡ tp → t.status ≡ aborted) ts

update-Aborted :
    (x tp : ℕ) (f : Transaction → Transaction) (ts : List Transaction)
    → ((t : Transaction) → (f t).id ≡ t.id)
    → ((t : Transaction) → t.status ≡ aborted → (f t).status ≡ aborted)
    → Aborted x ts
    → Aborted x (update tp f ts)
unfolding update
update-Aborted x tp f [] same keeps h = tt
update-Aborted x tp f (t ∷ ts) same keeps h = elim (Bool-cases (t.id == tp)) [
  | inl e ↦ rw e ((λ i. keeps t (h.0 (sym (same t) ∙ i))), h.1)
  | inr e ↦ rw e (h.0, update-Aborted x tp f ts same keeps h.1)
]

unlink-Aborted : (x tp : ℕ) (ts : List Transaction) → Aborted x ts → Aborted x (unlink tp ts)
unfolding unlink
unlink-Aborted x tp [] h = tt
unlink-Aborted x tp (t ∷ ts) h = elim (Bool-cases (t.id == tp)) [
  | inl e ↦ rw e h.1
  | inr e ↦ rw e (h.0, unlink-Aborted x tp ts h.1)
]

-- Behind larger ids there is no such transaction.
Rising-Aborted : (x lo hi : ℕ) (ts : List Transaction) → x < lo → Rising lo hi ts → Aborted x ts
unfolding Rising
Rising-Aborted x lo hi [] l r = tt
Rising-Aborted x lo hi (t ∷ ts) l (p, r) =
    ((λ i. absurd (omega arith)), Rising-Aborted x (suc t.id) hi ts (omega arith) r)

abbrev mark : Transaction → Transaction
mark t = record t { status = aborted }

mark-Aborted :
    (x lo hi : ℕ) (ts : List Transaction) → Rising lo hi ts → Aborted x (update x mark ts)
unfolding Rising update
mark-Aborted x lo hi [] r = tt
mark-Aborted x lo hi (t ∷ ts) (p, r) = elim (Bool-cases (t.id == x)) [
  | inl e ↦
      let same = (==_iff t.id x).0 e in
      rw e ((λ i. refl), Rising-Aborted x (suc t.id) hi ts (omega arith) r)
  | inr e ↦
      let other = ==_ne t.id x e in
      rw e ((λ i. absurd (other i)), mark-Aborted x (suc t.id) hi ts r)
]

status-Aborted :
    (x lo hi : ℕ) (ts : List Transaction)
    → Rising lo hi ts
    → status_of (find x ts) ≡ some aborted
    → Aborted x ts
unfolding Rising find status_of
status-Aborted x lo hi [] r s = cc
status-Aborted x lo hi (t ∷ ts) (p, r) s = elim (Bool-cases (t.id == x)) [
  | inl e ↦
      let same = (==_iff t.id x).0 e in
      let e' : some t.status ≡ some aborted = rw e at s in
      ((λ i. some-injective _ _ e'), Rising-Aborted x (suc t.id) hi ts (omega arith) r)
  | inr e ↦
      let other = ==_ne t.id x e in
      ((λ i. absurd (other i)), status-Aborted x (suc t.id) hi ts r (rw e at s))
]

-- The ids rise, and the transaction `x` is aborted if it is in the list.
abbrev pub Settles : ℕ → Manager → Type 0
Settles x m = IsManager m × Aborted x m.transactions

marks-Settles : (x tp : ℕ) (m : Manager) → Settles x m → Settles x (set_status m tp aborted)
unfolding set_status change
marks-Settles x tp m (v, h) = (
  set_status-IsManager m tp aborted v,
  update-Aborted x tp mark m.transactions (λ t. refl) (λ t e. refl) h,
)

unrefs-Settles : (x tp : ℕ) (m : Manager) → Settles x m → Leaves (Settles x) (trans_unref tp m)
unfolding Leaves on_found trans_unref change
unrefs-Settles x tp m (v, h) = elim (Option-cases (find tp m.transactions)) [
  | inl e ↦ rw e tt
  | inr (t, e) ↦ elim (Bool-cases (t.refcnt == 1)) [
    | inl one ↦
        let ids = rw (e, one) at (trans_unref-IsManager tp m v) in
        rw (e, one) (ids, unlink-Aborted x tp m.transactions h)
    | inr more ↦
        let ids = rw (e, more) at (trans_unref-IsManager tp m v) in
        rw (e, more) (ids, update-Aborted x tp _ m.transactions (λ t. refl) (λ t e. e) h)
  ]
]

-- Where trans_abort returns, the ids of the live transactions are still rising and below the
-- counter, and the transaction that it was called for is aborted or has been freed.
pub trans_abort-Settles :
    (fuel : ℕ) (held : List ℕ) (tp : ℕ) (m : Manager)
    → IsManager m
    → Leaves (Settles tp) (trans_abort fuel held tp m)
unfolding trans_abort Leaves IsManager set_status change trans_get_status
trans_abort-Settles zero held tp m v = tt
trans_abort-Settles (suc fuel) held tp m v =
    let ends = unrefs-Settles tp in
    elim (Bool-cases (holds tp held)) [
      | inl h ↦ rw (trans_abort, h) tt
      | inr h ↦ elim (by_status (trans_get_status tp m)) [
        | inl e ↦ rw (trans_abort, h, e) tt
        | inr (inl e) ↦ rw (trans_abort, h, e) tt
        | inr (inr (inl e)) ↦
            rw (trans_abort, h, e) (ends tp m (v, status-Aborted tp 1 m.counter m.transactions v e))
        | inr (inr (inr e)) ↦
            rw (trans_abort, h, e)
              (marked (Settles tp) (marks-Settles tp) ends fuel held tp m
                (set_status-IsManager m tp aborted v, mark-Aborted tp 1 m.counter m.transactions v))
      ]
    ]
