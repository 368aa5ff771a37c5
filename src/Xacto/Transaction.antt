-- ===== src/Xacto/Transaction.antt =====
-- The transaction manager of hw5/src/transaction.c. A pointer to a transaction is its `id`, and
-- 0 is the pointer to the sentinel `trans_list`; the transactions that are not freed stand in the
-- order of the circular list. A pointer to a freed transaction finds nothing.
pub mod References
pub mod Commit
pub mod Alone
pub mod Abort
pub mod Spin
use c_language.Prelude.{ℕ, zero, suc, ◌+◌, Bool, true, false, ◌||◌, ◌&&◌, Option, none, some}
use c_language.Prelude.{List, [], ◌∷◌, ◌++◌, u32, ◌==◌, if◌then◌else◌, not}

pub data TransStatus : Type 0 where
  pending : TransStatus
  committed : TransStatus
  aborted : TransStatus

pub record Transaction : Type 0 where
  pub id : ℕ
  pub refcnt : ℕ
  pub waitcnt : ℕ
  pub status : TransStatus
  pub depends : List ℕ

pub record Manager : Type 0 where
  pub counter : ℕ
  pub transactions : List Transaction

-- What a call comes to: it returns, it ends the process, it does neither, as it waits for a mutex
-- that its own thread holds or spins for ever, or it reads through a dangling pointer.
pub data Outcome (A : Type 0) : Type 0 where
  returns : A → Outcome A
  exits : Outcome A
  stuck : Outcome A
  dangling : Outcome A

infixl 5 ◌>>>=◌
abbrev pub ◌>>>=◌ : {A B : Type 0} → Outcome A → (A → Outcome B) → Outcome B
returns a >>>= f = f a
exits >>>= f = exits
stuck >>>= f = stuck
dangling >>>= f = dangling

unfoldable pub find : ℕ → List Transaction → Option Transaction
find tp [] = none
find tp (t ∷ ts) = if t.id == tp then some t else find tp ts

unfoldable pub update : ℕ → (Transaction → Transaction) → List Transaction → List Transaction
update tp f [] = []
update tp f (t ∷ ts) = if t.id == tp then f t ∷ ts else t ∷ update tp f ts

unfoldable pub unlink : ℕ → List Transaction → List Transaction
unlink tp [] = []
unlink tp (t ∷ ts) = if t.id == tp then ts else t ∷ unlink tp ts

unfoldable pub first_id : List Transaction → ℕ
first_id [] = 0
first_id (t ∷ ts) = t.id

-- The field `next` of a transaction, or of the sentinel.
unfoldable pub next_after : ℕ → List Transaction → Option ℕ
next_after a [] = none
next_after a (t ∷ ts) = if t.id == a then some (first_id ts) else next_after a ts

unfoldable pub next_of : ℕ → List Transaction → Option ℕ
next_of a ts = if a == 0 then some (first_id ts) else next_after a ts

unfoldable pub trans_init : Manager
trans_init = record { counter = 1; transactions = [] }

unfoldable pub trans_create : Manager → ℕ × Manager
trans_create m =
    let t : Transaction = record {
      id = m.counter;
      refcnt = 1;
      waitcnt = 0;
      status = pending;
      depends = [];
    } in
    (m.counter, record { counter = u32 (m.counter + 1); transactions = m.transactions ++ (t ∷ []) })

unfoldable pub on_found : Option Transaction → (Transaction → Outcome Manager) → Outcome Manager
on_found none f = dangling
on_found (some t) f = f t

unfoldable pub change : Manager → ℕ → (Transaction → Transaction) → Manager
change m tp f = record m { transactions = update tp f m.transactions }

unfoldable pub trans_ref : ℕ → Manager → Outcome Manager
trans_ref tp m =
    on_found (find tp m.transactions)
      (λ t. returns (change m tp (λ t. record t { refcnt = u32 (t.refcnt + 1) })))

unfoldable pub trans_unref : ℕ → Manager → Outcome Manager
trans_unref tp m = on_found (find tp m.transactions) (λ t.
    if t.refcnt == 1
    then returns (record m { transactions = unlink tp m.transactions })
    else returns (change m tp (λ t. record t { refcnt = u32 (t.refcnt + 4294967295) })))

-- The second lock waits for the first where the two transactions are one.
unfoldable pub trans_add_dependency : ℕ → ℕ → Manager → Outcome Manager
trans_add_dependency tp dtp m = on_found (find tp m.transactions) (λ t.
    on_found (find dtp m.transactions) (λ d.
      if tp == dtp
      then stuck
      else returns (
          change (change m tp (λ t. record t { depends = dtp ∷ t.depends })) dtp
            (λ t. record t { waitcnt = t.waitcnt + 1; refcnt = u32 (t.refcnt + 1) }))))

unfoldable pub status_of : Option Transaction → Option TransStatus
status_of none = none
status_of (some t) = some (t.status)

unfoldable pub trans_get_status : ℕ → Manager → Option TransStatus
trans_get_status tp m = status_of (find tp m.transactions)

unfoldable pub is_committed : TransStatus → Bool
is_committed committed = true
is_committed pending = false
is_committed aborted = false

unfoldable pub is_aborted : TransStatus → Bool
is_aborted aborted = true
is_aborted pending = false
is_aborted committed = false

unfoldable pub set_status : Manager → ℕ → TransStatus → Manager
set_status m tp s = change m tp (λ t. record t { status = s })

-- The status is written, and the reference given up.
unfoldable pub commit_now : ℕ → Manager → Outcome (TransStatus × Manager)
commit_now tp m = trans_unref tp (set_status m tp committed) >>>= (λ m'. returns (committed, m'))

-- Where a round of the busy loop leads: to a node and the nodes behind it, with `flag`, or out.
pub data Round : Type 0 where
  go_on : ℕ → List ℕ → Bool → Round
  leave : Outcome (TransStatus × Manager) → Round

-- The end of a round: the next node, or the decision, or the first node again.
unfoldable pub end_round : ℕ → List ℕ → List ℕ → Bool → Manager → Round
end_round tp all (d ∷ rest) flag m = go_on d rest flag
end_round tp [] [] flag m = leave (commit_now tp m)
end_round tp (d ∷ rest) [] flag m = if flag then go_on d rest false else leave (commit_now tp m)

-- A round at a dependency, with what is found there.
unfoldable pub commit_round : ℕ → List ℕ → Option Transaction → List ℕ → Bool → Manager → Round
commit_round tp all none rest flag m = leave dangling
commit_round tp all (some d) rest flag m =
    if is_aborted d.status
    then leave (returns (aborted, set_status m tp aborted))
    else end_round tp all rest (flag || not (is_committed d.status)) m

-- The busy loop over the dependency set `all`, from its node `d` on, while no other thread
-- writes a status; `stuck` when the rounds run out.
unfoldable pub commit_loop :
    ℕ → ℕ → List ℕ → ℕ → List ℕ → Bool → Manager → Outcome (TransStatus × Manager)
commit_loop zero tp all d rest flag m = stuck
commit_loop (suc fuel) tp all d rest flag m =
    elim (commit_round tp all (find d m.transactions) rest flag m) [
      | go_on d' rest' flag' ↦ commit_loop fuel tp all d' rest' flag' m
      | leave r ↦ r
    ]

unfoldable pub commit_depends : ℕ → ℕ → List ℕ → Manager → Outcome (TransStatus × Manager)
commit_depends fuel tp [] m = commit_now tp m
commit_depends fuel tp (d ∷ rest) m = commit_loop fuel tp (d ∷ rest) d rest false m

unfoldable pub commit_found : ℕ → ℕ → Option Transaction → Manager → Outcome (TransStatus × Manager)
commit_found fuel tp none m = dangling
commit_found fuel tp (some t) m = commit_depends fuel tp t.depends m

unfoldable pub trans_commit : ℕ → ℕ → Manager → Outcome (TransStatus × Manager)
trans_commit fuel tp m = commit_found fuel tp (find tp m.transactions) m

unfoldable pub holds : ℕ → List ℕ → Bool
holds tp [] = false
holds tp (x ∷ xs) = (x == tp) || holds tp xs

-- What the walk over the list does at an entry: it passes on, it aborts the entry first, it is
-- still in the inner loop when the rounds run out, or it reads through a dangling pointer.
pub data Visit : Type 0 where
  pass : Visit
  abort_it : Visit
  no_end : Visit
  dangles : Visit

unfoldable pub is_live : ℕ → List Transaction → Bool
is_live tp [] = false
is_live tp (t ∷ ts) = (t.id == tp) || is_live tp ts

-- while(d->next!=NULL), whose body does not move d: `ds` are the nodes behind it, and stay. The
-- first argument bounds the rounds.
unfoldable pub visit_second : ℕ → ℕ → List ℕ → List Transaction → Visit
visit_second zero tp ds ts = no_end
visit_second (suc rounds) tp [] ts = pass
visit_second (suc rounds) tp (d ∷ rest) ts =
    let again = visit_second rounds tp (d ∷ rest) ts in
    if is_live d ts then (if d == tp then abort_it else again) else dangles

unfoldable pub visit_depends : ℕ → ℕ → List ℕ → List Transaction → Visit
visit_depends rounds tp [] ts = pass
visit_depends rounds tp (d ∷ rest) ts =
    if is_live d ts then (if d == tp then abort_it else visit_second rounds tp rest ts) else dangles

unfoldable pub visit : ℕ → ℕ → Option Transaction → List Transaction → Visit
visit rounds tp none ts = dangles
visit rounds tp (some t) ts = if t.id == tp then pass else visit_depends rounds tp t.depends ts

-- `held` are the transactions whose mutex the calls above hold. The fuel bounds the depth of the
-- recursion and the steps of the walk together, and the rounds of the inner loop at each.
unfoldable mutual
  pub trans_abort : ℕ → List ℕ → ℕ → Manager → Outcome Manager
  trans_abort zero held tp m = stuck
  trans_abort (suc fuel) held tp m = if holds tp held then stuck else elim (trans_get_status tp m) [
    | none ↦ dangling
    | some committed ↦ exits
    | some aborted ↦ trans_unref tp m
    | some pending ↦
        abort_dependents fuel (tp ∷ held) tp (some 0) (set_status m tp aborted) >>>= trans_unref tp
  ]

  -- The walk from the entry `a` on, 0 being the sentinel: the entry behind it is looked at.
  pub abort_dependents : ℕ → List ℕ → ℕ → Option ℕ → Manager → Outcome Manager
  abort_dependents zero held tp a m = stuck
  abort_dependents (suc fuel) held tp none m = dangling
  abort_dependents (suc fuel) held tp (some a) m = elim (next_of a m.transactions) [
    | none ↦ dangling
    | some zero ↦ returns m
    | some (suc n) ↦ elim (visit (suc fuel) tp (find (suc n) m.transactions) m.transactions) [
      | pass ↦ abort_dependents fuel held tp (some (suc n)) m
      | no_end ↦ stuck
      | dangles ↦ dangling
      | abort_it ↦
          trans_abort fuel held (suc n) m
          >>>= (λ m'. abort_dependents fuel held tp (next_of a m'.transactions) m')
    ]
  ]
