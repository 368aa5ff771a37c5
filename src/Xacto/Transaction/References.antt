-- ===== src/Xacto/Transaction/References.antt =====
-- The ids of the live transactions, which every operation keeps in the order of their creation,
-- and the reference counts.
use mathlib.Core.Option
use mathlib.Core.Option.{some-injective}
use c_language.Prelude.{ℕ, suc, ◌+◌, ◌^◌, ◌≤◌, ◌<◌, ◌≡◌, refl, sym, ap, ◌∙◌, true, false, some}
use c_language.Prelude.{List, [], ◌∷◌, ◌++◌, arith, ◌==◌, Bool-cases, inl, inr, u32, Option-cases}
use c_language.Xacto.Transaction.{
  Transaction, Manager, Outcome, returns, exits, stuck, dangling, ◌>>>=◌, find, update, unlink,
}
use c_language.Xacto.Transaction.{
  on_found, change, trans_create, trans_ref, trans_unref, trans_add_dependency,
}

-- The ids rise from `lo` on and stay below `hi`.
unfoldable pub Rising : ℕ → ℕ → List Transaction → Type 0
Rising lo hi [] = lo ≤ hi
Rising lo hi (t ∷ ts) = (lo ≤ t.id) × Rising (suc t.id) hi ts

-- Every id is a pointer other than the sentinel's, and the next one is new.
unfoldable pub IsManager : Manager → Type 0
IsManager m = Rising 1 m.counter m.transactions

Rising-lower :
    (lo lo' hi : ℕ) (ts : List Transaction) → lo ≤ lo' → Rising lo' hi ts → Rising lo hi ts
unfolding Rising
Rising-lower lo lo' hi [] l r = omega arith
Rising-lower lo lo' hi (t ∷ ts) l (p, r) = (omega arith, r)

Rising-raise :
    (lo hi hi' : ℕ) (ts : List Transaction) → hi ≤ hi' → Rising lo hi ts → Rising lo hi' ts
unfolding Rising
Rising-raise lo hi hi' [] l r = omega arith
Rising-raise lo hi hi' (t ∷ ts) l (p, r) = (p, Rising-raise (suc t.id) hi hi' ts l r)

-- The changes that the operations make.
update-Rising :
    (tp lo hi : ℕ) (f : Transaction → Transaction) (ts : List Transaction)
    → ((t : Transaction) → (f t).id ≡ t.id)
    → Rising lo hi ts
    → Rising lo hi (update tp f ts)
unfolding Rising update
update-Rising tp lo hi f [] same r = r
update-Rising tp lo hi f (t ∷ ts) same (p, r) = elim (Bool-cases (t.id == tp)) [
  | inl e ↦ rw (e, same t) (p, r)
  | inr e ↦ rw e (p, update-Rising tp (suc t.id) hi f ts same r)
]

unlink-Rising :
    (tp lo hi : ℕ) (ts : List Transaction) → Rising lo hi ts → Rising lo hi (unlink tp ts)
unfolding Rising unlink
unlink-Rising tp lo hi [] r = r
unlink-Rising tp lo hi (t ∷ ts) (p, r) = elim (Bool-cases (t.id == tp)) [
  | inl e ↦ rw e (Rising-lower lo (suc t.id) hi ts (omega arith) r)
  | inr e ↦ rw e (p, unlink-Rising tp (suc t.id) hi ts r)
]

append-Rising :
    (lo hi : ℕ) (ts : List Transaction) (t : Transaction)
    → t.id ≡ hi
    → Rising lo hi ts
    → Rising lo (suc hi) (ts ++ (t ∷ []))
unfolding Rising
append-Rising lo hi [] t e r = (omega arith, omega arith)
append-Rising lo hi (x ∷ ts) t e (p, r) = (p, append-Rising (suc x.id) hi ts t e r)

trans_create-IsManager :
    (m : Manager) → suc m.counter < 2 ^ 32 → IsManager m → IsManager (trans_create m).1
unfolding IsManager trans_create
trans_create-IsManager m l v =
    let e : u32 (m.counter + 1) ≡ suc m.counter = omega arith in
    rw e (append-Rising 1 m.counter m.transactions _ refl v)

pub change-IsManager :
    (tp : ℕ) (f : Transaction → Transaction) (m : Manager)
    → ((t : Transaction) → (f t).id ≡ t.id)
    → IsManager m
    → IsManager (change m tp f)
unfolding IsManager change
change-IsManager tp f m same v = update-Rising tp 1 m.counter f m.transactions same v

-- What an operation leaves, when it returns.
unfoldable pub Leaves : (Manager → Type 0) → Outcome Manager → Type 0
Leaves P (returns m) = P m
Leaves P exits = Unit
Leaves P stuck = Unit
Leaves P dangling = Unit

trans_ref-IsManager : (tp : ℕ) (m : Manager) → IsManager m → Leaves IsManager (trans_ref tp m)
unfolding Leaves on_found trans_ref
trans_ref-IsManager tp m v = elim (Option-cases (find tp m.transactions)) [
  | inl e ↦ rw e tt
  | inr (t, e) ↦ rw e (change-IsManager tp _ m (λ t. refl) v)
]

pub trans_unref-IsManager :
    (tp : ℕ) (m : Manager) → IsManager m → Leaves IsManager (trans_unref tp m)
unfolding Leaves on_found trans_unref IsManager
trans_unref-IsManager tp m v = elim (Option-cases (find tp m.transactions)) [
  | inl e ↦ rw e tt
  | inr (t, e) ↦ elim (Bool-cases (t.refcnt == 1)) [
    | inl one ↦ rw (e, one) (unlink-Rising tp 1 m.counter m.transactions v)
    | inr more ↦ rw (e, more) (change-IsManager tp _ m (λ t. refl) v)
  ]
]

trans_add_dependency-IsManager :
    (tp dtp : ℕ) (m : Manager) → IsManager m → Leaves IsManager (trans_add_dependency tp dtp m)
unfolding Leaves on_found trans_add_dependency
trans_add_dependency-IsManager tp dtp m v = elim (Option-cases (find tp m.transactions)) [
  | inl e ↦ rw e tt
  | inr (t, e) ↦ elim (Option-cases (find dtp m.transactions)) [
    | inl f ↦ rw (e, f) tt
    | inr (d, f) ↦ elim (Bool-cases (tp == dtp)) [
      | inl same ↦ rw (e, f, same) tt
      | inr other ↦
          rw (e, f, other)
            (change-IsManager dtp _ (change m tp _) (λ t. refl)
              (change-IsManager tp _ m (λ t. refl) v))
    ]
  ]
]

pub find-update :
    (tp : ℕ) (f : Transaction → Transaction) (ts : List Transaction) {t : Transaction}
    → ((t : Transaction) → (f t).id ≡ t.id)
    → find tp ts ≡ some t
    → find tp (update tp f ts) ≡ some (f t)
unfolding find update
find-update tp f [] same e = cc
find-update tp f (x ∷ ts) same e = elim (Bool-cases (x.id == tp)) [
  | inl h ↦
      let k : ((f x).id == tp) ≡ true = ap (λ i. i == tp) (same x) ∙ h in
      let q = rw h at e in rw (h, k) (ap (λ o. Option.map f o) q)
  | inr h ↦ rw (h, h) (find-update tp f ts same (rw h at e))
]

update_undo :
    (tp : ℕ) (f g : Transaction → Transaction) (ts : List Transaction) {t : Transaction}
    → ((t : Transaction) → (f t).id ≡ t.id)
    → find tp ts ≡ some t
    → g (f t) ≡ t
    → update tp g (update tp f ts) ≡ ts
unfolding find update
update_undo tp f g [] same e u = refl
update_undo tp f g (x ∷ ts) {t} same e u = elim (Bool-cases (x.id == tp)) [
  | inl h ↦
      let q : x ≡ t = some-injective x t (rw h at e) in
      let k : ((f x).id == tp) ≡ true = ap (λ i. i == tp) (same x) ∙ h in
      rw (h, k) (ap (λ y. y ∷ ts) (ap (λ y. g (f y)) q ∙ u ∙ sym q))
  | inr h ↦ rw (h, h, update_undo tp f g ts same (rw h at e) u) refl
]

-- A reference taken on a live transaction and given up again leaves every transaction as it was,
-- if the count is not 0 and does not wrap.
pub ref-unref :
    (tp : ℕ) (m : Manager) {t : Transaction}
    → find tp m.transactions ≡ some t
    → 1 ≤ t.refcnt
    → t.refcnt + 1 < 2 ^ 32
    → trans_ref tp m >>>= trans_unref tp ≡ returns m
unfolding trans_ref trans_unref on_found change
ref-unref tp m {t} e lo hi =
    let up : Transaction → Transaction = λ t. record t { refcnt = u32 (t.refcnt + 1) } in
    let found = find-update tp up m.transactions (λ t. refl) e in
    let many : (u32 (t.refcnt + 1) == 1) ≡ false = ground arith in
    let back : u32 (u32 (t.refcnt + 1) + 4294967295) ≡ t.refcnt = omega arith in
    rw (e, found, many)
      (rw
        (update_undo tp up _ m.transactions (λ t. refl) e (ap (λ k. record t { refcnt = k }) back))
        refl)

-- While the counter does not wrap, creating a transaction, taking and giving up a reference, and
-- adding a dependency each leave, when they return, a list of live transactions whose ids are
-- distinct, rising, not the sentinel's and below the counter.
pub operations-IsManager :
    (tp dtp : ℕ) (m : Manager)
    → suc m.counter < 2 ^ 32
    → IsManager m
    → IsManager (trans_create m).1
      × Leaves IsManager (trans_ref tp m)
      × Leaves IsManager (trans_unref tp m)
      × Leaves IsManager (trans_add_dependency tp dtp m)
operations-IsManager tp dtp m l v = (
  trans_create-IsManager m l v,
  trans_ref-IsManager tp m v,
  trans_unref-IsManager tp m v,
  trans_add_dependency-IsManager tp dtp m v,
)
