-- ===== src/Xacto/Transaction/Spin.antt =====
-- Where `trans_abort` does not come back.
use c_language.Prelude.{ℕ, zero, suc, ◌≤◌, ◌≡◌, ◌≢◌, refl, ap, ◌∙◌, true, false, some}
use c_language.Prelude.{List, [], ◌∷◌, arith, ◌==◌, ==_refl}
use mathlib.Core.Path.{subst}
use c_language.Xacto.Transaction.Alone.{positive}
use c_language.Xacto.Transaction.{Transaction, stuck, find, set_status}
use c_language.Xacto.Transaction.{
  pending, aborted, trans_get_status, next_of, next_after, first_id, update, change, status_of,
  holds,
}
use c_language.Xacto.Transaction.{
  pass, no_end, visit, visit_depends, visit_second, trans_abort, abort_dependents, is_live,
}

-- The inner loop stays at a second dependency that is another transaction.
spins_at_second :
    (rounds tp d : ℕ) (ds : List ℕ) (ts : List Transaction)
    → is_live d ts ≡ true
    → (d == tp) ≡ false
    → visit_second rounds tp (d ∷ ds) ts ≡ no_end
unfolding visit_second
spins_at_second zero tp d ds ts live other = refl
spins_at_second (suc rounds) tp d ds ts live other =
    rw (live, other) (spins_at_second rounds tp d ds ts live other)

visits_no_end :
    (rounds tp : ℕ) (u : Transaction) (d1 d2 : ℕ) (ds : List ℕ) (ts : List Transaction)
    → u.depends ≡ d1 ∷ (d2 ∷ ds)
    → is_live d1 ts ≡ true
    → is_live d2 ts ≡ true
    → (u.id == tp) ≡ false
    → (d1 == tp) ≡ false
    → (d2 == tp) ≡ false
    → visit rounds tp (some u) ts ≡ no_end
unfolding visit visit_depends
visits_no_end rounds tp u d1 d2 ds ts e live live2 a b c =
    rw (e, a, live, b) (spins_at_second rounds tp d2 ds ts live2 c)

-- The list with the aborted transaction `t` and the next one.
module _ (t u : Transaction) (ts : List Transaction) (d1 d2 : ℕ) (ds : List ℕ)
    (deps : u.depends ≡ d1 ∷ (d2 ∷ ds)) (t_id : 1 ≤ t.id) (u_id : 1 ≤ u.id) (other : u.id ≢ t.id)
    (first_other : d1 ≢ t.id) (second_other : d2 ≢ t.id)
    (first_live : is_live d1 (t ∷ (u ∷ ts)) ≡ true)
    (second_live : is_live d2 (t ∷ (u ∷ ts)) ≡ true) where
  found_u : find u.id (t ∷ (u ∷ ts)) ≡ some u
  unfolding find
  found_u = let k : (t.id == u.id) ≡ false = ground arith in rw (k, ==_refl u.id) refl

  next_u : next_of t.id (t ∷ (u ∷ ts)) ≡ some u.id
  unfolding next_of next_after first_id
  next_u = let k : (t.id == 0) ≡ false = ground arith in rw (k, ==_refl t.id) refl

  first_t : next_of 0 (t ∷ (u ∷ ts)) ≡ some t.id
  unfolding next_of first_id
  first_t = refl

  passes_t : (rounds : ℕ) → visit rounds t.id (find t.id (t ∷ (u ∷ ts))) (t ∷ (u ∷ ts)) ≡ pass
  unfolding visit find
  passes_t rounds = rw (==_refl t.id, ==_refl t.id) refl

  stays_at_u : (rounds : ℕ) → visit rounds t.id (find u.id (t ∷ (u ∷ ts))) (t ∷ (u ∷ ts)) ≡ no_end
  stays_at_u rounds = rw (found_u) (
      visits_no_end rounds t.id u d1 d2 ds _ deps first_live second_live (ground arith)
        (ground arith) (ground arith))

  module _ (held : List ℕ) (c : ℕ) where
    walk_on :
        (fuel : ℕ)
        → abort_dependents fuel held t.id
            (some t.id)
            (record { counter = c; transactions = t ∷ (u ∷ ts) })
          ≡ stuck
    unfolding abort_dependents
    walk_on zero = refl
    walk_on (suc fuel) =
        let (j, e) = positive u.id u_id in
        let n : next_of t.id (t ∷ (u ∷ ts)) ≡ some (suc j) = next_u ∙ ap (λ i. some i) e in
        let v : visit (suc fuel) t.id (find (suc j) (t ∷ (u ∷ ts))) (t ∷ (u ∷ ts)) ≡ no_end =
          rw⁻¹ e (stays_at_u (suc fuel)) in
        rw (abort_dependents, n, v) refl

    walk :
        (fuel : ℕ)
        → abort_dependents fuel held t.id
            (some 0)
            (record { counter = c; transactions = t ∷ (u ∷ ts) })
          ≡ stuck
    unfolding abort_dependents
    walk zero = refl
    walk (suc fuel) =
        let (j, e) = positive t.id t_id in
        let n : next_of 0 (t ∷ (u ∷ ts)) ≡ some (suc j) = first_t ∙ ap (λ i. some i) e in
        let v : visit (suc fuel) t.id (find (suc j) (t ∷ (u ∷ ts))) (t ∷ (u ∷ ts)) ≡ pass =
          subst (λ i. visit (suc fuel) t.id (find i (t ∷ (u ∷ ts))) (t ∷ (u ∷ ts)) ≡ pass) e
            (passes_t (suc fuel)) in
        let r = walk_on fuel in
        let r' =
          subst
            (λ i.
              abort_dependents fuel held t.id (some i)
                (record { counter = c; transactions = t ∷ (u ∷ ts) })
              ≡ stuck)
            e r in
        rw (abort_dependents, n, v) r'

pending_first :
    (t u : Transaction) (ts : List Transaction) (c : ℕ)
    → t.status ≡ pending
    → trans_get_status t.id (record { counter = c; transactions = t ∷ (u ∷ ts) }) ≡ some pending
unfolding trans_get_status status_of find
pending_first t u ts c e = rw (==_refl t.id, e) refl

aborted_first :
    (t u : Transaction) (ts : List Transaction) (c : ℕ)
    → set_status (record { counter = c; transactions = t ∷ (u ∷ ts) }) t.id aborted
      ≡ record { counter = c; transactions = record t { status = aborted } ∷ (u ∷ ts) }
unfolding set_status change update
aborted_first t u ts c = rw (==_refl t.id) refl

-- To abort a pending transaction, the first in the list, does not come back, whatever fuel it is
-- given, when the next one depends on two live transactions that are not the aborted one before any
-- others: the inner loop stays at the second of them.
pub trans_abort_spins :
    (fuel c d1 d2 : ℕ) (ds : List ℕ) (t u : Transaction) (ts : List Transaction)
    → t.status ≡ pending
    → u.depends ≡ d1 ∷ (d2 ∷ ds)
    → 1 ≤ t.id
    → 1 ≤ u.id
    → u.id ≢ t.id
    → d1 ≢ t.id
    → d2 ≢ t.id
    → is_live d1 (t ∷ (u ∷ ts)) ≡ true
    → is_live d2 (t ∷ (u ∷ ts)) ≡ true
    → trans_abort fuel [] t.id (record { counter = c; transactions = t ∷ (u ∷ ts) }) ≡ stuck
unfolding trans_abort holds is_live
trans_abort_spins zero c d1 d2 ds t u ts s e p q a b d l l2 = refl
trans_abort_spins (suc fuel) c d1 d2 ds t u ts s e p q a b d l l2 =
    rw
      (
        trans_abort,
        pending_first t u ts c s,
        aborted_first t u ts c,
        walk (record t { status = aborted }) u ts d1 d2 ds e p q a b d l l2 (t.id ∷ []) c fuel,
      )
      refl
