-- ===== src/Xacto/Tests.antt =====
-- The models of hw5 run on small states, and the theorems applied to them.
use c_language.Prelude.{ℕ, ◌≡◌, ◌↔◌, ◌⊎◌, refl, true, false, some, none, arith, ◌>>=◌}
use c_language.Prelude.{List, [], ◌∷◌, get_elem?}
use c_language.Prelude.{ap, ◌++◌, length, take, drop, leb, length-append, if◌then◌else◌}
use c_language.Xacto.Versions.{version_create, version_dispose, version_dispose-version_create}
use c_language.Xacto.Protocol.{Rio, Packet, proto_send_packet, proto_recv_packet}
use c_language.Xacto.Protocol.Laws.{IsReliable, received, proto_send_recv}
use c_language.Xacto.Registry.{Registry, free_slot, creg_init}
use c_language.Xacto.Registry.Waiting.{Steps, scan_finds_empty, free_scan_ends, creg_init-FreeUpTo}
use c_language.Xacto.Transaction.{
  Transaction, Manager, pending, committed, aborted, returns, stuck, ◌>>>=◌,
}
use c_language.Xacto.Transaction.{
  trans_ref, trans_unref, trans_commit, trans_abort, find, set_status, abort_dependents, on_found,
  update, unlink, change, next_of, next_after, first_id, holds, visit, visit_depends, visit_second,
  is_live, trans_get_status, status_of,
}
use c_language.Xacto.Transaction.{trans_create, trans_add_dependency}
use c_language.Xacto.Transaction.References.{operations-IsManager, IsManager, Leaves, Rising}
use c_language.Xacto.Transaction.Commit.{has_aborted, has_open, AreLive, trans_commit_cases}
use c_language.Xacto.Transaction.Abort.{Settles, trans_abort-Settles}
use c_language.Xacto.Transaction.Alone.{trans_abort-Alone}
use c_language.Xacto.Transaction.Spin.{trans_abort_spins}
use c_language.Xacto.Data.{Blob, Key, blob_create, blob_hash, blob_compare, key_create, key_compare}
use c_language.Xacto.Data.Keys.{key_compare_texts, unterminated_blob}

scan_finds_empty_example : get_elem? creg_init.fdbuf 1000 ≡ some free_slot
scan_finds_empty_example =
    scan_finds_empty 1000 (free_scan_ends creg_init.fdbuf creg_init-FreeUpTo) (omega arith)

free_scan_ends_example :
    Steps (creg_init.fdbuf, (false, 0, false)) (creg_init.fdbuf, (true, 1023, false))
free_scan_ends_example = free_scan_ends creg_init.fdbuf creg_init-FreeUpTo

-- Two transactions, of which the second depends on the first.
abbrev first : Transaction
first = record { id = 1; refcnt = 2; waitcnt = 1; status = pending; depends = [] }

abbrev second : Transaction
second = record { id = 2; refcnt = 1; waitcnt = 0; status = pending; depends = 1 ∷ [] }

abbrev pair : Manager
pair = record { counter = 3; transactions = first ∷ (second ∷ []) }

pair-IsManager : IsManager pair
unfolding IsManager Rising
pair-IsManager = ground arith

first_found : find 1 pair.transactions ≡ some first
unfolding find
first_found = refl

second_found : find 2 pair.transactions ≡ some second
unfolding find
second_found = refl

second-AreLive : AreLive pair.transactions (1 ∷ [])
unfolding AreLive
second-AreLive = ((first, first_found), tt)

operations-IsManager_example :
    IsManager (trans_create pair).1
    × Leaves IsManager (trans_ref 1 pair)
    × Leaves IsManager (trans_unref 1 pair)
    × Leaves IsManager (trans_add_dependency 1 2 pair)
operations-IsManager_example = operations-IsManager 1 2 pair (omega arith) pair-IsManager

trans_commit_cases_example :
    ((has_aborted pair.transactions (1 ∷ []) ≡ true)
      × (trans_commit 1 2 pair ≡ returns (aborted, set_status pair 2 aborted)))
    ⊎ (((has_aborted pair.transactions (1 ∷ []) ≡ false)
          × (has_open pair.transactions (1 ∷ []) ≡ true)
          × ((k : ℕ) → trans_commit k 2 pair ≡ stuck))
        ⊎ ((has_aborted pair.transactions (1 ∷ []) ≡ false)
            × (has_open pair.transactions (1 ∷ []) ≡ false)
            × (trans_commit 1 2 pair ≡ (
                trans_unref 2 (set_status pair 2 committed) >>>= λ m'. returns (committed, m')))))
trans_commit_cases_example =
    trans_commit_cases 1 2 pair second_found refl second-AreLive (omega arith)

trans_abort-Settles_example : Leaves (Settles 1) (trans_abort 20 [] 1 pair)
trans_abort-Settles_example = trans_abort-Settles 20 [] 1 pair pair-IsManager

-- The abort of the first takes the second with it, and frees it.
abort_test :
    trans_abort 20 [] 1 pair
    ≡ returns
        (record { counter = 3; transactions = record first { status = aborted; refcnt = 1 } ∷ [] })
unfolding trans_abort abort_dependents trans_unref on_found find update unlink change set_status
    next_of next_after first_id holds visit visit_depends visit_second is_live trans_get_status
    status_of
abort_test = refl

abbrev third : ℕ → List ℕ → Transaction
third id depends = record { id = id; refcnt = 1; waitcnt = 0; status = pending; depends = depends }

abbrev others : List Transaction
others = third 3 [] ∷ (third 4 [] ∷ [])

third_live : is_live 3 (first ∷ (third 2 (3 ∷ (4 ∷ [])) ∷ others)) ≡ true
unfolding is_live
third_live = refl

fourth_live : is_live 4 (first ∷ (third 2 (3 ∷ (4 ∷ [])) ∷ others)) ≡ true
unfolding is_live
fourth_live = refl

-- Two transactions without dependencies.
abbrev apart : Manager
apart = record { counter = 5; transactions = others }

apart-IsManager : IsManager apart
unfolding IsManager Rising
apart-IsManager = ground arith

third_found : find 3 others ≡ some (third 3 [])
unfolding find
third_found = refl

trans_abort-Alone_example :
    (m' : Manager) × (trans_abort 4 [] 3 apart ≡ returns m')
    × (trans_unref 3 (set_status apart 3 aborted) ≡ returns m')
trans_abort-Alone_example =
    trans_abort-Alone 3 3 apart apart-IsManager third_found refl (refl, (refl, tt)) (omega arith)

trans_abort_spins_example :
    trans_abort 9 [] 1
      (record { counter = 5; transactions = first ∷ (third 2 (3 ∷ (4 ∷ [])) ∷ others) })
    ≡ stuck
trans_abort_spins_example =
    trans_abort_spins 9 5 3 4 [] first (third 2 (3 ∷ (4 ∷ []))) others refl refl (omega arith)
      (omega arith) (λ e. absurd (omega arith)) (λ e. absurd (omega arith))
      (λ e. absurd (omega arith)) third_live fourth_live

abbrev letter_a : List ℕ
letter_a = b'a' ∷ []

abbrev letter_b : List ℕ
letter_b = b'b' ∷ []

key_compare_texts_example :
    (k1 : Key) × (k2 : Key) × ((blob_create (b'a' ∷ (0 ∷ (7 ∷ []))) 2 >>= key_create) ≡ some k1)
    × ((blob_create (b'b' ∷ (0 ∷ [])) 3 >>= key_create) ≡ some k2)
    × (r : ℕ) × (key_compare k1 k2 ≡ some r)
    × ((r ≡ 0) ↔ (letter_a ≡ letter_b))
key_compare_texts_example =
    key_compare_texts letter_a letter_b (7 ∷ []) [] 0 1 ((λ e. absurd (omega arith)), tt)
      ((λ e. absurd (omega arith)), tt)

unterminated_blob_example :
    (bp : Blob) × (blob_create (b'a' ∷ (0 ∷ [])) 1 ≡ some bp)
    × (blob_hash bp ≡ none)
    × (blob_compare bp bp ≡ none)
    × (key_create bp ≡ none)
unterminated_blob_example = unterminated_blob (b'a' ∷ []) (0 ∷ []) ((λ e. absurd (omega arith)), tt)

-- A connection that delivers what is there.
abbrev rio_list : Rio
rio_list = record {
  readn = λ input n. if leb n (length input) then some (take n input, drop n input) else none;
  writen = λ out bytes. some (out ++ bytes);
}

take_front : (a b : List ℕ) → take (length a) (a ++ b) ≡ a
take_front [] b = refl
take_front (x ∷ a) b = ap (λ l. x ∷ l) (take_front a b)

drop_front : (a b : List ℕ) → drop (length a) (a ++ b) ≡ b
drop_front [] b = refl
drop_front (x ∷ a) b = drop_front a b

enough : (a b : List ℕ) → leb (length a) (length (a ++ b)) ≡ true
enough a b = let e = length-append a b in ground arith

rio_list-IsReliable : IsReliable rio_list
rio_list-IsReliable = record {
  reads = λ a b. rw (enough a b, take_front a b, drop_front a b) refl;
  writes = λ out bytes. refl;
}

-- A packet of data with two bytes.
abbrev data_packet : Packet
data_packet = record {
  type = 3;
  status = 0;
  null = 1;
  padding = 0;
  size = 2;
  timestamp_sec = 70000;
  timestamp_nsec = 999999999;
}

proto_send_recv_example :
    (sent : List ℕ) × (proto_send_packet rio_list [] data_packet (b'h' ∷ (b'i' ∷ [])) ≡ some sent)
    × (proto_recv_packet rio_list none (sent ++ (9 ∷ []))
        ≡ some (received data_packet, some (b'h' ∷ (b'i' ∷ [])), 9 ∷ []))
proto_send_recv_example =
    proto_send_recv rio_list rio_list-IsReliable [] (9 ∷ []) data_packet (b'h' ∷ (b'i' ∷ [])) none
      (record {
        size_fits = omega arith;
        sec_fits = omega arith;
        nsec_fits = omega arith;
        payload_size = refl;
      })

abbrev word_blob : Blob
word_blob = record { refcnt = 1; size = 2; content = b'a' ∷ (0 ∷ []); prefix = b'a' ∷ (0 ∷ []) }

version_dispose-version_create_example :
    (version_dispose (version_create first (some word_blob)) ≡ some (first, some word_blob))
    × (version_dispose (version_create first none) ≡ none)
version_dispose-version_create_example =
    version_dispose-version_create first word_blob (omega arith) (omega arith) (omega arith)
