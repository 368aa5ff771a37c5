-- ===== src/Xacto/Registry/Laws.antt =====
-- The registry as a multiset of descriptors, with the semaphores that count its slots.
use c_language.Prelude.{ℕ, zero, suc, ◌+◌, ◌≡◌, ◌≢◌, refl, sym, none, some}
use c_language.Prelude.{length, inl, inr, ◌⊎◌}
use c_language.Xacto.Registry.{Registry, free_slot, slot_count, sem_wait, creg_init}
use c_language.Xacto.Registry.Counts.{count, count-replicate}

-- Between the operations: `slots` counts the free slots, `items` the others, and nobody holds
-- the mutex.
pub record IsRegistry (r : Registry) : Type 0 where
  pub slot_total : length r.fdbuf ≡ slot_count
  pub slots_free : r.slots ≡ count free_slot r.fdbuf
  pub items_held : r.items + r.slots ≡ slot_count
  pub mutex_open : r.mutex ≡ 1

-- `r'` holds what `r` holds and one more `fd`.
pub record Adds (fd : ℕ) (r r' : Registry) : Type 0 where
  pub more : count fd r'.fdbuf ≡ suc (count fd r.fdbuf)
  pub same : (v : ℕ) → v ≢ free_slot → v ≢ fd → count v r'.fdbuf ≡ count v r.fdbuf
  pub lock_same : r'.lock ≡ r.lock

pub creg_init-IsRegistry : IsRegistry creg_init
unfolding creg_init
creg_init-IsRegistry = record {
  slot_total = refl;
  slots_free = sym (count-replicate free_slot slot_count);
  items_held = refl;
  mutex_open = refl;
}

pub sem_wait_cases :
    (n : ℕ) → ((sem_wait n ≡ none) × (n ≡ 0)) ⊎ ((m : ℕ) × (sem_wait n ≡ some m) × (n ≡ suc m))
unfolding sem_wait
sem_wait_cases zero = inl (refl, refl)
sem_wait_cases (suc m) = inr (m, refl, refl)
