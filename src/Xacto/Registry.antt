-- ===== src/Xacto/Registry.antt =====
-- The client registry of hw5/src/client_registry.c: a buffer of 1024 file descriptors, in which
-- -1 marks a free slot, and four semaphores. An operation takes the registry it finds and
-- returns the one it leaves, or `none` where it waits for a semaphore that nobody has posted.
pub mod Counts
pub mod Laws
pub mod Waiting
use c_language.Prelude.{ℕ, zero, suc, ◌+◌, Bool, true, false, Option, none, some, ◌>>=◌}
use c_language.Prelude.{List, [], ◌∷◌, map, get_elem?, replicate, ltb, ◌==◌, if◌then◌else◌, not}

-- The `int` -1 as the 32-bit word it is.
abbrev pub free_slot : ℕ
free_slot = 4294967295

abbrev pub slot_count : ℕ
slot_count = 1024

pub record Registry : Type 0 where
  pub fdbuf : List ℕ
  pub mutex : ℕ
  pub slots : ℕ
  pub items : ℕ
  pub lock : ℕ

unfoldable pub sem_wait : ℕ → Option ℕ
sem_wait zero = none
sem_wait (suc n) = some n

unfoldable pub creg_init : Registry
creg_init = record {
  fdbuf = replicate slot_count free_slot;
  mutex = 1;
  slots = slot_count;
  items = 0;
  lock = 1;
}

-- The loops over the buffer that overwrite the first slot equal to `old`, and stop there; `none`
-- when there is no such slot.
unfoldable pub replace_first : ℕ → ℕ → List ℕ → Option (List ℕ)
replace_first old new [] = none
replace_first old new (x ∷ xs) =
    let rest = replace_first old new xs in
    if x == old then some (new ∷ xs) else (rest >>= (λ ys. some (x ∷ ys)))

unfoldable pub claim_slot : List ℕ → Option (List ℕ) → List ℕ
claim_slot buf none = buf
claim_slot buf (some found) = found

unfoldable pub creg_register : Registry → ℕ → Option Registry
creg_register r fd = do
  l ← sem_wait r.lock
  s ← sem_wait r.slots
  m ← sem_wait r.mutex
  let buf = claim_slot r.fdbuf (replace_first free_slot fd r.fdbuf)
  some (record { fdbuf = buf; mutex = suc m; slots = s; items = suc r.items; lock = suc l })

unfoldable pub release : Registry → ℕ → ℕ → Option (List ℕ) → Registry
release r i m none = record r { items = suc i; mutex = suc m }
release r i m (some found) = record r {
  fdbuf = found;
  items = i;
  mutex = suc m;
  slots = suc r.slots;
}

unfoldable pub creg_unregister : Registry → ℕ → Option Registry
creg_unregister r fd = do
  i ← sem_wait r.items
  m ← sem_wait r.mutex
  some (release r i m (replace_first fd free_slot r.fdbuf))

-- The descriptors that `shutdown` is called on, in order, and the registry.
unfoldable pub shut_down : List ℕ → List ℕ
shut_down [] = []
shut_down (x ∷ xs) = if x == free_slot then shut_down xs else x ∷ shut_down xs

unfoldable pub creg_shutdown_all : Registry → Option (List ℕ × Registry)
creg_shutdown_all r = do m ← sem_wait r.mutex; some (shut_down r.fdbuf, record r { mutex = suc m })

-- One round of the loop of `creg_wait_for_empty`, from `i` and `flag`: does it break, and the
-- two as it leaves them.
abbrev pub Scan : Type 0
Scan = Bool × ℕ × Bool

unfoldable pub next_slot : ℕ → Bool → Scan
next_slot i flag =
    if i == 1023 then (if flag then (false, 0, flag) else (true, i, flag)) else (false, suc i, flag)

unfoldable pub scan_slot : List ℕ → ℕ → Bool → Option Scan
scan_slot buf i flag = do
  x ← get_elem? buf i
  let reset = (if i == 0 then false else flag)
  let seen = (if x == free_slot then reset else true)
  some (next_slot i seen)

-- The loop alone with the buffer; `none` out of fuel, as the loop spins.
unfoldable pub scan_loop : ℕ → List ℕ → Scan → Option Scan
scan_loop zero buf (finished, i, flag) = none
scan_loop (suc fuel) buf (true, i, flag) = some (true, i, flag)
scan_loop (suc fuel) buf (false, i, flag) = scan_slot buf i flag >>= scan_loop fuel buf

-- The lock is not posted again.
unfoldable pub creg_wait_for_empty : ℕ → Registry → Option Registry
creg_wait_for_empty fuel r = do
  l ← sem_wait r.lock
  s ← scan_loop fuel r.fdbuf (false, 0, false)
  some (record r { lock = l })
