-- ===== src/Spooler/Suits.antt =====
-- When a printer is fit for a job: the conditions of the scheduling loop of hw4/src/main.c, and
-- their meaning.
use c_language.Prelude.{and_true}
use c_language.Prelude.{
  ℕ, zero, suc, ◌<◌, ◌*◌, ◌+◌, ◌/◌, ◌%◌, ◌^◌, ◌≡◌, refl, sym, ap, ◌∙◌, ◌↔◌, true, not, ◌&&◌, arith,
  ◌==◌, ==_iff, same_text, same_text_eq, same_text_refl, bit_and,
}
use c_language.Prelude.Bits.{bit_and_bit}
use c_language.Spooler.State.{Printer, JobStatus, queued, running, paused, completed, aborted, Job}
use c_language.Spooler.Schedule.{is_queued, can_print}
use native.Mathlib.Nat.{mod-lt}

-- The job waits, and the printer is free, switched on, prints its type and is among those that
-- may print it.
pub record Suits (j : Job) (p : Printer) : Type 0 where
  pub same_type : j.file_type ≡ p.type
  pub waits : j.status ≡ queued
  pub free : p.busy ≡ 0
  pub on : p.enabled ≡ 1
  pub eligible : j.eligible_printers / 2 ^ p.id % 2 ≡ 1

pow_pos : (k : ℕ) → 0 < 2 ^ k
pow_pos zero = omega arith
pow_pos (suc k) = omega (arith, pow_pos k)

bit_of : (e k : ℕ) → bit_and e (2 ^ k) ≡ e / 2 ^ k % 2 * 2 ^ k
bit_of e k =
    let fields : e / 2 ^ k * 2 ^ k + e % 2 ^ k ≡ e = omega (arith, pow_pos k) in
    ap (λ z. bit_and z (2 ^ k)) (sym fields)
    ∙ bit_and_bit k (e / 2 ^ k) (e % 2 ^ k) (mod-lt e (pow_pos k))

bit_scaled : (b m : ℕ) → b < 2 → 0 < m → (not (b * m == 0) ≡ true) ↔ (b ≡ 1)
bit_scaled zero m h g = ground arith
bit_scaled (suc zero) m h g = ground arith
bit_scaled (suc (suc b)) m h g = absurd (omega arith)

-- The mask test reads the bit of the printer.
pub bit_test : (e k : ℕ) → (not (bit_and e (2 ^ k) == 0) ≡ true) ↔ (e / 2 ^ k % 2 ≡ 1)
bit_test e k =
    rw (bit_of e k) (bit_scaled (e / 2 ^ k % 2) (2 ^ k) (mod-lt _ (omega arith)) (pow_pos k))

queued_iff : (t : JobStatus) → (is_queued t ≡ true) ↔ (t ≡ queued)
queued_iff queued = (λ _. refl, λ _. refl)
queued_iff running = (λ h. cc, λ h. cc)
queued_iff paused = (λ h. cc, λ h. cc)
queued_iff completed = (λ h. cc, λ h. cc)
queued_iff aborted = (λ h. cc, λ h. cc)

pub can_print-Suits : (j : Job) (p : Printer) → can_print j p ≡ true → Suits j p
unfolding can_print
can_print-Suits j p h =
    let (a, r) = and_true (same_text j.file_type p.type) _ h in
    let (l, e) = and_true (is_queued j.status && ((p.busy == 0) && (p.enabled == 1))) _ r in
    let (w, m) = and_true (is_queued j.status) _ l in
    let (b, o) = and_true (p.busy == 0) _ m in
    record {
      same_type = same_text_eq _ _ a;
      waits = (queued_iff j.status).0 w;
      free = (==_iff _ _).0 b;
      on = (==_iff _ _).0 o;
      eligible = (bit_test _ _).0 e;
    }

pub Suits-can_print : (j : Job) (p : Printer) → Suits j p → can_print j p ≡ true
unfolding can_print
Suits-can_print j p s =
    let a : same_text j.file_type p.type ≡ true =
      ap (λ t. same_text t p.type) s.same_type ∙ same_text_refl p.type in
    let w = (queued_iff j.status).1 s.waits in
    let b = (==_iff p.busy 0).1 s.free in
    let o = (==_iff p.enabled 1).1 s.on in
    let e = (bit_test j.eligible_printers p.id).1 s.eligible in rw (a, w, b, o, e) refl
