-- ===== src/Spooler/Invariant/Board.antt =====
-- A step of the board keeps what holds of the jobs and the printers of hw4/src/main.c.
use c_language.Prelude.{map-append, length-map}
use c_language.Prelude.{
  ℕ, zero, suc, ◌+◌, ◌/◌, ◌%◌, ◌^◌, ◌≡◌, refl, sym, ap, ◌∙◌, none, some, List, [], ◌∷◌, ◌++◌, map,
  length, get_elem?, All, All-append, All-split, arith,
}
use mathlib.Core.Option.{some-injective}
use c_language.Spooler.State.{Printer, Job, queued}
use c_language.Spooler.Schedule.{start}
use c_language.Spooler.Suits.{Suits}
use c_language.Spooler.Board.{Board, occupied, Step, Reach}
use c_language.Spooler.Board.Step.{starts}
use c_language.Spooler.Board.Reach.{here, next}
use c_language.Spooler.Invariant.{
  Row, row, catalogue, ticket, tickets, Numbered, Serves, held, holders, busy_at, IsBoard,
}

pub holders-append : (k : ℕ) (a b : List Job) → holders k (a ++ b) ≡ holders k a + holders k b
unfolding holders
holders-append k [] b = omega arith
holders-append k (j ∷ a) b = omega (arith, holders-append k a b)

-- Which row is busy when one printer of the table is taken.
busy_at-taken :
    (c d : List Printer) (p : Printer) (k : ℕ)
    → p.busy ≡ 0
    → busy_at (c ++ occupied p ∷ d) k ≡ held k (some (length c)) + busy_at (c ++ p ∷ d) k
unfolding busy_at
busy_at-taken [] d p zero h = ground arith
busy_at-taken [] d p (suc k) h = ground arith
busy_at-taken (q ∷ c) d p zero h = ground arith
busy_at-taken (q ∷ c) d p (suc k) h = let ih = busy_at-taken c d p k h in ground arith

get_elem?-middle {ℓ} :
    {A : Type ℓ} (xs : List A) (x : A) (ys : List A) → get_elem? (xs ++ x ∷ ys) (length xs) ≡ some x
get_elem?-middle [] x ys = refl
get_elem?-middle (y ∷ xs) x ys = get_elem?-middle xs x ys

pub Numbered-get_elem? {ℓ} :
    {A : Type ℓ} (f : A → ℕ) (n : ℕ) (xs : List A) (k : ℕ) (x : A)
    → Numbered f n xs
    → get_elem? xs k ≡ some x
    → f x ≡ n + k
Numbered-get_elem? f n [] k x h e = cc
Numbered-get_elem? f n (y ∷ xs) zero x h e =
    let q = some-injective y x e in ap f (sym q) ∙ (h.0 ∙ omega arith)
Numbered-get_elem? f n (y ∷ xs) (suc k) x h e =
    Numbered-get_elem? f (suc n) xs k x h.1 e ∙ omega arith

-- A job that is started has its printer, in the row that it notes.
started-Serves :
    (now : ℕ) (j : Job) (c d : List Printer) (p : Printer)
    → Suits j p
    → Numbered (λ r. r.0) 0 (catalogue (c ++ p ∷ d))
    → Serves (catalogue (c ++ p ∷ d)) (start now (length c) j)
started-Serves now j c d p s h =
    let at : get_elem? (catalogue (c ++ p ∷ d)) (length c) ≡ some (row p) =
      rw (map-append row c (p ∷ d), ← length-map row c)
        (get_elem?-middle (catalogue c) (row p) (catalogue d)) in
    let id_at : p.id ≡ length c =
      Numbered-get_elem? (λ r. r.0) 0 (catalogue (c ++ p ∷ d)) (length c) (row p) h at
      ∙ omega arith in
    (
      length c,
      row p,
      refl,
      at,
      s.same_type,
      ap (λ k. j.eligible_printers / 2 ^ k % 2) (sym id_at) ∙ s.eligible,
    )

waiting_free :
    (rows : List Row) (j : Job) → Serves rows j → j.status ≡ queued → j.chosen_printer ≡ none
waiting_free rows j h e = rw e at h

map_swap {ℓ κ} :
    {A : Type ℓ} {B : Type κ} (f : A → B) (xs : List A) (x y : A) (ys : List A)
    → f x ≡ f y
    → map f (xs ++ x ∷ ys) ≡ map f (xs ++ y ∷ ys)
map_swap f [] x y ys e = ap (λ z. z ∷ map f ys) e
map_swap f (z ∷ xs) x y ys e = ap (λ l. f z ∷ l) (map_swap f xs x y ys e)

All_swap {ℓ κ} :
    {A : Type ℓ} (P : A → Type κ) (xs : List A) (x y : A) (ys : List A)
    → P y
    → All P (xs ++ x ∷ ys)
    → All P (xs ++ y ∷ ys)
All_swap P xs x y ys p h =
    let (a, b) = All-split P xs (x ∷ ys) h in All-append P xs (y ∷ ys) a (p, b.1)

-- The parts that never change.
pub Step-unchanged :
    {now : ℕ} {s t : Board}
    → Step now s t
    → (catalogue t.1 ≡ catalogue s.1) × (tickets t.0 ≡ tickets s.0)
Step-unchanged (starts a b j c d p h) =
    (map_swap row c (occupied p) p d refl, map_swap ticket a (start _ _ j) j b refl)

holders-started :
    (now k : ℕ) (a b : List Job) (j : Job) (n : ℕ)
    → j.chosen_printer ≡ none
    → holders k (a ++ start now n j ∷ b) ≡ held k (some n) + holders k (a ++ j ∷ b)
unfolding holders
holders-started now k a b j n e =
    let x = holders-append k a (start now n j ∷ b) in
    let y = holders-append k a (j ∷ b) in
    let z : held k j.chosen_printer ≡ 0 = ap (held k) e in omega arith

pub Step-IsBoard : {now : ℕ} {s t : Board} → Step now s t → IsBoard s.0 s.1 → IsBoard t.0 t.1
Step-IsBoard {now} (starts a b j c d p h) i =
    let same = map_swap row c (occupied p) p d refl in
    let (_, ours) = All-split (Serves (catalogue (c ++ p ∷ d))) a (j ∷ b) i.served in
    let none_yet = waiting_free _ j ours.0 h.waits in
    record {
      ids = rw same i.ids;
      served = rw same (All_swap _ a j _ b (started-Serves now j c d p h i.ids) i.served);
      flags = All_swap _ c p (occupied p) d (omega arith) i.flags;
      balanced = λ k.
          holders-started now k a b j (length c) none_yet
          ∙ (ap (λ n. held k (some (length c)) + n) (i.balanced k)
              ∙ sym (busy_at-taken c d p k h.free));
    }

-- What a run of steps keeps.
pub Reach-unchanged :
    {now : ℕ} {s t : Board}
    → Reach now s t
    → IsBoard s.0 s.1
    → IsBoard t.0 t.1 × (catalogue t.1 ≡ catalogue s.1) × (tickets t.0 ≡ tickets s.0)
Reach-unchanged here i = (i, refl, refl)
Reach-unchanged (next h r) i =
    let (a, b) = Step-unchanged h in
    let (c, d, e) = Reach-unchanged r (Step-IsBoard h i) in (c, d ∙ a, e ∙ b)
