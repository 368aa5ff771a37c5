-- ===== src/Spooler/Invariant/Printers.antt =====
-- `printer` of hw4/src/main.c keeps what holds of the tables.
use c_language.Prelude.{is_true, and_true}
use c_language.Prelude.{map-append, length-map}
use c_language.Prelude.{
  ℕ, zero, suc, ◌+◌, ◌≡◌, ◌≢◌, refl, sym, ap, ◌∙◌, inl, inr, true, false, not, ◌&&◌, Option, some,
  List, [], ◌∷◌, ◌++◌, length, get_elem?, All, All-append, All-weaken, arith, ltb, Bool-cases,
  same_text, same_text_refl,
}
use c_language.Spooler.State.{
  Text, Printer, queued, running, paused, completed, aborted, JobStatus, Spooler,
}
use c_language.Spooler.Texts.{fits}
use c_language.Spooler.Commands.{is_declared, is_printer, new_printer, declare_printer}
use c_language.Spooler.Invariant.{
  Row, row, catalogue, Numbered, Distinct, Served, busy_at, IsSpooler,
}
use c_language.Spooler.Invariant.Tables.{Always, Always-if, add_room}

pub Numbered-append {ℓ} :
    {A : Type ℓ} (f : A → ℕ) (n : ℕ) (xs : List A) (x : A)
    → Numbered f n xs
    → f x ≡ n + length xs
    → Numbered f n (xs ++ x ∷ [])
Numbered-append f n [] x h e = (e ∙ omega arith, tt)
Numbered-append f n (y ∷ xs) x h e = (h.0, Numbered-append f (suc n) xs x h.1 (e ∙ omega arith))

get_elem?-append {ℓ} :
    {A : Type ℓ} (xs ys : List A) (k : ℕ) (x : A)
    → get_elem? xs k ≡ some x
    → get_elem? (xs ++ ys) k ≡ some x
get_elem?-append [] ys k x e = cc
get_elem?-append (y ∷ xs) ys zero x e = e
get_elem?-append (y ∷ xs) ys (suc k) x e = get_elem?-append xs ys k x e

Served-append :
    (rows more : List Row) (chosen : Option ℕ) (type : Text) (eligible : ℕ) (status : JobStatus)
    → Served rows chosen type eligible status
    → Served (rows ++ more) chosen type eligible status
Served-append rows more chosen type eligible queued h = h
Served-append rows more chosen type eligible running (k, r, a, b, c, d) =
    (k, r, a, get_elem?-append rows more k r b, c, d)
Served-append rows more chosen type eligible paused h = absurd h
Served-append rows more chosen type eligible completed h = absurd h
Served-append rows more chosen type eligible aborted h = h

busy_at-append :
    (ps : List Printer) (p : Printer) (k : ℕ) → p.busy ≡ 0 → busy_at (ps ++ p ∷ []) k ≡ busy_at ps k
unfolding busy_at
busy_at-append [] p zero h = h
busy_at-append [] p (suc k) h = refl
busy_at-append (q ∷ ps) p zero h = refl
busy_at-append (q ∷ ps) p (suc k) h = busy_at-append ps p k h

new_name :
    (name : Text) (ps : List Printer)
    → is_printer name ps ≡ false
    → All (λ q. q.1 ≢ name) (catalogue ps)
unfolding is_printer
new_name name [] h = tt
new_name name (p ∷ ps) h = elim (Bool-cases (same_text p.name name)) [
  | inl e ↦ let t : true ≡ false = (rw e at h) in cc
  | inr e ↦
      let rest : is_printer name ps ≡ false = (rw e at h) in
      (
        λ q.
            let t : same_text p.name name ≡ true =
              ap (λ z. same_text z name) q ∙ same_text_refl name in
            cc,
        new_name name ps rest,
      )
]

Distinct-append :
    (rows : List Row) (r : Row)
    → Distinct rows
    → All (λ q. q.1 ≢ r.1) rows
    → Distinct (rows ++ r ∷ [])
Distinct-append [] r h n = (tt, tt)
Distinct-append (q ∷ rows) r h n =
    (All-append _ rows (r ∷ []) h.0 (n.0, tt), Distinct-append rows r h.1 n.1)

add_printer :
    (s : Spooler) (name type : Text)
    → IsSpooler s
    → is_printer name s.printers ≡ false
    → is_declared type s.types ≡ true
    → ltb (length s.printers) 32 ≡ true
    → IsSpooler (record s { printers = s.printers ++ new_printer s name type ∷ [] })
add_printer s name type i fresh known room =
    let p = new_printer s name type in
    let rows : catalogue (s.printers ++ p ∷ []) ≡ catalogue s.printers ++ row p ∷ [] =
      map-append row s.printers (p ∷ []) in
    let counted = length-map row s.printers in
    record {
      matched = record {
        ids = rw rows (Numbered-append _ 0 _ (row p) i.matched.ids (sym counted ∙ omega arith));
        served =
            rw rows (All-weaken _ _ (λ j h. Served-append _ _ _ _ _ j.status h) _ i.matched.served);
        flags = All-append _ _ _ i.matched.flags (omega arith, tt);
        balanced = λ k. i.matched.balanced k ∙ sym (busy_at-append s.printers p k refl);
      };
      names = rw rows (Distinct-append _ (row p) i.names (new_name name s.printers fresh));
      printers_room = rw rows (add_room (catalogue s.printers) (row p) 32 (rw counted room));
      jobs_room = i.jobs_room;
      types_room = i.types_room;
      conversions_room = i.conversions_room;
      printable = rw rows (All-append _ _ _ i.printable (known, tt));
      declared = i.declared;
      jobids = i.jobids;
    }

pub declare_printer-IsSpooler :
    (s : Spooler) (name type : Text) → IsSpooler s → Always IsSpooler (declare_printer s name type)
unfolding declare_printer
declare_printer-IsSpooler s name type i =
    Always-if _ (is_printer name s.printers) _ _ (λ _. i)
      λ fresh.
        Always-if _ (not (is_declared type s.types)) _ _ (λ _. i)
          λ known.
            Always-if _ (ltb (length s.printers) 32 && (fits name && fits type)) _ _
              (λ room. add_printer s name type i fresh (is_true _ known) (and_true _ _ room).0)
              λ _. tt
