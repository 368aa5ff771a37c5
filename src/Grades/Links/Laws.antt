-- ===== src/Grades/Links/Laws.antt =====
-- The roster of the course that `do_links` of hw2/src/stats.c leaves.
use c_language.Prelude.{
  ℕ, zero, suc, ◌≡◌, ◌≢◌, refl, sym, ap, ◌∙◌, false, Option, none, some, List, [], ◌∷◌, ◌++◌, All,
  flatten, arith, ◌==◌, ==_refl,
}
use c_language.Grades.Links.{
  Links, Linking, write_at, link_after, link_student, visit_student, link_students, link_sections,
  link_assignments, do_links,
}

abbrev pub Distinct : List ℕ → Type 0
Distinct [] = Unit
Distinct (x ∷ xs) = All (λ y. x ≢ y) xs × Distinct xs

-- The field cnext leads through the students in order, and ends behind the last one.
abbrev pub Chain : (ℕ → Option ℕ) → ℕ → List ℕ → Type 0
Chain cnext x [] = cnext x ≡ none
Chain cnext x (y ∷ ys) = (cnext x ≡ some y) × Chain cnext y ys

unfoldable pass : List ℕ → Links → Links
pass [] l = l
pass (x ∷ xs) l = pass xs (link_student x l)

pub write_same {ℓ} : {A : Type ℓ} (k : ℕ) (v : A) (f : ℕ → A) → write_at k v f k ≡ v
unfolding write_at
write_same k v f = rw (==_refl k) refl

pub write_other {ℓ} : {A : Type ℓ} (k n : ℕ) (v : A) (f : ℕ → A) → n ≢ k → write_at k v f n ≡ f n
unfolding write_at
write_other k n v f h = let e : (n == k) ≡ false = ground arith in rw e refl

-- A student who has the turn behind `r`.
abbrev behind : ℕ → Option ℕ → (ℕ → Option ℕ) → Links
behind r roster cnext = record { roster = roster; rp = some r; cnext = cnext }

linked : ℕ → ℕ → (ℕ → Option ℕ) → ℕ → Option ℕ
linked r x cnext = write_at x none (write_at r (some x) cnext)

pass_next :
    (r x : ℕ) (xs : List ℕ) (roster : Option ℕ) (cnext : ℕ → Option ℕ)
    → pass (x ∷ xs) (behind r roster cnext) ≡ pass xs (behind x roster (linked r x cnext))
unfolding pass link_student link_after linked
pass_next r x xs roster cnext = refl

-- Students who are neither the last one nor still to come keep their links.
pass_keeps :
    (xs : List ℕ) (r z : ℕ) (roster : Option ℕ) (cnext : ℕ → Option ℕ)
    → z ≢ r
    → All (λ y. z ≢ y) xs
    → (pass xs (behind r roster cnext)).cnext z ≡ cnext z
unfolding pass linked
pass_keeps [] r z roster cnext n h = refl
pass_keeps (x ∷ xs) r z roster cnext n h =
    ap (λ l. l.cnext z) (pass_next r x xs roster cnext)
    ∙ (pass_keeps xs x z roster (linked r x cnext) h.0 h.1
        ∙ (write_other x z none _ h.0 ∙ write_other r z (some x) cnext n))

pass_chains :
    (xs : List ℕ) (r : ℕ) (roster : Option ℕ) (cnext : ℕ → Option ℕ)
    → cnext r ≡ none
    → Distinct (r ∷ xs)
    → Chain (pass xs (behind r roster cnext)).cnext r xs
unfolding pass linked link_student link_after
pass_chains [] r roster cnext e d = e
pass_chains (x ∷ xs) r roster cnext e d =
    let after = linked r x cnext in
    let kept = pass_keeps xs x r roster after d.0.0 d.0.1 in
    rw (pass_next r x xs roster cnext) (
      kept ∙ (write_other x r none _ d.0.0 ∙ write_same r (some x) cnext),
      pass_chains xs x roster after (write_same x none _) d.1,
    )

-- The local `rp` has a student, and the roster is kept.
abbrev Turn : Option ℕ → Links → Type 0
Turn roster l = (r : ℕ) × (l ≡ behind r roster l.cnext)

pass-Turn :
    (xs : List ℕ) (r : ℕ) (roster : Option ℕ) (cnext : ℕ → Option ℕ)
    → Turn roster (pass xs (behind r roster cnext))
unfolding pass
pass-Turn [] r roster cnext = (r, refl)
pass-Turn (x ∷ xs) r roster cnext =
    rw (pass_next r x xs roster cnext) (pass-Turn xs x roster (linked r x cnext))

-- The course's roster starts at `x` and leads through `xs`.
abbrev Rostered : ℕ → List ℕ → Links → Type 0
Rostered x xs l = (l.roster ≡ some x) × Chain l.cnext x xs

from_behind :
    (x : ℕ) (xs : List ℕ) (cnext : ℕ → Option ℕ)
    → cnext x ≡ none
    → Distinct (x ∷ xs)
    → Turn (some x) (pass xs (behind x (some x) cnext))
      × Rostered x xs (pass xs (behind x (some x) cnext))
from_behind x xs cnext e d =
    let turn = pass-Turn xs x (some x) cnext in
    (turn, (ap (λ l. l.roster) turn.1, pass_chains xs x (some x) cnext e d))

first_pass :
    (x : ℕ) (xs : List ℕ) (cnext : ℕ → Option ℕ)
    → Distinct (x ∷ xs)
    → let l = pass (x ∷ xs) (record { roster = none; rp = none; cnext = cnext }) in
      Turn (some x) l × Rostered x xs l
unfolding pass link_student link_after
first_pass x xs cnext d = from_behind x xs (write_at x none cnext) (write_same x none cnext) d

next_pass :
    (x : ℕ) (xs : List ℕ) (l : Links)
    → Distinct (x ∷ xs)
    → Turn (some x) l
    → Turn (some x) (pass (x ∷ xs) l) × Rostered x xs (pass (x ∷ xs) l)
unfolding linked
next_pass x xs l d t =
    rw (t.1, pass_next t.0 x xs (some x) l.cnext)
      (from_behind x xs (linked t.0 x l.cnext) (write_same x none _) d)

pass_append : (xs ys : List ℕ) (l : Links) → pass (xs ++ ys) l ≡ pass ys (pass xs l)
unfolding pass
pass_append [] ys l = refl
pass_append (x ∷ xs) ys l = pass_append xs ys (link_student x l)

students_pass :
    (a s : ℕ) (xs : List ℕ) (l : Linking) → (link_students a s xs l).links ≡ pass xs l.links
unfolding pass link_students visit_student
students_pass a s [] l = refl
students_pass a s (x ∷ xs) l = students_pass a s xs (visit_student a s x l)

sections_pass :
    (a s : ℕ) (sections : List (List ℕ)) (l : Linking)
    → (link_sections a s sections l).links ≡ pass (flatten sections) l.links
unfolding pass link_sections flatten
sections_pass a s [] l = refl
sections_pass a s (xs ∷ sections) l =
    sections_pass a (suc s) sections (link_students a s xs l)
    ∙ (ap (pass (flatten sections)) (students_pass a s xs l)
        ∙ sym (pass_append xs (flatten sections) l.links))

assignments_pass :
    (n a x : ℕ) (xs : List ℕ) (sections : List (List ℕ)) (l : Linking)
    → flatten sections ≡ x ∷ xs
    → Distinct (x ∷ xs)
    → Turn (some x) l.links × Rostered x xs l.links
    → Rostered x xs (link_assignments a n sections l).links
unfolding link_assignments
assignments_pass zero a x xs sections l e d h = h.1
assignments_pass (suc n) a x xs sections l e d h =
    let again : (link_sections a 0 sections l).links ≡ pass (x ∷ xs) l.links =
      rw (sections_pass a 0 sections l, e) refl in
    assignments_pass n (suc a) x xs sections (link_sections a 0 sections l) e d
      (rw again (next_pass x xs l.links d h.0))

-- With at least one assignment, and sections whose students are, one section behind the other, `x`
-- and then `xs`, all different, `do_links` leaves a course whose roster starts at `x` and whose
-- fields cnext lead through `xs` in that order and end behind the last student.
pub do_links_chains :
    (assignments x : ℕ) (xs : List ℕ) (sections : List (List ℕ)) (l : Linking)
    → flatten sections ≡ x ∷ xs
    → Distinct (x ∷ xs)
    → let after = (do_links (suc assignments) sections l).links in
      (after.roster ≡ some x) × Chain after.cnext x xs
unfolding do_links link_assignments
do_links_chains n x xs sections l e d =
    let start : Linking = record l { links = record (l.links) { roster = none; rp = none } } in
    let first : (link_sections 0 0 sections start).links ≡ pass (x ∷ xs) start.links =
      rw (sections_pass 0 0 sections start, e) refl in
    assignments_pass n 1 x xs sections (link_sections 0 0 sections start) e d
      (rw first (first_pass x xs l.links.cnext d))
