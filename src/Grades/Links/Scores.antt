-- ===== src/Grades/Links/Scores.antt =====
-- The links from scores to statistics that `do_links` of hw2/src/stats.c sets.
use mathlib.Core.List.{map-id, map-map}
use c_language.Prelude.{
  ℕ, zero, suc, ◌+◌, ◌<◌, ◌≤◌, ◌≡◌, ◌≢◌, refl, sym, ap, ◌∙◌, inl, inr, ◌⊎◌, true, false, none, some,
  List, [], ◌∷◌, map, All, arith, ltb, ◌==◌, if◌then◌else◌, Bool-cases, ==_iff, ==_ne,
}
use c_language.Grades.Links.{
  LinkedScore, Linking, link_score, visit_student, link_students, link_sections, link_assignments,
  do_links,
}
use c_language.Grades.Links.Laws.{write_same, write_other}

abbrev Absent : ℕ → List ℕ → Type 0
Absent x = All (λ y. x ≢ y)

abbrev Once : ℕ → List ℕ → Type 0
Once x [] = ⊥
Once x (y ∷ ys) = ((y ≡ x) × Absent x ys) ⊎ ((x ≢ y) × Once x ys)

-- Student `x` is once in the sections, in the one with number `k`.
abbrev pub OnlyIn : ℕ → ℕ → List (List ℕ) → Type 0
OnlyIn x k [] = ⊥
OnlyIn x zero (xs ∷ sections) = Once x xs × All (Absent x) sections
OnlyIn x (suc k) (xs ∷ sections) = Absent x xs × OnlyIn x k sections

-- A score with the links to the statistics of its assignment, for the class and for section `k`.
abbrev pub to_statistics : ℕ → LinkedScore → LinkedScore
to_statistics k sc = record sc { cstats = some sc.asgt; sstats = some k }

abbrev relinked : ℕ → ℕ → List LinkedScore → List LinkedScore
relinked a s = map (link_score a s)

students-Absent :
    (a s x : ℕ) (xs : List ℕ) (l : Linking)
    → Absent x xs
    → (link_students a s xs l).scores x ≡ l.scores x
unfolding link_students visit_student
students-Absent a s x [] l h = refl
students-Absent a s x (y ∷ ys) l h =
    students-Absent a s x ys (visit_student a s y l) h.1
    ∙ write_other y x (relinked a s (l.scores y)) l.scores h.0

visit_same :
    (a s x y : ℕ) (l : Linking)
    → y ≡ x
    → (visit_student a s y l).scores x ≡ relinked a s (l.scores x)
unfolding visit_student
visit_same a s x y l e = rw e (write_same x (relinked a s (l.scores x)) l.scores)

students-Once :
    (a s x : ℕ) (xs : List ℕ) (l : Linking)
    → Once x xs
    → (link_students a s xs l).scores x ≡ relinked a s (l.scores x)
unfolding link_students visit_student
students-Once a s x [] l h = elim h [ ]
students-Once a s x (y ∷ ys) l (inl h) =
    students-Absent a s x ys (visit_student a s y l) h.1 ∙ visit_same a s x y l h.0
students-Once a s x (y ∷ ys) l (inr h) =
    students-Once a s x ys (visit_student a s y l) h.1
    ∙ ap (relinked a s) (write_other y x (relinked a s (l.scores y)) l.scores h.0)

sections-Absent :
    (a s x : ℕ) (sections : List (List ℕ)) (l : Linking)
    → All (Absent x) sections
    → (link_sections a s sections l).scores x ≡ l.scores x
unfolding link_sections
sections-Absent a s x [] l h = refl
sections-Absent a s x (xs ∷ sections) l h =
    sections-Absent a (suc s) x sections (link_students a s xs l) h.1
    ∙ students-Absent a s x xs l h.0

sections_only :
    (a s x k : ℕ) (sections : List (List ℕ)) (l : Linking)
    → OnlyIn x k sections
    → (link_sections a s sections l).scores x ≡ relinked a (k + s) (l.scores x)
unfolding link_sections
sections_only a s x zero [] l h = elim h [ ]
sections_only a s x (suc k) [] l h = elim h [ ]
sections_only a s x zero (xs ∷ sections) l h =
    let e : s ≡ 0 + s = omega arith in
    sections-Absent a (suc s) x sections (link_students a s xs l) h.1
    ∙ (students-Once a s x xs l h.0 ∙ ap (λ n. relinked a n (l.scores x)) e)
sections_only a s x (suc k) (xs ∷ sections) l h =
    let e : k + suc s ≡ suc k + s = omega arith in
    sections_only a (suc s) x k sections (link_students a s xs l) h.1
    ∙ (ap (relinked a (k + suc s)) (students-Absent a s x xs l h.0)
        ∙ ap (λ n. relinked a n (l.scores x)) e)

-- What `n` assignments, from `a` on, make of a score of a student in section `k`.
linked_by : ℕ → ℕ → ℕ → LinkedScore → LinkedScore
linked_by zero a k sc = sc
linked_by (suc n) a k sc = linked_by n (suc a) k (link_score a k sc)

link_score_other : (a k : ℕ) (sc : LinkedScore) → (sc.asgt == a) ≡ false → link_score a k sc ≡ sc
unfolding link_score
link_score_other a k sc e = rw e refl

link_score_own :
    (a k : ℕ) (sc : LinkedScore) → (sc.asgt == a) ≡ true → link_score a k sc ≡ to_statistics k sc
unfolding link_score
link_score_own a k sc e = rw (e, sym ((==_iff sc.asgt a).0 e)) refl

linked_by_past : (n a k : ℕ) (sc : LinkedScore) → sc.asgt < a → linked_by n a k sc ≡ sc
unfolding linked_by
linked_by_past zero a k sc h = refl
linked_by_past (suc n) a k sc h =
    rw (link_score_other a k sc (ground arith)) (linked_by_past n (suc a) k sc (omega arith))

linked_by_value :
    (n a k : ℕ) (sc : LinkedScore)
    → a ≤ sc.asgt
    → linked_by n a k sc ≡ (if ltb sc.asgt (n + a) then to_statistics k sc else sc)
unfolding linked_by
linked_by_value zero a k sc h = let e : ltb sc.asgt (0 + a) ≡ false = ground arith in rw e refl
linked_by_value (suc n) a k sc h = elim (Bool-cases (sc.asgt == a)) [
  | inl e ↦
      let i = (==_iff sc.asgt a).0 e in
      let t : ltb sc.asgt (suc n + a) ≡ true = ground arith in
      rw (t, link_score_own a k sc e)
        (linked_by_past n (suc a) k (to_statistics k sc) (omega arith))
  | inr e ↦
      let i = ==_ne sc.asgt a e in
      let m : suc n + a ≡ n + suc a = omega arith in
      rw (link_score_other a k sc e, m) (linked_by_value n (suc a) k sc (omega arith))
]

assignments_scores :
    (n a x k : ℕ) (sections : List (List ℕ)) (l : Linking)
    → OnlyIn x k sections
    → (link_assignments a n sections l).scores x ≡ map (linked_by n a k) (l.scores x)
unfolding link_assignments linked_by
assignments_scores zero a x k sections l h = sym (map-id (l.scores x))
assignments_scores (suc n) a x k sections l h =
    let e : k + 0 ≡ k = omega arith in
    assignments_scores n (suc a) x k sections (link_sections a 0 sections l) h
    ∙ (ap (map (linked_by n (suc a) k))
          (sections_only a 0 x k sections l h ∙ ap (λ s. relinked a s (l.scores x)) e)
        ∙ map-map (linked_by n (suc a) k) (link_score a k) (l.scores x))

map_same :
    (f g : LinkedScore → LinkedScore) (scs : List LinkedScore)
    → ((sc : LinkedScore) → f sc ≡ g sc)
    → map f scs ≡ map g scs
map_same f g [] h = refl
map_same f g (sc ∷ scs) h = ap (λ y. y ∷ map f scs) (h sc) ∙ ap (λ r. g sc ∷ r) (map_same f g scs h)

-- `do_links` on `n` assignments links every score of a student who is once in the sections, in the
-- one with number `k`, to the statistics of its own assignment for the class and for section `k`,
-- where the assignment is one of the `n`; a score for any other assignment keeps its links.
pub do_links_scores :
    (n x k : ℕ) (sections : List (List ℕ)) (l : Linking)
    → OnlyIn x k sections
    → (do_links n sections l).scores x
      ≡ map (λ sc. if ltb sc.asgt n then to_statistics k sc else sc) (l.scores x)
unfolding do_links
do_links_scores n x k sections l h =
    let start : Linking = record l { links = record (l.links) { roster = none; rp = none } } in
    let e : n + 0 ≡ n = omega arith in
    assignments_scores n 0 x k sections start h
    ∙ map_same _ _ (l.scores x) (λ sc.
      linked_by_value n 0 k sc (omega arith)
      ∙ ap (λ m. if ltb sc.asgt m then to_statistics k sc else sc) e)
