-- ===== src/Grades/Links.antt =====
-- `do_links` of hw2/src/stats.c. Students are numbers, and a section is the list of its students;
-- assignments and sections are the numbers of their places, which are those of the statistics.
pub mod Laws
pub mod Scores
mod Tests
use c_language.Prelude.{ℕ, zero, suc, Option, none, some, List, [], ◌∷◌, map, ◌==◌, if◌then◌else◌}

-- The links of a score: to the statistics of a class, and of a section in it.
pub record LinkedScore : Type 0 where
  pub asgt : ℕ
  pub cstats : Option ℕ
  pub sstats : Option ℕ

-- c->roster, the local rp, and the field cnext of every student.
pub record Links : Type 0 where
  pub roster : Option ℕ
  pub rp : Option ℕ
  pub cnext : ℕ → Option ℕ

pub record Linking : Type 0 where
  pub links : Links
  pub scores : ℕ → List LinkedScore

unfoldable pub write_at {ℓ} : {A : Type ℓ} → ℕ → A → (ℕ → A) → ℕ → A
write_at k v f n = if n == k then v else f n

unfoldable pub link_after : ℕ → Option ℕ → Links → Links
link_after stp none l = record {
  roster = some stp;
  rp = some stp;
  cnext = write_at stp none l.cnext;
}
link_after stp (some r) l = record {
  roster = l.roster;
  rp = some stp;
  cnext = write_at stp none (write_at r (some stp) l.cnext);
}

unfoldable pub link_student : ℕ → Links → Links
link_student stp l = link_after stp l.rp l

unfoldable pub link_score : ℕ → ℕ → LinkedScore → LinkedScore
link_score ap sep scp =
    if scp.asgt == ap then record scp { cstats = some ap; sstats = some sep } else scp

unfoldable pub visit_student : ℕ → ℕ → ℕ → Linking → Linking
visit_student ap sep stp l = record {
  links = link_student stp l.links;
  scores = write_at stp (map (link_score ap sep) (l.scores stp)) l.scores;
}

unfoldable pub link_students : ℕ → ℕ → List ℕ → Linking → Linking
link_students ap sep [] l = l
link_students ap sep (stp ∷ roster) l = link_students ap sep roster (visit_student ap sep stp l)

unfoldable pub link_sections : ℕ → ℕ → List (List ℕ) → Linking → Linking
link_sections ap sep [] l = l
link_sections ap sep (roster ∷ sections) l =
    link_sections ap (suc sep) sections (link_students ap sep roster l)

-- The loop over the assignments, from `ap` on.
unfoldable pub link_assignments : ℕ → ℕ → List (List ℕ) → Linking → Linking
link_assignments ap zero sections l = l
link_assignments ap (suc n) sections l =
    link_assignments (suc ap) n sections (link_sections ap 0 sections l)

unfoldable pub do_links : ℕ → List (List ℕ) → Linking → Linking
do_links assignments sections l =
    link_assignments 0 assignments sections
      (record l { links = record (l.links) { roster = none; rp = none } })
