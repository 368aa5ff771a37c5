-- ===== src/Grades/Links/Tests.antt =====
-- The model of `do_links` of hw2/src/stats.c run on a small course, and the theorems applied to it.
use c_language.Prelude.{
  ◌≡◌, refl, inl, inr, none, some, [], ◌∷◌, map, flatten, arith, ltb, ◌==◌, if◌then◌else◌,
}
use c_language.Grades.Links.{LinkedScore, Links, Linking, do_links}
use c_language.Grades.Links.Laws.{Chain, do_links_chains}
use c_language.Grades.Links.Scores.{to_statistics, do_links_scores}

-- Student 4 has a score for assignment 1.
abbrev unlinked : Linking
unlinked = record {
  links = record { roster = none; rp = none; cnext = λ n. none };
  scores = λ n. if n == 4 then record { asgt = 1; cstats = none; sstats = none } ∷ [] else [];
}

-- The score of student 4, who is in the second of two sections, is linked to its statistics.
score_linked :
    (do_links 2 ((7 ∷ []) ∷ (5 ∷ 4 ∷ []) ∷ []) unlinked).scores 4
    ≡ record { asgt = 1; cstats = some 1; sstats = some 1 } ∷ []
unfolding do_links c_language.Grades.Links.link_assignments c_language.Grades.Links.link_sections
    c_language.Grades.Links.link_students c_language.Grades.Links.visit_student
    c_language.Grades.Links.write_at c_language.Grades.Links.link_score
score_linked = refl

do_links_chains_example :
    let after = (do_links 2 ((7 ∷ []) ∷ (5 ∷ 4 ∷ []) ∷ []) unlinked).links in
    (after.roster ≡ some 7) × Chain after.cnext 7 (5 ∷ 4 ∷ [])
unfolding flatten
do_links_chains_example =
    do_links_chains 1 7 (5 ∷ 4 ∷ []) ((7 ∷ []) ∷ (5 ∷ 4 ∷ []) ∷ []) unlinked refl
      ((omega arith, (omega arith, tt)), ((omega arith, tt), (tt, tt)))

do_links_scores_example :
    (do_links 2 ((7 ∷ []) ∷ (5 ∷ 4 ∷ []) ∷ []) unlinked).scores 4
    ≡ map (λ sc. if ltb sc.asgt 2 then to_statistics 1 sc else sc) (unlinked.scores 4)
do_links_scores_example =
    do_links_scores 2 4 1 ((7 ∷ []) ∷ (5 ∷ 4 ∷ []) ∷ []) unlinked
      ((omega arith, tt), (inr (omega arith, inl (refl, tt)), tt))
