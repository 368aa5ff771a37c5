-- ===== src/Grades/Normal.antt =====
-- The normalization of hw2/src/normal.c. The warnings it prints are left out.
pub mod Average
use c_language.Prelude.{same_text}
use c_language.Prelude.{ℕ, zero, suc, ◌+◌, Bool, true, false, ◌&&◌, ◌||◌, Option, none, some, ◌>>=◌}
use c_language.Prelude.{List, [], ◌∷◌, map, get_elem?, ltb, leb, ◌==◌, if◌then◌else◌}
use c_language.Grades.Float.{FloatOps}
use c_language.Grades.Data.{
  Freqs, Classstats, Tally, Score, Assignment, Ngroup, Npolicy, Wpolicy, counts,
}
use c_language.Grades.Data.{
  raw, linear_policy, quantile, scale_policy, by_class, by_section, weighted, no_weight,
}
use c_language.Grades.Data.{
  valid, invalid, use_raw, use_norm, use_like_avg, use_class_avg, Gflag, Gsubst,
}

unfoldable pub is_quantile : Npolicy → Bool
is_quantile quantile = true
is_quantile raw = false
is_quantile linear_policy = false
is_quantile scale_policy = false

module _ (F : FloatOps) where
  unfoldable pub linear : F.Num → F.Num → F.Num → F.Num → F.Num → F.Num
  linear s rm rd nm nd = F.narrow (F.plus (F.quotient (F.times nd (F.minus s rm)) rd) nm)

  unfoldable pub scale_score : F.Num → F.Num → F.Num → F.Num
  scale_score s max scale = F.narrow (F.quotient (F.times s scale) max)

  -- `if(x < EPSILON) x = 2*EPSILON`. The code leaves the new value in the statistics and the
  -- assignment, where the next call keeps it.
  unfoldable pub not_tiny : F.Num → F.Num
  not_tiny x = if F.less x F.epsilon then F.narrow (F.times (F.of_int 2) F.epsilon) else x

  -- The loop over the buckets; the score itself behind the last one.
  unfoldable pub percentile : F.Num → ℕ → List (Freqs F) → F.Num
  percentile s n [] = F.narrow s
  percentile s n (fp ∷ rest) =
      let later = percentile s n rest in
      let found =
        F.narrow (F.quotient (F.times (F.of_int fp.numless) (F.of_int 100)) (F.of_int n)) in
      if F.less s fp.score then found else (if F.same s fp.score then found else later)

  unfoldable pub chosen : Ngroup → Tally F → Tally F → Tally F
  chosen by_class c t = c
  chosen by_section c t = t

  unfoldable pub by_policy : Npolicy → Assignment F → F.Num → Tally F → F.Num
  by_policy raw a s t = F.narrow s
  by_policy linear_policy a s t = linear s t.mean (not_tiny t.stddev) a.mean a.stddev
  by_policy scale_policy a s t = scale_score s (not_tiny a.max) a.scale
  by_policy quantile a s t = percentile s (if t.tallied == 0 then 1 else t.tallied) t.freqs

  unfoldable pub normal : Assignment F → F.Num → Tally F → Tally F → F.Num
  normal a s c t = by_policy a.npolicy a s (chosen a.ngroup c t)

  -- What the code finds behind a score's pointers.
  pub record Linked : Type 0 where
    pub asgt : Assignment F
    pub cstats : Tally F
    pub sstats : Tally F

  unfoldable pub follow : List (Assignment F) → List (Classstats F) → Score F → Option Linked
  follow assignments cs s = do
    a ← get_elem? assignments s.asgt
    c ← get_elem? cs s.asgt
    t ← get_elem? c.sstats s.section
    some (record { asgt = a; cstats = c.tally; sstats = t })

  -- The variables `n`, `wp`, `sum` and `w` of `studentavg`.
  pub record AverageState : Type 0 where
    pub n : ℕ
    pub wp : Bool
    pub sum : F.Num
    pub w : F.Num

  unfoldable pub add_weighted : Wpolicy → F.Num → F.Num → AverageState → AverageState
  add_weighted weighted f weight v = record v {
    n = suc v.n;
    wp = true;
    sum = F.plus v.sum (F.narrow (F.times f weight));
    w = F.narrow (F.plus v.w weight);
  }
  add_weighted no_weight f weight v = record v { n = suc v.n; sum = F.plus v.sum f }

  unfoldable pub average_score : List ℕ → Score F → Linked → AverageState → AverageState
  average_score type s l v =
      if same_text l.asgt.atype type && counts s.flag s.subst
      then add_weighted l.asgt.wpolicy (normal l.asgt s.grade l.cstats l.sstats) l.asgt.weight v
      else v

  unfoldable pub average_loop :
      List (Assignment F)
      → List (Classstats F)
      → List ℕ
      → List (Score F)
      → AverageState
      → Option AverageState
  average_loop asgts cs type [] v = some v
  average_loop asgts cs type (s ∷ rest) v =
      follow asgts cs s >>= (λ l. average_loop asgts cs type rest (average_score type s l v))

  unfoldable pub average_of : AverageState → F.Num
  average_of v =
      if (v.n == 0) || F.same v.w (F.of_int 0)
      then F.of_int 0
      else F.narrow (if v.wp then F.quotient v.sum v.w else F.quotient v.sum (F.of_int v.n))

  unfoldable pub studentavg :
      List (Assignment F) → List (Classstats F) → List (Score F) → List ℕ → Option F.Num
  studentavg asgts cs scores type =
      average_loop asgts cs type scores
        (record { n = 0; wp = false; sum = F.of_int 0; w = F.of_int 0 })
      >>= (λ v. some (average_of v))

  unfoldable pub substitute :
      List (Assignment F)
      → List (Classstats F)
      → List (Score F)
      → Gsubst
      → Score F
      → Linked
      → Option F.Num
  substitute asgts cs scores use_raw s l = some (normal l.asgt s.grade l.cstats l.sstats)
  substitute asgts cs scores use_norm s l =
      some (if is_quantile l.asgt.npolicy then s.qnorm else s.lnorm)
  substitute asgts cs scores use_like_avg s l = studentavg asgts cs scores l.asgt.atype
  substitute asgts cs scores use_class_avg s l =
      some (if is_quantile l.asgt.npolicy then F.of_int 50 else l.asgt.mean)

  unfoldable pub normal_grade :
      List (Assignment F)
      → List (Classstats F)
      → List (Score F)
      → Gflag
      → Score F
      → Linked
      → Option F.Num
  normal_grade asgts cs scores valid s l = some (normal l.asgt s.grade l.cstats l.sstats)
  normal_grade asgts cs scores invalid s l = substitute asgts cs scores s.subst s l

  -- The normalized scores of one student, `scores` being all the raw ones.
  unfoldable pub normalize_scores :
      List (Assignment F)
      → List (Classstats F)
      → List (Score F)
      → List (Score F)
      → Option (List (Score F))
  normalize_scores asgts cs scores [] = some []
  normalize_scores asgts cs scores (s ∷ rest) = do
    l ← follow asgts cs s
    g ← normal_grade asgts cs scores s.flag s l
    more ← normalize_scores asgts cs scores rest
    some (record s { grade = g } ∷ more)

  unfoldable pub normalize :
      List (Assignment F)
      → List (Classstats F)
      → List (List (Score F))
      → Option (List (List (Score F)))
  normalize asgts cs [] = some []
  normalize asgts cs (scores ∷ rest) = do
    n ← normalize_scores asgts cs scores scores
    more ← normalize asgts cs rest
    some (n ∷ more)

  -- The inner loop of `composites`, for the assignment at position `ap`.
  unfoldable pub weight_by : Wpolicy → Assignment F → F.Num
  weight_by weighted a = a.weight
  weight_by no_weight a = F.of_int 1

  unfoldable pub weight_of : Assignment F → F.Num
  weight_of a = weight_by a.wpolicy a

  unfoldable pub composite_scores : ℕ → Assignment F → List (Score F) → F.Num → F.Num
  composite_scores ap a [] sum = sum
  composite_scores ap a (s ∷ rest) sum =
      composite_scores ap a rest
        (if s.asgt == ap then F.narrow (F.plus sum (F.times s.grade (weight_of a))) else sum)

  unfoldable pub composite : ℕ → List (Assignment F) → List (Score F) → F.Num → F.Num
  composite ap [] scores sum = sum
  composite ap (a ∷ rest) scores sum =
      composite (suc ap) rest scores (composite_scores ap a scores sum)

  -- For the normalized scores of every student.
  unfoldable pub composites : List (Assignment F) → List (List (Score F)) → List F.Num
  composites asgts students = map (λ scores. composite 0 asgts scores (F.of_int 0)) students
