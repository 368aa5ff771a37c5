-- ===== src/Grades/Sums.antt =====
-- Scores tallied for a class and for its sections: `do_freqs`, `do_sums` and `do_moments` of
-- hw2/src/stats.c.
pub mod Laws
use c_language.Prelude.{ℕ, zero, suc, ◌-◌, Bool, true, false, Option, none, some, ◌>>=◌}
use c_language.Prelude.{List, [], ◌∷◌, map, get_elem?, set, ltb, leb, ◌==◌, if◌then◌else◌}
use c_language.Grades.Float.{FloatOps}
use c_language.Grades.Data.{Freqs, Classstats, Tally, Score, counts}
use c_language.Grades.Freqs.{count_score}

module _ (F : FloatOps) where
  -- What `buildstats` leaves: the fields that it does not write hold `any`.
  unfoldable pub new_tally : F.Num → Tally F
  new_tally any = record {
    valid_count = 0;
    tallied = 0;
    sum = F.of_int 0;
    sumsq = F.of_int 0;
    min = any;
    max = any;
    mean = any;
    stddev = any;
    freqs = [];
  }

  unfoldable pub buildstats : {A B : Type 0} → F.Num → List A → List B → List (Classstats F)
  buildstats any assignments sections =
      map (λ a. record { tally = new_tally any; sstats = map (λ b. new_tally any) sections })
        assignments

  unfoldable pub tally_freq : F.Num → Tally F → Tally F
  tally_freq g t = record t { freqs = count_score F g t.freqs; tallied = suc t.tallied }

  -- One score of `do_freqs`, with the class and section statistics it points to.
  unfoldable pub freq_score : Score F → Tally F → Tally F → Tally F × Tally F
  freq_score s c t =
      if counts s.flag s.subst then (tally_freq s.grade c, tally_freq s.grade t) else (c, t)

  unfoldable pub widen : F.Num → Tally F → Tally F
  widen g t =
      let lower = if F.less g t.min then F.narrow g else t.min in
      let upper = if F.less t.max g then F.narrow g else t.max in
      record t { min = lower; max = upper }

  unfoldable pub start_range : F.Num → Tally F → Tally F
  start_range g t = record t { min = F.narrow g; max = F.narrow g }

  unfoldable pub add_sums : F.Num → Tally F → Tally F
  add_sums g t = record t {
    valid_count = suc t.valid_count;
    sum = F.plus t.sum g;
    sumsq = F.plus t.sumsq (F.times g g);
  }

  -- One score of `do_sums`. Beyond its first score a section widens the range of the class.
  unfoldable pub sum_score : Score F → Tally F → Tally F → Tally F × Tally F
  sum_score s c t =
      let g = s.grade in
      let c1 = if c.valid_count == 0 then start_range g c else widen g c in
      let c2 = if t.valid_count == 0 then c1 else widen g c1 in
      let t1 = if t.valid_count == 0 then start_range g t else t in
      if counts s.flag s.subst then (add_sums g c2, add_sums g t1) else (c, t)

  -- A step of either for a score in the statistics of the course; `none` where a pointer leads
  -- nowhere.
  unfoldable pub at_score :
      (Score F → Tally F → Tally F → Tally F × Tally F)
      → Score F
      → List (Classstats F)
      → Option (List (Classstats F))
  at_score step s cs = do
    c ← get_elem? cs s.asgt
    t ← get_elem? c.sstats s.section
    let (c', t') = step s c.tally t
    some (set cs s.asgt (record { tally = c'; sstats = set c.sstats s.section t' }))

  unfoldable pub over_scores :
      (Score F → Tally F → Tally F → Tally F × Tally F)
      → List (Score F)
      → List (Classstats F)
      → Option (List (Classstats F))
  over_scores step [] cs = some cs
  over_scores step (s ∷ rest) cs = at_score step s cs >>= over_scores step rest

  unfoldable pub over_roster :
      (Score F → Tally F → Tally F → Tally F × Tally F)
      → List (List (Score F))
      → List (Classstats F)
      → Option (List (Classstats F))
  over_roster step [] cs = some cs
  over_roster step (student ∷ rest) cs = over_scores step student cs >>= over_roster step rest

  unfoldable pub do_freqs :
      List (List (Score F)) → List (Classstats F) → Option (List (Classstats F))
  do_freqs = over_roster freq_score

  unfoldable pub do_sums :
      List (List (Score F)) → List (Classstats F) → Option (List (Classstats F))
  do_sums = over_roster sum_score

  unfoldable pub stddev : ℕ → F.Num → F.Num → F.Num
  stddev n sum sumsq =
      if leb 2 n
      then F.root (
          F.quotient (F.minus sumsq (F.quotient (F.times sum sum) (F.of_int n))) (F.of_int (n - 1)))
      else F.of_int 0

  unfoldable pub moments : Tally F → Tally F
  moments t =
      if t.valid_count == 0 then record t { mean = F.of_int 0; stddev = F.of_int 0 } else record t {
        mean = F.narrow (F.quotient t.sum (F.of_int t.valid_count));
        stddev =
            F.narrow
              (if t.valid_count == 1 then F.of_int 0 else stddev t.valid_count t.sum t.sumsq);
      }

  unfoldable pub do_moments : List (Classstats F) → List (Classstats F)
  do_moments cs = map (λ c. record { tally = moments c.tally; sstats = map moments c.sstats }) cs
