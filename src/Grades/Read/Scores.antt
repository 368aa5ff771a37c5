-- ===== src/Grades/Read/Scores.antt =====
-- The scores and the students of hw2/src/read.c. `fresh` is what newscore leaves in a score.
use c_language.Prelude.{
  ℕ, zero, suc, Bool, ◌||◌, Option, none, some, ◌>>=◌, List, [], ◌∷◌, ◌++◌, length, if◌then◌else◌,
  same_text,
}
use c_language.Grades.Float.{FloatOps}
use c_language.Grades.Data.{
  valid, invalid, Gsubst, use_raw, use_norm, use_like_avg, use_class_avg, Npolicy, raw,
  linear_policy, quantile, scale_policy,
}
use c_language.Grades.Records.{ScoreLine, StudentLines, AssignmentLines}
use c_language.Grades.Read.{
  Reader, Complaint, expected_score, expected_value, expected_normalized, quantile_range,
  scale_range, flushtoken, complain, need_token, advanceeol,
}
use c_language.Grades.Read.Lines.{expectnewline, newstring}
use c_language.Grades.Read.Names.{readid, readsurname, readname}
use c_language.Grades.Read.Assignments.{on_key, scan_token, number_or}

abbrev useraw : List ℕ
useraw = b'U' ∷ b'S' ∷ b'E' ∷ b'R' ∷ b'A' ∷ b'W' ∷ []

abbrev usenorm : List ℕ
usenorm = b'U' ∷ b'S' ∷ b'E' ∷ b'N' ∷ b'O' ∷ b'R' ∷ b'M' ∷ []

abbrev uselikeavg : List ℕ
uselikeavg = b'U' ∷ b'S' ∷ b'E' ∷ b'L' ∷ b'I' ∷ b'K' ∷ b'E' ∷ b'A' ∷ b'V' ∷ b'G' ∷ []

abbrev useclassavg : List ℕ
useclassavg = b'U' ∷ b'S' ∷ b'E' ∷ b'C' ∷ b'L' ∷ b'A' ∷ b'S' ∷ b'S' ∷ b'A' ∷ b'V' ∷ b'G' ∷ []

abbrev score : List ℕ
score = b'S' ∷ b'C' ∷ b'O' ∷ b'R' ∷ b'E' ∷ []

abbrev student : List ℕ
student = b'S' ∷ b'T' ∷ b'U' ∷ b'D' ∷ b'E' ∷ b'N' ∷ b'T' ∷ []

-- The chain of checktoken in readgrade; `none` is VALID.
unfoldable pub read_subst : Reader → Option (Option Gsubst × Reader)
read_subst r =
    on_key useraw r (λ s. some (some use_raw, s))
      λ r.
        on_key usenorm r (λ s. some (some use_norm, s))
          λ r.
            on_key uselikeavg r (λ s. some (some use_like_avg, s))
              λ r. on_key useclassavg r (λ s. some (some use_class_avg, s)) λ r. some (none, r)

module _ (F : FloatOps) (scan : List ℕ → Option F.Num) where
  -- if(!istoken()) advancetoken(); and the number, or 0.0 after a complaint.
  unfoldable pub number_now : Complaint → Reader → Option (F.Num × Reader)
  number_now e r = do
    s ← need_token r
    some (number_or F scan e (F.of_int 0) (scan_token F scan s) s)

  unfoldable pub outside : F.Num → F.Num → Bool
  outside f top = F.less f (F.of_int 0) || F.less top f

  -- The checks of a normalized score by the policy; those of LINEAR only warn.
  unfoldable pub check_norm : AssignmentLines F → F.Num → Npolicy → Reader → Reader
  check_norm a f raw r = r
  check_norm a f linear_policy r = r
  check_norm a f quantile r = if outside f (F.of_int 100) then complain quantile_range r else r
  check_norm a f scale_policy r = if outside f a.scale then complain scale_range r else r

  unfoldable pub norm_value : AssignmentLines F → Option F.Num → Reader → F.Num × Reader
  norm_value a (some f) r = (f, check_norm a f a.policy (flushtoken r))
  norm_value a none r = (F.of_int 0, complain expected_normalized r)

  -- The switch of readgrade over the substitution.
  unfoldable pub subst_value :
      AssignmentLines F → ScoreLine F → Gsubst → Reader → Option (ScoreLine F × Reader)
  subst_value a s use_raw r = do
    t ← number_now expected_value r
    some (record s { grade = t.0 }, t.1)
  subst_value a s use_norm r = do
    u ← need_token r
    let t = norm_value a (scan_token F scan u) u
    some (record s { qnorm = t.0; lnorm = t.0; snorm = t.0 }, t.1)
  subst_value a s use_like_avg r = some (s, r)
  subst_value a s use_class_avg r = some (s, r)

  -- The rest of the line is the reason.
  unfoldable pub read_code : ScoreLine F × Reader → Option (ScoreLine F × Reader)
  read_code t = do
    r ← advanceeol t.1
    some (record (t.0) { code = newstring r.token }, flushtoken r)

  unfoldable pub grade_value :
      AssignmentLines F → ScoreLine F → Option Gsubst → Reader → Option (ScoreLine F × Reader)
  grade_value a s none r = do
    t ← number_now expected_score r
    some (record s { flag = valid; grade = t.0 }, t.1)
  grade_value a s (some u) r =
      subst_value a (record s { flag = invalid; subst = u }) u r >>= read_code

  unfoldable pub readgrade :
      AssignmentLines F → ScoreLine F → Reader → Option (ScoreLine F × Reader)
  readgrade a s r = do t ← read_subst r; grade_value a s t.0 t.1

  -- The loop over the assignments; an assignment that is not found is fatal.
  unfoldable pub find_asgt : List ℕ → List (AssignmentLines F) → Option (AssignmentLines F)
  find_asgt token [] = none
  find_asgt token (a ∷ rest) =
      let later = find_asgt token rest in
      if same_text (a.asgt_id ++ 0 ∷ []) token then some a else later

  module _ (fresh : ScoreLine F) (asgts : List (AssignmentLines F)) where
    unfoldable pub read_score : Reader → Option (ScoreLine F × Reader)
    read_score r = do
      s ← need_token r
      a ← find_asgt s.token asgts
      t ← readgrade a (record fresh { asgt_name = a.asgt_id; npolicy = a.policy }) (flushtoken s)
      u ← expectnewline t.1
      some (t.0, u)

    unfoldable pub scores_loop : ℕ → Reader → Option (List (ScoreLine F) × Reader)
    scores_loop zero r = none
    scores_loop (suc fuel) r =
        on_key score r
          (λ s. do t ← read_score s; rest ← scores_loop fuel t.1; some (t.0 ∷ rest.0, rest.1))
          λ r. some ([], r)

    unfoldable pub readscores : Reader → Option (List (ScoreLine F) × Reader)
    readscores r = scores_loop (suc (length r.ifile.input)) r

    unfoldable pub read_student : Reader → Option (StudentLines F × Reader)
    read_student r = do
      i ← readid r
      s ← readsurname i.1
      n ← readname s.1
      g ← readscores n.1
      some (record { id = i.0; surname = s.0; name = n.0; rawscores = g.0 }, g.1)

    unfoldable pub students_loop : ℕ → Reader → Option (List (StudentLines F) × Reader)
    students_loop zero r = none
    students_loop (suc fuel) r =
        on_key student r
          (λ s. do t ← read_student s; rest ← students_loop fuel t.1; some (t.0 ∷ rest.0, rest.1))
          λ r. some ([], r)

    unfoldable pub readstudents : Reader → Option (List (StudentLines F) × Reader)
    readstudents r = students_loop (suc (length r.ifile.input)) r
