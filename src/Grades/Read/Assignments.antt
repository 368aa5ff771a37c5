-- ===== src/Grades/Read/Assignments.antt =====
-- The assignments of hw2/src/read.c. `scan` is sscanf(tokenptr, "%f", &f) on the token, and
-- `uninit` what a field holds that newassignment leaves as it is.
use c_language.Prelude.{
  ℕ, zero, suc, Bool, true, false, Option, none, some, ◌>>=◌, List, [], ◌∷◌, length, if◌then◌else◌,
}
use c_language.Grades.Float.{FloatOps}
use c_language.Grades.Data.{
  weighted, no_weight, raw, linear_policy, quantile, scale_policy, by_class, by_section,
}
use c_language.Grades.Read.{
  Reader, Complaint, expected_weight, expected_maximum, expected_mean, expected_stddev,
  expected_scale, expected_normalization, istoken, flushtoken, complain, advancetoken, checktoken,
}
use c_language.Grades.Read.Lines.{expectnewline}
use c_language.Grades.Read.Names.{readid, readatype}
use c_language.Grades.Records.{AssignmentLines}

abbrev pub weight : List ℕ
weight = b'W' ∷ b'E' ∷ b'I' ∷ b'G' ∷ b'H' ∷ b'T' ∷ []

abbrev pub normalize : List ℕ
normalize = b'N' ∷ b'O' ∷ b'R' ∷ b'M' ∷ b'A' ∷ b'L' ∷ b'I' ∷ b'Z' ∷ b'E' ∷ []

abbrev pub maximum : List ℕ
maximum = b'M' ∷ b'A' ∷ b'X' ∷ b'I' ∷ b'M' ∷ b'U' ∷ b'M' ∷ []

abbrev pub assignment : List ℕ
assignment = b'A' ∷ b'S' ∷ b'S' ∷ b'I' ∷ b'G' ∷ b'N' ∷ b'M' ∷ b'E' ∷ b'N' ∷ b'T' ∷ []

abbrev raw_key : List ℕ
raw_key = b'R' ∷ b'A' ∷ b'W' ∷ []

abbrev stdlinear : List ℕ
stdlinear = b'S' ∷ b'T' ∷ b'D' ∷ b'L' ∷ b'I' ∷ b'N' ∷ b'E' ∷ b'A' ∷ b'R' ∷ []

abbrev genlinear : List ℕ
genlinear = b'G' ∷ b'E' ∷ b'N' ∷ b'L' ∷ b'I' ∷ b'N' ∷ b'E' ∷ b'A' ∷ b'R' ∷ []

abbrev quantile_key : List ℕ
quantile_key = b'Q' ∷ b'U' ∷ b'A' ∷ b'N' ∷ b'T' ∷ b'I' ∷ b'L' ∷ b'E' ∷ []

abbrev scale_key : List ℕ
scale_key = b'S' ∷ b'C' ∷ b'A' ∷ b'L' ∷ b'E' ∷ []

abbrev byclass : List ℕ
byclass = b'B' ∷ b'Y' ∷ b'C' ∷ b'L' ∷ b'A' ∷ b'S' ∷ b'S' ∷ []

abbrev bysection : List ℕ
bysection = b'B' ∷ b'Y' ∷ b'S' ∷ b'E' ∷ b'C' ∷ b'T' ∷ b'I' ∷ b'O' ∷ b'N' ∷ []

-- if(checktoken(key)) ... else ...
unfoldable pub on_key {ℓ} :
    {A : Type ℓ} → List ℕ → Reader → (Reader → Option A) → (Reader → Option A) → Option A
on_key key r found other = do
  t ← checktoken key r
  elim t.0 [ true ↦ found t.1 | false ↦ other t.1 ]

module _ (F : FloatOps) (scan : List ℕ → Option F.Num) where
  abbrev pub scan_token : Reader → Option F.Num
  scan_token r = if istoken r then scan r.token else none

  -- The number in the buffer, which is flushed, or a complaint and what the field is set to then.
  unfoldable pub number_or : Complaint → F.Num → Option F.Num → Reader → F.Num × Reader
  number_or e default (some f) r = (f, flushtoken r)
  number_or e default none r = (default, complain e r)

  unfoldable pub read_number : Complaint → F.Num → Reader → Option (F.Num × Reader)
  read_number e default r = do s ← advancetoken r; some (number_or e default (scan_token s) s)

  abbrev Asgt : Type 0
  Asgt = AssignmentLines F

  unfoldable pub weigh : Asgt → Option F.Num → Reader → Asgt × Reader
  weigh a (some f) r = (record a { wpolicy = weighted; weight = f }, flushtoken r)
  weigh a none r = (record a { wpolicy = no_weight }, complain expected_weight r)

  unfoldable pub readweight : Asgt → Reader → Option (Asgt × Reader)
  readweight a r = do s ← advancetoken r; some (weigh a (scan_token s) s)

  unfoldable pub bound : Asgt → Option F.Num → Reader → Asgt × Reader
  bound a (some f) r = (record a { max = f }, flushtoken r)
  bound a none r = (a, complain expected_maximum r)

  unfoldable pub readmax : Asgt → Reader → Option (Asgt × Reader)
  readmax a r = do s ← advancetoken r; some (bound a (scan_token s) s)

  unfoldable pub read_linear : Asgt → Reader → Option (Asgt × Reader)
  read_linear a r = do
    m ← read_number expected_mean (F.of_int 0) r
    d ← read_number expected_stddev (F.of_int 1) m.1
    some (record a { policy = linear_policy; mean = m.0; stddev = d.0 }, d.1)

  unfoldable pub read_scale : Asgt → Reader → Option (Asgt × Reader)
  read_scale a r = do
    m ← read_number expected_scale (F.of_int 0) r
    some (record a { policy = scale_policy; scale = m.0 }, m.1)

  -- One round of the loop of readnorm: the word that was found, or `none` at the break.
  unfoldable pub norm_round : Asgt → Reader → Option (Option Asgt × Reader)
  norm_round a r =
      on_key raw_key r (λ s. some (some (record a { policy = raw }), s))
        λ r.
          on_key stdlinear r
            (λ s. some (
              some (record a { policy = linear_policy; mean = F.of_int 0; stddev = F.of_int 1 }),
              s,
            ))
            λ r.
              on_key genlinear r (λ s. read_linear a s >>= λ t. some (some t.0, t.1))
                λ r.
                  on_key quantile_key r (λ s. some (some (record a { policy = quantile }), s))
                    λ r.
                      on_key scale_key r (λ s. read_scale a s >>= λ t. some (some t.0, t.1))
                        λ r.
                          on_key byclass r (λ s. some (some (record a { ngroup = by_class }), s))
                            λ r.
                              on_key bysection r
                                (λ s. some (some (record a { ngroup = by_section }), s))
                                λ r. some (none, r)

  -- if(!found) after the loop.
  unfoldable pub norm_found : Bool → Asgt → Reader → Asgt × Reader
  norm_found true a r = (a, r)
  norm_found false a r =
      (record a { policy = raw; ngroup = by_class }, complain expected_normalization r)

  unfoldable pub norm_loop : ℕ → Bool → Asgt → Reader → Option (Asgt × Reader)
  norm_loop zero found a r = none
  norm_loop (suc fuel) found a r = do
    t ← norm_round a r
    elim t.0 [ some b ↦ norm_loop fuel true b t.1 | none ↦ some (norm_found found a t.1) ]

  -- Every round takes a word, so that one more than the bytes to come is enough.
  unfoldable pub readnorm : Asgt → Reader → Option (Asgt × Reader)
  readnorm a r = norm_loop (suc (length r.ifile.input)) false a r

  unfoldable pub then_newline : Option (Asgt × Reader) → Option (Asgt × Reader)
  then_newline o = do t ← o; r ← expectnewline t.1; some (t.0, r)

  -- The loop of readassignments over the lines of one assignment.
  unfoldable pub option_round : Asgt → Reader → Option (Option Asgt × Reader)
  option_round a r =
      on_key weight r (λ s. then_newline (readweight a s) >>= λ t. some (some t.0, t.1))
        λ r.
          on_key normalize r (λ s. then_newline (readnorm a s) >>= λ t. some (some t.0, t.1))
            λ r.
              on_key maximum r (λ s. then_newline (readmax a s) >>= λ t. some (some t.0, t.1))
                λ r. some (none, r)

  unfoldable pub option_loop : ℕ → Asgt → Reader → Option (Asgt × Reader)
  option_loop zero a r = none
  option_loop (suc fuel) a r = do
    t ← option_round a r
    elim t.0 [ some b ↦ option_loop fuel b t.1 | none ↦ some (a, t.1) ]

  module _ (uninit : F.Num) where
    unfoldable pub new_assignment : List ℕ → List ℕ → Asgt
    new_assignment name atype = record {
      asgt_id = name;
      atype = atype;
      wpolicy = no_weight;
      weight = F.of_int 0;
      policy = raw;
      max = F.of_int 0;
      mean = uninit;
      stddev = uninit;
      scale = uninit;
      ngroup = by_class;
    }

    unfoldable pub read_one : Reader → Option (Asgt × Reader)
    read_one r = do
      i ← readid r
      t ← readatype i.1
      s ← expectnewline t.1
      option_loop (suc (length s.ifile.input)) (new_assignment i.0 t.0) s

    unfoldable pub assignments_loop : ℕ → Reader → Option (List Asgt × Reader)
    assignments_loop zero r = none
    assignments_loop (suc fuel) r =
        on_key assignment r
          (λ s. do a ← read_one s; rest ← assignments_loop fuel a.1; some (a.0 ∷ rest.0, rest.1))
          λ r. some ([], r)

    unfoldable pub readassignments : Reader → Option (List Asgt × Reader)
    readassignments r = assignments_loop (suc (length r.ifile.input)) r
