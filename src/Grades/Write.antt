-- ===== src/Grades/Write.antt =====
-- hw2/src/write.c: the data base as text. `print` is the conversion %f, and a string the list of
-- its bytes.
use c_language.Prelude.{ℕ, Option, none, some, List, [], ◌∷◌, ◌++◌, if◌then◌else◌}
use c_language.Grades.Float.{FloatOps}
use c_language.Grades.Data.{
  Gflag, valid, invalid, Gsubst, use_raw, use_norm, use_like_avg, use_class_avg, Wpolicy, weighted,
  no_weight, Npolicy, raw, linear_policy, quantile, scale_policy, Ngroup, by_class, by_section,
}
use c_language.Grades.Records.{ScoreLine, StudentLines, SectionLines, AssignmentLines, CourseLines}
use c_language.Grades.Records.{Person}
use c_language.Grades.Read.Names.{professor, assistant}

-- The line of a professor or an assistant, behind its keyword.
unfoldable pub person_line : List ℕ → Person → List ℕ
person_line key p = b' ' ∷ (key ++ b' ' ∷ (p.surname ++ b',' ∷ (b' ' ∷ (p.name ++ b'\n' ∷ []))))

unfoldable pub writeprofessor : Option Person → List ℕ
writeprofessor none = []
writeprofessor (some p) = person_line professor p

unfoldable pub writeassistant : Option Person → List ℕ
writeassistant none = []
writeassistant (some p) = person_line assistant p

module _ (F : FloatOps) (print : F.Num → List ℕ) where
  abbrev usenorm : List ℕ
  usenorm = b' ' ∷ b'U' ∷ b'S' ∷ b'E' ∷ b'N' ∷ b'O' ∷ b'R' ∷ b'M' ∷ b' ' ∷ []

  abbrev useraw : List ℕ
  useraw = b' ' ∷ b'U' ∷ b'S' ∷ b'E' ∷ b'R' ∷ b'A' ∷ b'W' ∷ b' ' ∷ []

  abbrev uselikeavg : List ℕ
  uselikeavg = b' ' ∷ b'U' ∷ b'S' ∷ b'E' ∷ b'L' ∷ b'I' ∷ b'K' ∷ b'E' ∷ b'A' ∷ b'V' ∷ b'G' ∷ []

  abbrev useclassavg : List ℕ
  useclassavg =
      b' ' ∷ b'U' ∷ b'S' ∷ b'E' ∷ b'C' ∷ b'L' ∷ b'A' ∷ b'S' ∷ b'S' ∷ b'A' ∷ b'V' ∷ b'G' ∷ []

  -- The inner switch over the policy.
  unfoldable pub norm_text : ScoreLine F → Npolicy → List ℕ
  norm_text s quantile = usenorm ++ print s.qnorm
  norm_text s linear_policy = usenorm ++ print s.lnorm
  norm_text s scale_policy = usenorm ++ print s.snorm
  norm_text s raw = []

  -- The case USENORM has no break, and goes on to the next one.
  unfoldable pub subst_text : ScoreLine F → Gsubst → List ℕ
  subst_text s use_raw = useraw ++ print s.grade
  subst_text s use_norm = norm_text s s.npolicy ++ uselikeavg
  subst_text s use_like_avg = uselikeavg
  subst_text s use_class_avg = useclassavg

  unfoldable pub grade_text : ScoreLine F → Gflag → List ℕ
  grade_text s valid = b' ' ∷ print s.grade
  grade_text s invalid = subst_text s s.subst ++ b' ' ∷ s.code

  abbrev score_key : List ℕ
  score_key = b' ' ∷ b' ' ∷ b' ' ∷ b'S' ∷ b'C' ∷ b'O' ∷ b'R' ∷ b'E' ∷ b' ' ∷ []

  unfoldable pub writescore : ScoreLine F → List ℕ
  writescore s = score_key ++ (s.asgt_name ++ (grade_text s s.flag ++ b'\n' ∷ []))

  -- The loop over the scores of a student.
  unfoldable pub writescores : List (ScoreLine F) → List ℕ
  writescores [] = []
  writescores (s ∷ scores) = writescore s ++ writescores scores

  abbrev student_key : List ℕ
  student_key = b' ' ∷ b' ' ∷ b'S' ∷ b'T' ∷ b'U' ∷ b'D' ∷ b'E' ∷ b'N' ∷ b'T' ∷ b' ' ∷ []

  unfoldable pub writestudent : StudentLines F → List ℕ
  writestudent s =
      (student_key ++ (s.id ++ b' ' ∷ (s.surname ++ b',' ∷ (b' ' ∷ (s.name ++ b'\n' ∷ [])))))
      ++ writescores s.rawscores

  unfoldable pub writestudents : List (StudentLines F) → List ℕ
  writestudents [] = []
  writestudents (s ∷ roster) = writestudent s ++ writestudents roster

  abbrev section_key : List ℕ
  section_key = b' ' ∷ b'S' ∷ b'E' ∷ b'C' ∷ b'T' ∷ b'I' ∷ b'O' ∷ b'N' ∷ b' ' ∷ []

  unfoldable pub writesection : SectionLines F → List ℕ
  writesection s =
      (section_key ++ (s.name ++ b'\n' ∷ []))
      ++ (writeassistant s.assistant_of ++ writestudents s.roster)

  unfoldable pub writesections : List (SectionLines F) → List ℕ
  writesections [] = []
  writesections (s ∷ sections) = writesection s ++ writesections sections

  abbrev assignment_key : List ℕ
  assignment_key =
      b' ' ∷ b'A' ∷ b'S' ∷ b'S' ∷ b'I' ∷ b'G' ∷ b'N' ∷ b'M' ∷ b'E' ∷ b'N' ∷ b'T' ∷ b' ' ∷ []

  unfoldable pub weight_line : AssignmentLines F → Wpolicy → List ℕ
  weight_line a no_weight = []
  weight_line a weighted =
      b' ' ∷ b' ' ∷ b'W' ∷ b'E' ∷ b'I' ∷ b'G' ∷ b'H' ∷ b'T' ∷ b' ' ∷ (print a.weight ++ b'\n' ∷ [])

  abbrev normalize_key : List ℕ
  normalize_key =
      b' ' ∷ b' ' ∷ b'N' ∷ b'O' ∷ b'R' ∷ b'M' ∷ b'A' ∷ b'L' ∷ b'I' ∷ b'Z' ∷ b'E' ∷ b' ' ∷ []

  unfoldable pub group_text : Ngroup → List ℕ
  group_text by_class = b' ' ∷ b'B' ∷ b'Y' ∷ b'C' ∷ b'L' ∷ b'A' ∷ b'S' ∷ b'S' ∷ b'\n' ∷ []
  group_text by_section =
      b' ' ∷ b'B' ∷ b'Y' ∷ b'S' ∷ b'E' ∷ b'C' ∷ b'T' ∷ b'I' ∷ b'O' ∷ b'N' ∷ b'\n' ∷ []

  abbrev linear_text : List ℕ
  linear_text = b'L' ∷ b'I' ∷ b'N' ∷ b'E' ∷ b'A' ∷ b'R' ∷ b':' ∷ b' ' ∷ []

  abbrev quantile_text : List ℕ
  quantile_text = b'Q' ∷ b'U' ∷ b'A' ∷ b'N' ∷ b'T' ∷ b'I' ∷ b'L' ∷ b'E' ∷ []

  abbrev scale_text : List ℕ
  scale_text = b'S' ∷ b'C' ∷ b'A' ∷ b'L' ∷ b'E' ∷ b' ' ∷ []

  unfoldable pub norm_line : AssignmentLines F → Npolicy → List ℕ
  norm_line a raw = []
  norm_line a linear_policy =
      normalize_key
      ++ (linear_text ++ (print a.mean ++ b',' ∷ (b' ' ∷ (print a.stddev ++ group_text a.ngroup))))
  norm_line a quantile = normalize_key ++ (quantile_text ++ group_text a.ngroup)
  norm_line a scale_policy = normalize_key ++ (scale_text ++ (print a.scale ++ group_text a.ngroup))

  abbrev maximum_key : List ℕ
  maximum_key = b' ' ∷ b' ' ∷ b'M' ∷ b'A' ∷ b'X' ∷ b'I' ∷ b'M' ∷ b'U' ∷ b'M' ∷ b' ' ∷ []

  unfoldable pub writeassignment : AssignmentLines F → List ℕ
  writeassignment a =
      (assignment_key ++ (a.asgt_id ++ b' ' ∷ (a.atype ++ b'\n' ∷ [])))
      ++ (weight_line a a.wpolicy
          ++ (norm_line a a.policy
              ++ (if F.same a.max (F.of_int 0)
                  then []
                  else (maximum_key ++ (print a.max ++ b'\n' ∷ [])))))

  unfoldable pub writeassignments : List (AssignmentLines F) → List ℕ
  writeassignments [] = []
  writeassignments (a ∷ rest) = writeassignment a ++ writeassignments rest

  abbrev course_key : List ℕ
  course_key = b'C' ∷ b'O' ∷ b'U' ∷ b'R' ∷ b'S' ∷ b'E' ∷ b' ' ∷ []

  unfoldable pub writecourse : CourseLines F → List ℕ
  writecourse c =
      (course_key ++ (c.number ++ b' ' ∷ (c.title ++ b'\n' ∷ [])))
      ++ (writeprofessor c.professor_of
          ++ (writeassignments c.assignments ++ writesections c.sections))
