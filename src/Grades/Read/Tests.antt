-- ===== src/Grades/Read/Tests.antt =====
-- A course is written and read again.
use c_language.Prelude.{ℕ, ◌≡◌, refl, some, none, Option, List, [], ◌∷◌, ◌++◌, ◌-◌, ◌+◌}
use c_language.Grades.Data.{valid, use_raw, weighted, quantile, by_section}
use c_language.Grades.Records.{ScoreLine, StudentLines, AssignmentLines, CourseLines}
use c_language.Grades.Read.{Reader}
use c_language.Grades.Read.Course.{readfile}
use c_language.Grades.Write.{writecourse}
use c_language.Grades.Tests.{whole}

-- Numbers of one digit.
abbrev digit : ℕ → List ℕ
digit n = (n + 48) ∷ []

abbrev scan_digit : List ℕ → Option ℕ
scan_digit [] = none
scan_digit (c ∷ cs) = some (c - 48)

abbrev homework : AssignmentLines whole
homework = record {
  asgt_id = b'h' ∷ [];
  atype = b'H' ∷ [];
  wpolicy = weighted;
  weight = 5;
  policy = quantile;
  max = 9;
  mean = 0;
  stddev = 0;
  scale = 0;
  ngroup = by_section;
}

abbrev eight : ScoreLine whole
eight = record {
  asgt_name = b'h' ∷ [];
  npolicy = quantile;
  flag = valid;
  subst = use_raw;
  grade = 8;
  qnorm = 0;
  lnorm = 0;
  snorm = 0;
  code = [];
}

abbrev pupil : StudentLines whole
pupil = record { id = b'7' ∷ []; surname = b'D' ∷ []; name = b'J' ∷ []; rawscores = eight ∷ [] }

abbrev lecture : CourseLines whole
lecture = record {
  number = b'1' ∷ [];
  title = b'P' ∷ [];
  professor_of = some (record { surname = b'K' ∷ []; name = b'A' ∷ [] });
  assignments = homework ∷ [];
  sections = record { name = b's' ∷ []; assistant_of = none; roster = pupil ∷ [] } ∷ [];
}

abbrev course_of : Option (CourseLines whole × Reader) → Option (CourseLines whole)
course_of none = none
course_of (some r) = some r.0

unfoldable outcome : Option (CourseLines whole)
unfolding readfile writecourse
outcome =
    course_of (
      readfile whole scan_digit eight (λ n. some (writecourse whole digit lecture)) 0 9 (b'f' ∷ []))

-- What is read is the course that was written.
same_course : outcome ≡ some lecture
unfolding outcome c_language.Grades.Read.istoken c_language.Grades.Read.flushtoken
    c_language.Grades.Read.complain c_language.Grades.Read.with_input
    c_language.Grades.Read.next_line c_language.Grades.Read.iswhitespace
    c_language.Grades.Read.skip_whitespace c_language.Grades.Read.gobblewhitespace
    c_language.Grades.Read.token_loop c_language.Grades.Read.fill
    c_language.Grades.Read.fresh_buffer c_language.Grades.Read.terminated
    c_language.Grades.Read.advancetoken c_language.Grades.Read.eol_loop
    c_language.Grades.Read.advanceeol c_language.Grades.Read.need_token
    c_language.Grades.Read.is_key c_language.Grades.Read.checktoken
    c_language.Grades.Read.expecttoken c_language.Grades.Read.Lines.behind_line
    c_language.Grades.Read.Lines.blank_byte c_language.Grades.Read.Lines.blank_round
    c_language.Grades.Read.Lines.blank_loop c_language.Grades.Read.Lines.gobbleblanklines
    c_language.Grades.Read.Lines.getc c_language.Grades.Read.Lines.nextchar_of
    c_language.Grades.Read.Lines.nextchar c_language.Grades.Read.Lines.scan_ahead
    c_language.Grades.Read.Lines.end_of_line c_language.Grades.Read.Lines.expectnewline
    c_language.Grades.Read.Lines.previousfile_of c_language.Grades.Read.Lines.previousfile
    c_language.Grades.Read.Lines.outermost c_language.Grades.Read.Lines.skip_excess
    c_language.Grades.Read.Lines.at_eof c_language.Grades.Read.Lines.expecteof
    c_language.Grades.Read.Lines.newstring c_language.Grades.Read.Lines.open_file
    c_language.Grades.Read.Lines.pushfile c_language.Grades.Read.Names.take_string
    c_language.Grades.Read.Names.need_string c_language.Grades.Read.Names.readname
    c_language.Grades.Read.Names.read_person c_language.Grades.Read.Names.readprofessor
    c_language.Grades.Read.Names.readassistant c_language.Grades.Read.Assignments.on_key
    c_language.Grades.Read.Assignments.number_or c_language.Grades.Read.Assignments.read_number
    c_language.Grades.Read.Assignments.weigh c_language.Grades.Read.Assignments.readweight
    c_language.Grades.Read.Assignments.bound c_language.Grades.Read.Assignments.readmax
    c_language.Grades.Read.Assignments.read_linear c_language.Grades.Read.Assignments.read_scale
    c_language.Grades.Read.Assignments.norm_round c_language.Grades.Read.Assignments.norm_found
    c_language.Grades.Read.Assignments.norm_loop c_language.Grades.Read.Assignments.readnorm
    c_language.Grades.Read.Assignments.then_newline c_language.Grades.Read.Assignments.option_round
    c_language.Grades.Read.Assignments.option_loop c_language.Grades.Read.Assignments.new_assignment
    c_language.Grades.Read.Assignments.read_one c_language.Grades.Read.Assignments.assignments_loop
    c_language.Grades.Read.Assignments.readassignments c_language.Grades.Read.Scores.read_subst
    c_language.Grades.Read.Scores.number_now c_language.Grades.Read.Scores.outside
    c_language.Grades.Read.Scores.check_norm c_language.Grades.Read.Scores.norm_value
    c_language.Grades.Read.Scores.subst_value c_language.Grades.Read.Scores.read_code
    c_language.Grades.Read.Scores.grade_value c_language.Grades.Read.Scores.readgrade
    c_language.Grades.Read.Scores.find_asgt c_language.Grades.Read.Scores.read_score
    c_language.Grades.Read.Scores.scores_loop c_language.Grades.Read.Scores.readscores
    c_language.Grades.Read.Scores.read_student c_language.Grades.Read.Scores.students_loop
    c_language.Grades.Read.Scores.readstudents c_language.Grades.Read.Course.seek_token
    c_language.Grades.Read.Course.read_section c_language.Grades.Read.Course.readsections
    c_language.Grades.Read.Course.readcourse c_language.Grades.Read.Course.readfile
    c_language.Grades.Write.person_line c_language.Grades.Write.writeprofessor
    c_language.Grades.Write.writeassistant c_language.Grades.Write.norm_text
    c_language.Grades.Write.subst_text c_language.Grades.Write.grade_text
    c_language.Grades.Write.writescore c_language.Grades.Write.writescores
    c_language.Grades.Write.writestudent c_language.Grades.Write.writestudents
    c_language.Grades.Write.writesection c_language.Grades.Write.writesections
    c_language.Grades.Write.weight_line c_language.Grades.Write.group_text
    c_language.Grades.Write.norm_line c_language.Grades.Write.writeassignment
    c_language.Grades.Write.writeassignments c_language.Grades.Write.writecourse
    c_language.Prelude.same_text
same_course = refl
