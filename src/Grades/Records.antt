-- ===== src/Grades/Records.antt =====
-- The fields of hw2/include/gradedb.h that the files of the data base hold. A pointer to an
-- assignment is what is read through it.
use c_language.Prelude.{ℕ, Option, List}
use c_language.Grades.Float.{FloatOps}
use c_language.Grades.Data.{Gflag, Gsubst, Wpolicy, Npolicy, Ngroup}

-- A professor or an assistant; the two have the same fields.
pub record Person : Type 0 where
  pub surname : List ℕ
  pub name : List ℕ

module _ (F : FloatOps) where
  -- The fields of a score that are written, with those of its assignment.
  pub record ScoreLine : Type 0 where
    pub asgt_name : List ℕ
    pub npolicy : Npolicy
    pub flag : Gflag
    pub subst : Gsubst
    pub grade : F.Num
    pub qnorm : F.Num
    pub lnorm : F.Num
    pub snorm : F.Num
    pub code : List ℕ

  pub record StudentLines : Type 0 where
    pub id : List ℕ
    pub surname : List ℕ
    pub name : List ℕ
    pub rawscores : List ScoreLine

  pub record SectionLines : Type 0 where
    pub name : List ℕ
    pub assistant_of : Option Person
    pub roster : List StudentLines

  pub record AssignmentLines : Type 0 where
    pub asgt_id : List ℕ
    pub atype : List ℕ
    pub wpolicy : Wpolicy
    pub weight : F.Num
    pub policy : Npolicy
    pub max : F.Num
    pub mean : F.Num
    pub stddev : F.Num
    pub scale : F.Num
    pub ngroup : Ngroup

  pub record CourseLines : Type 0 where
    pub number : List ℕ
    pub title : List ℕ
    pub professor_of : Option Person
    pub assignments : List AssignmentLines
    pub sections : List SectionLines
