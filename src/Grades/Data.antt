-- ===== src/Grades/Data.antt =====
-- The data of hw2/include/gradedb.h and hw2/include/stats.h, for the parts that compute. A
-- pointer to an assignment or a section is its position in the course's list, and a pointer to
-- its statistics is the same position in theirs. The amounts are numbers of `F`.
use c_language.Prelude.{ℕ, Bool, true, false, List}
use c_language.Grades.Float.{FloatOps}

pub data Gflag : Type 0 where
  valid : Gflag
  invalid : Gflag

pub data Gsubst : Type 0 where
  use_raw : Gsubst
  use_norm : Gsubst
  use_like_avg : Gsubst
  use_class_avg : Gsubst

pub data Wpolicy : Type 0 where
  no_weight : Wpolicy
  weighted : Wpolicy

pub data Npolicy : Type 0 where
  raw : Npolicy
  linear_policy : Npolicy
  quantile : Npolicy
  scale_policy : Npolicy

pub data Ngroup : Type 0 where
  by_class : Ngroup
  by_section : Ngroup

module _ (F : FloatOps) where
  pub record Assignment : Type 0 where
    pub atype : List ℕ
    pub wpolicy : Wpolicy
    pub weight : F.Num
    pub npolicy : Npolicy
    pub max : F.Num
    pub mean : F.Num
    pub stddev : F.Num
    pub scale : F.Num
    pub ngroup : Ngroup

  -- `section` is the position of the statistics that `do_links` links the score to.
  pub record Score : Type 0 where
    pub asgt : ℕ
    pub grade : F.Num
    pub qnorm : F.Num
    pub lnorm : F.Num
    pub flag : Gflag
    pub subst : Gsubst
    pub section : ℕ

  pub record Freqs : Type 0 where
    pub score : F.Num
    pub count : ℕ
    pub numless : ℕ
    pub numlesseq : ℕ

  -- What `Classstats` and `Sectionstats` have in common.
  pub record Tally : Type 0 where
    pub valid_count : ℕ
    pub tallied : ℕ
    pub sum : F.Num
    pub sumsq : F.Num
    pub min : F.Num
    pub max : F.Num
    pub mean : F.Num
    pub stddev : F.Num
    pub freqs : List Freqs

  pub record Classstats : Type 0 where
    pub tally : Tally
    pub sstats : List Tally

-- `scp->flag == VALID || scp->subst == USERAW`.
unfoldable pub counts : Gflag → Gsubst → Bool
counts valid s = true
counts invalid use_raw = true
counts invalid use_norm = false
counts invalid use_like_avg = false
counts invalid use_class_avg = false
