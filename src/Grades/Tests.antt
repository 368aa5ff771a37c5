-- ===== src/Grades/Tests.antt =====
-- The models of hw2 run on small tables, and the theorems applied to them, with whole numbers in
-- the place of `double`.
use c_language.Prelude.{
  ℕ, ◌+◌, ◌-◌, ◌*◌, ◌/◌, ◌≡◌, refl, true, some, arith, ltb, ◌==◌, ==_iff, if◌then◌else◌,
}
use c_language.Prelude.{List, [], ◌∷◌, ◌++◌}
use c_language.Grades.Float.{FloatOps}
use c_language.Grades.Data.{
  Tally, Score, Assignment, Classstats, valid, use_norm, no_weight, raw, by_class, counts,
}
use c_language.Grades.Freqs.{number_buckets}
use c_language.Grades.Freqs.Laws.{IsOrder, table, IsSorted, Quantiles, number_buckets-Quantiles}
use c_language.Grades.Sums.Laws.{sum_all, section_range_stays}
use c_language.Grades.Normal.{studentavg, follow}
use c_language.Grades.Normal.Average.{Unweighted, studentavg_zero}
use c_language.Grades.Read.{iswhitespace}
use c_language.Grades.Read.Laws.{IsWord, IsName, at}
use c_language.Grades.Records.{Person}
use c_language.Grades.Read.Names.{readprofessor, readassistant}
use c_language.Grades.Read.People.{read_write_people}
use c_language.Grades.Write.{writeprofessor, writeassistant}
use c_language.Grades.Sort.{
  Sign, negative, null, positive, partition, sorttable, sortrosters, sortroster, partition_loop,
  place, swap, goes_high, reversed, sort_sections,
}
use c_language.Grades.Sort.Order.{IsCompare, Sorts}
use c_language.Grades.Sort.Sorted.{sorttable-Sorts}
use c_language.Grades.Sort.Compare.{Student, comparename, compareid, comparescore, strcmp, or_else}
use c_language.Grades.Sort.Compare.Order.{NameOrder, IdOrder, ScoreOrder}
use c_language.Grades.Sort.Students.{SortedBy, sortrosters_by_all}
use c_language.Grades.Sort.Parts.{low_sign, high_sign}

abbrev pub whole : FloatOps
whole = record {
  Num = ℕ;
  less = λ a b. ltb a b;
  same = λ a b. a == b;
  plus = λ a b. a + b;
  minus = λ a b. a - b;
  times = λ a b. a * b;
  quotient = λ a b. a / b;
  of_int = λ n. n;
  root = λ n. n;
  narrow = λ n. n;
  epsilon = 1;
}

whole-IsOrder : IsOrder whole
whole-IsOrder = record {
  same_iff = λ a b. ==_iff a b;
  irreflexive = λ a. ground arith;
  transitive = λ a b c p q. ground arith;
  total_order = λ a b p q. ground arith;
}

abbrev grades : List ℕ
grades = 7 ∷ (3 ∷ (7 ∷ []))

number_buckets-Quantiles_example :
    IsSorted whole (table whole grades)
    × Quantiles whole whole-IsOrder grades (number_buckets whole 0 (table whole grades))
number_buckets-Quantiles_example = number_buckets-Quantiles whole whole-IsOrder grades

abbrev plain : Assignment whole
plain = record {
  atype = b'h' ∷ [];
  wpolicy = no_weight;
  weight = 0;
  npolicy = raw;
  max = 10;
  mean = 0;
  stddev = 0;
  scale = 0;
  ngroup = by_class;
}

abbrev graded : ℕ → Score whole
graded g = record {
  asgt = 0;
  grade = g;
  qnorm = 0;
  lnorm = 0;
  flag = valid;
  subst = use_norm;
  section = 0;
}

valid_counts : counts valid use_norm ≡ true
unfolding counts
valid_counts = refl

abbrev fresh : Tally whole
fresh = record {
  valid_count = 0;
  tallied = 0;
  sum = 0;
  sumsq = 0;
  min = 0;
  max = 0;
  mean = 0;
  stddev = 0;
  freqs = [];
}

section_range_stays_example :
    ((sum_all whole (graded 5 ∷ (graded 9 ∷ [])) fresh fresh).1.min ≡ 5)
    × ((sum_all whole (graded 5 ∷ (graded 9 ∷ [])) fresh fresh).1.max ≡ 5)
section_range_stays_example =
    section_range_stays whole (graded 5) (graded 9 ∷ []) fresh fresh valid_counts refl

abbrev class_stats : List (Classstats whole)
class_stats = record { tally = fresh; sstats = fresh ∷ [] } ∷ []

graded-Unweighted : Unweighted whole (plain ∷ []) class_stats (graded 8 ∷ [])
unfolding Unweighted follow
graded-Unweighted = ((record { asgt = plain; cstats = fresh; sstats = fresh }, refl, refl), tt)

studentavg_zero_example :
    studentavg whole (plain ∷ []) class_stats (graded 8 ∷ []) (b'h' ∷ []) ≡ some 0
studentavg_zero_example =
    studentavg_zero whole (plain ∷ []) class_stats (graded 8 ∷ []) (b'h' ∷ []) refl
      graded-Unweighted

abbrev by_number : ℕ → ℕ → Sign
by_number a b = if ltb a b then negative else (if a == b then null else positive)

by_number_same : (a : ℕ) → by_number a a ≡ null
by_number_same a = ground arith

by_number-IsCompare : IsCompare by_number
unfolding low_sign high_sign
by_number-IsCompare = record {
  same = by_number_same;
  flip = λ a b e. ground arith;
  between = λ a p b e f. ground arith;
}

sorttable-Sorts_example :
    (stab' : List ℕ) × (sorttable by_number 7 (7 ∷ (3 ∷ (5 ∷ []))) 0 3 ≡ some stab')
    × Sorts by_number (7 ∷ (3 ∷ (5 ∷ []))) stab' 0 3
sorttable-Sorts_example =
    sorttable-Sorts by_number (7 ∷ (3 ∷ (5 ∷ []))) 0 3 7 by_number-IsCompare (omega arith)
      (omega arith) (omega arith)

abbrev ann : Student whole
ann = record { id = b'2' ∷ []; surname = b'b' ∷ []; name = b'a' ∷ []; composite = 70 }

abbrev bob : Student whole
bob = record { id = b'1' ∷ []; surname = b'b' ∷ []; name = b'b' ∷ []; composite = 80 }

sortrosters_by_all_example :
    SortedBy (comparename whole) (NameOrder whole) (bob ∷ (ann ∷ [])) ((ann ∷ []) ∷ [])
    × SortedBy (compareid whole) (IdOrder whole) (bob ∷ (ann ∷ [])) ((ann ∷ []) ∷ [])
    × SortedBy (comparescore whole) (ScoreOrder whole) (bob ∷ (ann ∷ [])) ((ann ∷ []) ∷ [])
sortrosters_by_all_example =
    sortrosters_by_all whole whole-IsOrder (bob ∷ (ann ∷ [])) ((ann ∷ []) ∷ [])

-- The two are exchanged by name and by id, and bob has the greater score.
by_name : sortrosters (comparename whole) (bob ∷ (ann ∷ [])) [] ≡ some (ann ∷ (bob ∷ []), [])
unfolding sortrosters sortroster sorttable partition partition_loop place swap goes_high comparename
    strcmp or_else reversed sort_sections
by_name = refl

-- A person with a middle initial.
abbrev teacher : Person
teacher = record { surname = b'K' ∷ (b'o' ∷ []); name = b'A' ∷ (b' ' ∷ (b'B' ∷ [])) }

teacher-IsWord : IsWord teacher.surname
unfolding iswhitespace
teacher-IsWord = record {
  bytes = (refl, (refl, tt));
  no_zero = (refl, (refl, tt));
  some_byte = omega arith;
  room = omega arith;
}

teacher-IsName : IsName teacher.name
unfolding iswhitespace
teacher-IsName = record {
  no_line_feed = (refl, (refl, (refl, tt)));
  no_zero = (refl, (refl, (refl, tt)));
  front = refl;
  room = omega arith;
}

read_write_people_example :
    (readprofessor (at (b'f' ∷ []) [] [] 3 (writeprofessor (some teacher) ++ b' ' ∷ []))
      ≡ some (some teacher, at (b'f' ∷ []) [] [] 4 (b' ' ∷ [])))
    × (readassistant (at (b'f' ∷ []) [] [] 3 (writeassistant (some teacher) ++ b' ' ∷ []))
        ≡ some (some teacher, at (b'f' ∷ []) [] [] 4 (b' ' ∷ [])))
read_write_people_example =
    read_write_people (b'f' ∷ []) [] [] 3 teacher (b' ' ∷ []) teacher-IsWord teacher-IsName
      (refl, refl)
