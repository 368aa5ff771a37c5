-- ===== src/Grades/Sort/Students.antt =====
-- The rosters of hw2 sorted by the comparison functions of hw2/src/sort.c.
use c_language.Prelude.{ℕ, ◌<◌, ◌≡◌, true, some, Bool, List, [], ◌∷◌, length, get_elem?}
use c_language.Grades.Float.{FloatOps}
use c_language.Grades.Freqs.Laws.{IsOrder}
use c_language.Grades.Sort.{Sign, sortrosters}
use c_language.Grades.Sort.Swap.{tally}
use c_language.Grades.Sort.Parts.{low_sign}
use c_language.Grades.Sort.Order.{IsCompare}
use c_language.Grades.Sort.Roster.{SortOf, AllSorted, sortrosters_sorts}
use c_language.Grades.Sort.Compare.{Student, comparename, compareid, comparescore}
use c_language.Grades.Sort.Compare.Laws.{
  comparename-IsCompare, compareid-IsCompare, comparescore-IsCompare, asymmetric,
}
use c_language.Grades.Sort.Compare.Order.{
  NameOrder, IdOrder, ScoreOrder, comparename-NameOrder, compareid-IdOrder, comparescore-ScoreOrder,
}

-- The same students, as many as satisfy any test, every one in front of all that follow.
pub record InOrder {A : Type 0} (Order : A → A → Type 0) (roster result : List A) : Type 0 where
  pub length_same : length result ≡ length roster
  pub tally_same : (p : A → Bool) → tally p result ≡ tally p roster
  pub ordered :
      (i j : ℕ) (x y : A)
      → i < j
      → get_elem? result i ≡ some x
      → get_elem? result j ≡ some y
      → Order x y

abbrev pub AllInOrder : {A : Type 0} → (A → A → Type 0) → List (List A) → List (List A) → Type 0
AllInOrder Order [] [] = Unit
AllInOrder Order [] (r ∷ rs) = ⊥
AllInOrder Order (s ∷ ss) [] = ⊥
AllInOrder Order (s ∷ ss) (r ∷ rs) = InOrder Order s r × AllInOrder Order ss rs

module _ {A : Type 0} (compare : A → A → Sign) (Order : A → A → Type 0)
    (in_order : (x y : A) → low_sign (compare x y) ≡ true → Order x y) where
  SortOf-InOrder :
      (roster result : List A) → SortOf compare roster result → InOrder Order roster result
  SortOf-InOrder roster result s = record {
    length_same = s.length_same;
    tally_same = s.tally_same;
    ordered = λ i j x y h a b. in_order x y (s.ordered i j x y h a b);
  }

  AllSorted-AllInOrder : (ss rs : List (List A)) → AllSorted compare ss rs → AllInOrder Order ss rs
  AllSorted-AllInOrder [] [] h = tt
  AllSorted-AllInOrder [] (r ∷ rs) h = h
  AllSorted-AllInOrder (s ∷ ss) [] h = h
  AllSorted-AllInOrder (s ∷ ss) (r ∷ rs) h =
      (SortOf-InOrder s r h.0, AllSorted-AllInOrder ss rs h.1)

-- sortrosters comes back with the roster of the course and those of all sections in the order.
abbrev pub SortedBy :
    {A : Type 0} → (A → A → Sign) → (A → A → Type 0) → List A → List (List A) → Type 0
SortedBy {A} compare Order roster sections =
    (result : List A) × (results : List (List A)) × (sortrosters compare roster sections
      ≡ some (result, results))
    × InOrder Order roster result
    × AllInOrder Order sections results

sorted_by :
    {A : Type 0} (compare : A → A → Sign) (Order : A → A → Type 0)
    → IsCompare compare
    → ((x y : A) → low_sign (compare x y) ≡ true → Order x y)
    → (roster : List A) (sections : List (List A)) → SortedBy compare Order roster sections
sorted_by compare Order o h roster sections =
    let (result, results, e, s, all) = sortrosters_sorts compare o roster sections in
    (
      result,
      results,
      e,
      SortOf-InOrder compare Order h roster result s,
      AllSorted-AllInOrder compare Order h sections results all,
    )

module _ (F : FloatOps) (o : IsOrder F) (roster : List (Student F))
    (sections : List (List (Student F))) where
  -- sortrosters comes back with the same students in the roster of the course and in those of all
  -- sections: by comparename in the order of the surnames, and of the names where these are equal;
  -- by compareid in that of the ids; and by comparescore with no composite score in front of a
  -- greater one, where the scores are ordered numbers.
  pub sortrosters_by_all :
      SortedBy (comparename F) (NameOrder F) roster sections
      × SortedBy (compareid F) (IdOrder F) roster sections
      × SortedBy (comparescore F) (ScoreOrder F) roster sections
  sortrosters_by_all = (
    sorted_by (comparename F) _ (comparename-IsCompare F) (comparename-NameOrder F) roster sections,
    sorted_by (compareid F) _ (compareid-IsCompare F) (compareid-IdOrder F) roster sections,
    sorted_by (comparescore F) _ (comparescore-IsCompare F o)
        (comparescore-ScoreOrder F (asymmetric F o)) roster sections,
  )
