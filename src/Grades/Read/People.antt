-- ===== src/Grades/Read/People.antt =====
-- What writeprofessor and writeassistant of hw2/src/write.c have written, hw2/src/read.c reads.
use c_language.Prelude.{append_assoc}
use c_language.Prelude.{
  ℕ, suc, ◌≡◌, refl, true, false, some, List, [], ◌∷◌, ◌++◌, length, All, arith, ◌==◌,
}
use c_language.Grades.Read.{
  Ifile, Complaint, istoken, flushtoken, with_input, next_line, iswhitespace, skip_whitespace,
  gobblewhitespace, need_token,
}
use c_language.Grades.Read.Lines.{
  blank_byte, blank_round, blank_loop, gobbleblanklines, getc, nextchar_of, nextchar, end_of_line,
  expectnewline,
}
use c_language.Grades.Records.{Person}
use c_language.Grades.Read.Names.{take_string, need_string, readname}
use c_language.Prelude.{same_text_refl}
use c_language.Grades.Read.{is_key, checktoken, expected_surname, expected_name}
use c_language.Grades.Read.Bytes.{newstring_of}
use c_language.Grades.Read.Laws.{
  IsWord, IsName, IsPlain, with_token, at, advance_word, advance_name,
}
use c_language.Grades.Read.Names.{professor, assistant, read_person, readprofessor, readassistant}
use c_language.Grades.Write.{person_line, writeprofessor, writeassistant}

plain_rest :
    (file : List ℕ) (prev : List Ifile) (errors : List Complaint) (line : ℕ) (rest : List ℕ)
    → IsPlain rest
    → gobbleblanklines (at file prev errors line rest) ≡ some (at file prev errors line rest)
unfolding gobbleblanklines blank_loop blank_round blank_byte istoken
plain_rest file prev errors line [] h = refl
plain_rest file prev errors line (c ∷ rest) h = rw (h.0, h.1) refl

module _ (file : List ℕ) (prev : List Ifile) (errors : List Complaint) where
  end_line :
      (line : ℕ) (rest : List ℕ)
      → IsPlain rest
      → expectnewline (at file prev errors line (b'\n' ∷ rest))
        ≡ some (at file prev errors (suc line) rest)
  unfolding expectnewline gobblewhitespace istoken with_input nextchar nextchar_of getc flushtoken
      end_of_line next_line skip_whitespace iswhitespace
  end_line line rest h = plain_rest file prev errors (suc line) rest h

  is_full : (word : List ℕ) → (length (word ++ 0 ∷ []) == 0) ≡ false
  is_full [] = refl
  is_full (c ∷ word) = ground arith

  take_full :
      (e : Complaint) (line : ℕ) (word rest : List ℕ)
      → All (λ c. (c == 0) ≡ false) word
      → take_string e (with_token file prev errors (word ++ 0 ∷ []) line rest)
        ≡ (word, at file prev errors line rest)
  unfolding take_string istoken flushtoken
  take_full e line word rest h = rw (is_full word, newstring_of word h) refl

  -- A keyword behind white space is found and taken.
  check_key :
      (key : List ℕ) (line : ℕ) (rest : List ℕ)
      → IsWord key
      → checktoken key (at file prev errors line (b' ' ∷ (key ++ b' ' ∷ rest)))
        ≡ some (true, at file prev errors line (b' ' ∷ rest))
  unfolding checktoken need_token is_key istoken flushtoken iswhitespace
  check_key key line rest w =
      rw
        (
          advance_word file prev errors line (b' ' ∷ []) key rest b' ' (refl, tt) w refl,
          is_full key,
          same_text_refl (key ++ 0 ∷ []),
        )
        refl

  read_person_line :
      (line : ℕ) (p : Person) (rest : List ℕ)
      → IsWord p.surname
      → IsName p.name
      → IsPlain rest
      → read_person (
          at file prev errors line (b' ' ∷ (p.surname ++ b',' ∷ (b' ' ∷ (p.name ++ b'\n' ∷ rest)))))
        ≡ some (some p, at file prev errors (suc line) rest)
  unfolding read_person need_string need_token readname istoken iswhitespace
  read_person_line line p rest w n h =
      rw
        (
          advance_word file prev errors line (b' ' ∷ []) p.surname (b' ' ∷ (p.name ++ b'\n' ∷ rest))
              b',' (refl, tt) w refl,
          take_full expected_surname line p.surname (b',' ∷ (b' ' ∷ (p.name ++ b'\n' ∷ rest)))
              w.no_zero,
          advance_name file prev errors line (b',' ∷ (b' ' ∷ [])) p.name rest (refl, (refl, tt)) n,
          take_full expected_name line p.name (b'\n' ∷ rest) n.no_zero,
          end_line line rest h,
        )
        refl

person_line-append :
    (key : List ℕ) (p : Person) (rest : List ℕ)
    → person_line key p ++ rest
      ≡ b' ' ∷ (key ++ b' ' ∷ (p.surname ++ b',' ∷ (b' ' ∷ (p.name ++ b'\n' ∷ rest))))
unfolding person_line
person_line-append key p rest =
    rw
      (
        append_assoc key (b' ' ∷ (p.surname ++ b',' ∷ (b' ' ∷ (p.name ++ b'\n' ∷ [])))) rest,
        append_assoc p.surname (b',' ∷ (b' ' ∷ (p.name ++ b'\n' ∷ []))) rest,
        append_assoc p.name (b'\n' ∷ []) rest,
      )
      refl

professor-IsWord : IsWord professor
unfolding iswhitespace
professor-IsWord = record {
  bytes = (refl, (refl, (refl, (refl, (refl, (refl, (refl, (refl, (refl, tt)))))))));
  no_zero = (refl, (refl, (refl, (refl, (refl, (refl, (refl, (refl, (refl, tt)))))))));
  some_byte = omega arith;
  room = omega arith;
}

assistant-IsWord : IsWord assistant
unfolding iswhitespace
assistant-IsWord = record {
  bytes = (refl, (refl, (refl, (refl, (refl, (refl, (refl, (refl, (refl, tt)))))))));
  no_zero = (refl, (refl, (refl, (refl, (refl, (refl, (refl, (refl, (refl, tt)))))))));
  some_byte = omega arith;
  room = omega arith;
}

module _ (file : List ℕ) (prev : List Ifile) (errors : List Complaint) (line : ℕ) (p : Person)
    (rest : List ℕ) (word : IsWord p.surname) (name : IsName p.name) (plain : IsPlain rest) where
  -- A professor, or an assistant, whose surname is a word and whose name is a name is read back
  -- from the line that was written, when the next line is neither a comment nor empty; no error
  -- is counted, and the reader is at the start of the next line.
  pub read_write_people :
      (readprofessor (at file prev errors line (writeprofessor (some p) ++ rest))
        ≡ some (some p, at file prev errors (suc line) rest))
      × (readassistant (at file prev errors line (writeassistant (some p) ++ rest))
          ≡ some (some p, at file prev errors (suc line) rest))
  unfolding readprofessor readassistant writeprofessor writeassistant
  read_write_people =
      let tail = p.surname ++ b',' ∷ (b' ' ∷ (p.name ++ b'\n' ∷ rest)) in
      (
        rw
            (
              person_line-append professor p rest,
              check_key file prev errors professor line tail professor-IsWord,
            )
            (read_person_line file prev errors line p rest word name plain),
        rw
            (
              person_line-append assistant p rest,
              check_key file prev errors assistant line tail assistant-IsWord,
            )
            (read_person_line file prev errors line p rest word name plain),
      )
