-- ===== src/Spooler/Invariant/Tables.antt =====
-- The commands of hw4/src/main.c keep what holds of the tables.
use c_language.Prelude.{and_true}
use c_language.Prelude.{
  ℕ, ◌≤◌, ◌≡◌, refl, inl, inr, Bool, true, false, ◌&&◌, ◌||◌, List, [], ◌∷◌, ◌++◌, length,
  All-weaken, arith, ltb, ltb→lt, if◌then◌else◌, Bool-cases, same_text, length-append,
}
use c_language.Spooler.State.{
  Text, Conversion, Spooler, Line, Outcome, falls, continues, breaks, exits, undefined,
}
use c_language.Spooler.Texts.{fits}
use c_language.Spooler.Commands.{
  is_declared, declare_type, is_conversion, add_conversion, is_alone, declare_conversion,
  command_text,
}
use c_language.Spooler.Invariant.{IsSpooler}

-- What holds of the tables wherever the body of a loop ends.
abbrev pub Always : (Spooler → Type 0) → Outcome → Type 0
Always P (falls s out) = P s
Always P (continues s out) = P s
Always P (breaks s out) = P s
Always P (exits s out) = P s
Always P undefined = Unit

pub Always-if :
    (P : Spooler → Type 0) (b : Bool) (x y : Outcome)
    → (b ≡ true → Always P x)
    → (b ≡ false → Always P y)
    → Always P (if b then x else y)
Always-if P true x y f g = f refl
Always-if P false x y f g = g refl

is_declared-append :
    (u : Text) (types more : List Text)
    → is_declared u types ≡ true
    → is_declared u (types ++ more) ≡ true
unfolding is_declared
is_declared-append u [] more h = cc
is_declared-append u (t ∷ types) more h = elim (Bool-cases (same_text t u)) [
  | inl e ↦ rw e refl
  | inr e ↦
      let rest : is_declared u types ≡ true = (rw e at h) in
      rw (e, is_declared-append u types more rest) refl
]

pub add_room {ℓ} :
    {A : Type ℓ} (xs : List A) (x : A) (n : ℕ)
    → ltb (length xs) n ≡ true
    → length (xs ++ x ∷ []) ≤ n
add_room xs x n h = let l = ltb→lt _ _ h in omega (arith, length-append xs (x ∷ []))

pub declare_type-IsSpooler :
    (s : Spooler) (t : Text) → IsSpooler s → Always IsSpooler (declare_type s t)
unfolding declare_type
declare_type-IsSpooler s t i =
    Always-if _ (is_declared t s.types) _ _ (λ _. i)
      λ _.
        Always-if _ (ltb (length s.types) 100 && fits t) _ _
          (λ room. record {
            matched = i.matched;
            names = i.names;
            printers_room = i.printers_room;
            jobs_room = i.jobs_room;
            types_room = add_room s.types t 100 (and_true _ _ room).0;
            conversions_room = i.conversions_room;
            printable = All-weaken _ _ (λ r d. is_declared-append r.2 s.types _ d) _ i.printable;
            declared = All-weaken _ _ (λ r d. is_declared-append r.1 s.types _ d) _ i.declared;
            jobids = i.jobids;
          })
          λ _. tt

pub add_conversion-IsSpooler :
    (s : Spooler) (c : Conversion) (out : List Line)
    → IsSpooler s
    → Always IsSpooler (add_conversion s c out)
unfolding add_conversion
add_conversion-IsSpooler s c out i =
    Always-if _ (is_conversion c s.conversions) _ _ (λ _. i)
      λ _.
        Always-if _ (ltb (length s.conversions) 100 && _) _ _
          (λ room. record {
            matched = i.matched;
            names = i.names;
            printers_room = i.printers_room;
            jobs_room = i.jobs_room;
            types_room = i.types_room;
            conversions_room = add_room s.conversions c 100 (and_true _ _ room).0;
            printable = i.printable;
            declared = i.declared;
            jobids = i.jobids;
          })
          λ _. tt

pub declare_conversion-IsSpooler :
    (s : Spooler) (a b c : Text) (rest : List Text)
    → IsSpooler s
    → Always IsSpooler (declare_conversion s a b c rest)
unfolding declare_conversion
declare_conversion-IsSpooler s a b c rest i =
    Always-if _ (is_alone rest || fits (command_text c rest)) _ _
      (λ _. add_conversion-IsSpooler s _ _ i) λ _. tt
