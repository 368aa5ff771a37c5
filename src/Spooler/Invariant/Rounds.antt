-- ===== src/Spooler/Invariant/Rounds.antt =====
-- One round of either loop of hw4/src/main.c keeps what holds of the tables.
use c_language.Prelude.{ℕ, Bool, true, false, List, [], ◌∷◌, leb, length, same_text, ◌||◌}
use c_language.Spooler.State.{Text, Spooler, Outcome, falls, continues, breaks, exits, undefined}
use c_language.Spooler.Texts.{tokens}
use c_language.Spooler.Schedule.{schedule}
use c_language.Spooler.Rounds.{
  help, quit, type, printer, conversion, printerss, jobss, print, cancels, pauses, resume, disables,
  enables, command0, file_command1, command1, command2, command3, file_dispatch, dispatch,
  all_there, then_schedule, file_round, round,
}
use c_language.Spooler.Board.Refines.{schedule-Reach}
use c_language.Spooler.Invariant.{IsSpooler}
use c_language.Spooler.Invariant.Board.{Reach-unchanged}
use c_language.Spooler.Invariant.Tables.{
  Always, Always-if, declare_type-IsSpooler, declare_conversion-IsSpooler,
}
use c_language.Spooler.Invariant.Printers.{declare_printer-IsSpooler}
use c_language.Spooler.Invariant.Jobs.{print_file-IsSpooler, cancel-IsSpooler}
use c_language.Spooler.Invariant.Switches.{disable-IsSpooler, enable-IsSpooler}

schedule-IsSpooler : (now : ℕ) (s : Spooler) → IsSpooler s → IsSpooler (schedule now s).0
unfolding schedule
schedule-IsSpooler now s i =
    let (m, rows, same) = Reach-unchanged (schedule-Reach now s) i.matched in
    record {
      matched = m;
      names = rw rows i.names;
      printers_room = rw rows i.printers_room;
      jobs_room = rw same i.jobs_room;
      types_room = i.types_room;
      conversions_room = i.conversions_room;
      printable = rw rows i.printable;
      declared = rw same i.declared;
      jobids = rw same i.jobids;
    }

module _ (now : ℕ) (s : Spooler) (i : IsSpooler s) where
  command0-IsSpooler :
      (q : Outcome) (cmd : Text) → Always IsSpooler q → Always IsSpooler (command0 q s cmd)
  unfolding command0
  command0-IsSpooler q cmd h =
      Always-if _ (same_text cmd help) _ _ (λ _. i)
        λ _.
          Always-if _ (same_text cmd quit) _ _ (λ _. h)
            λ _.
              Always-if _ (same_text cmd printerss) _ _ (λ _. i)
                λ _. Always-if _ (same_text cmd jobss) _ _ (λ _. i) λ _. i

  file_command1-IsSpooler : (cmd a : Text) → Always IsSpooler (file_command1 now s cmd a)
  unfolding file_command1
  file_command1-IsSpooler cmd a =
      Always-if _ (same_text cmd type) _ _ (λ _. declare_type-IsSpooler s a i)
        λ _.
          Always-if _ (same_text cmd print) _ _ (λ _. print_file-IsSpooler false now s i a [])
            λ _. Always-if _ (same_text cmd cancels || _) _ _ (λ _. i) λ _. i

  command1-IsSpooler : (cmd a : Text) → Always IsSpooler (command1 now s cmd a)
  unfolding command1
  command1-IsSpooler cmd a =
      Always-if _ (same_text cmd type) _ _ (λ _. declare_type-IsSpooler s a i)
        λ _.
          Always-if _ (same_text cmd print) _ _ (λ _. print_file-IsSpooler true now s i a [])
            λ _.
              Always-if _ (same_text cmd cancels) _ _ (λ _. cancel-IsSpooler a s i)
                λ _.
                  Always-if _ (same_text cmd pauses || same_text cmd resume) _ _ (λ _. i)
                    λ _.
                      Always-if _ (same_text cmd disables) _ _ (λ _. disable-IsSpooler s a i)
                        λ _.
                          Always-if _ (same_text cmd enables) _ _ (λ _. enable-IsSpooler s a i)
                            λ _. i

  module _ (shown : Bool) where
    command2-IsSpooler : (cmd a b : Text) → Always IsSpooler (command2 shown now s cmd a b)
    unfolding command2
    command2-IsSpooler cmd a b =
        Always-if _ (same_text cmd printer) _ _ (λ _. declare_printer-IsSpooler s a b i)
          λ _.
            Always-if _ (same_text cmd print) _ _
              (λ _. print_file-IsSpooler shown now s i a (b ∷ [])) λ _. i

    command3-IsSpooler :
        (cmd a b c : Text) (rest : List Text)
        → Always IsSpooler (command3 shown now s cmd a b c rest)
    unfolding command3
    command3-IsSpooler cmd a b c rest =
        Always-if _ (same_text cmd conversion) _ _
          (λ _. declare_conversion-IsSpooler s a b c rest i)
          λ _.
            Always-if _ (same_text cmd print) _ _
              (λ _. print_file-IsSpooler shown now s i a (b ∷ (c ∷ rest))) λ _. i

  file_dispatch-IsSpooler : (words : List Text) → Always IsSpooler (file_dispatch now s words)
  unfolding file_dispatch
  file_dispatch-IsSpooler [] = i
  file_dispatch-IsSpooler (cmd ∷ []) = command0-IsSpooler (exits s []) cmd i
  file_dispatch-IsSpooler (cmd ∷ (a ∷ [])) = file_command1-IsSpooler cmd a
  file_dispatch-IsSpooler (cmd ∷ (a ∷ (b ∷ []))) = command2-IsSpooler false cmd a b
  file_dispatch-IsSpooler (cmd ∷ (a ∷ (b ∷ (c ∷ rest)))) = command3-IsSpooler false cmd a b c rest

  dispatch-IsSpooler : (words : List Text) → Always IsSpooler (dispatch now s words)
  unfolding dispatch
  dispatch-IsSpooler [] = i
  dispatch-IsSpooler (cmd ∷ []) = command0-IsSpooler (breaks s []) cmd i
  dispatch-IsSpooler (cmd ∷ (a ∷ [])) = command1-IsSpooler cmd a
  dispatch-IsSpooler (cmd ∷ (a ∷ (b ∷ []))) = command2-IsSpooler true cmd a b
  dispatch-IsSpooler (cmd ∷ (a ∷ (b ∷ (c ∷ rest)))) = command3-IsSpooler true cmd a b c rest

then_schedule-IsSpooler :
    (now : ℕ) (o : Outcome) → Always IsSpooler o → Always IsSpooler (then_schedule now o)
unfolding then_schedule
then_schedule-IsSpooler now (falls s out) i =
    Always-if _ (all_there (schedule now s).1) _ _ (λ _. schedule-IsSpooler now s i) λ _. tt
then_schedule-IsSpooler now (continues s out) i = i
then_schedule-IsSpooler now (breaks s out) i = i
then_schedule-IsSpooler now (exits s out) i = i
then_schedule-IsSpooler now undefined i = tt

pub file_round-IsSpooler :
    (now : ℕ) (s : Spooler) (line : Text) → IsSpooler s → Always IsSpooler (file_round now s line)
unfolding file_round
file_round-IsSpooler now s line i =
    Always-if _ (leb (length (tokens b' ' line)) 40) _ _
      (λ _. file_dispatch-IsSpooler now s i (tokens b' ' line)) λ _. tt

pub round-IsSpooler :
    (now : ℕ) (s : Spooler) (line : Text) → IsSpooler s → Always IsSpooler (round now s line)
unfolding round
round-IsSpooler now s line i =
    Always-if _ (leb (length (tokens b' ' line)) 40) _ _
      (λ _. then_schedule-IsSpooler now _ (dispatch-IsSpooler now s i (tokens b' ' line))) λ _. tt
