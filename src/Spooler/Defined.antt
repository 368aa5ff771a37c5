-- ===== src/Spooler/Defined.antt =====
-- Rounds of the interactive loop of hw4/src/main.c that C defines.
use c_language.Prelude.{◌<◌, ◌≡◌, true, Option, none, some, List, [], ◌∷◌, length}
use c_language.Spooler.State.{Text, Spooler}
use c_language.Spooler.Texts.{fits}
use c_language.Spooler.Commands.{command_text, few_parts, type_of_file, eligible_loop}

-- There is a free row in every table, and a printer in the row with the number of the next job.
pub record IsRoomy (s : Spooler) : Type 0 where
  pub printers : length s.printers < 32
  pub jobs : length s.jobs < 1024
  pub types : length s.types < 100
  pub conversions : length s.conversions < 100
  pub rows : length s.jobs < length s.printers

abbrev IsSome {ℓ} : {A : Type ℓ} → Option A → Type 0
IsSome none = ⊥
IsSome (some a) = Unit

-- A file name with at most ten parts, of which one is there.
abbrev pub IsFile : Text → Type 0
IsFile a = (fits a ≡ true) × (few_parts a ≡ true) × IsSome (type_of_file a)

-- Words that fit their buffers: as a file name and printers of `print`, and as a conversion.
abbrev pub IsModest : Spooler → List Text → Type 0
IsModest s [] = Unit
IsModest s (cmd ∷ []) = Unit
IsModest s (cmd ∷ (a ∷ [])) = IsFile a
IsModest s (cmd ∷ (a ∷ (b ∷ []))) =
    IsFile a × (fits b ≡ true) × IsSome (eligible_loop s.printers (b ∷ []) 0 0)
IsModest s (cmd ∷ (a ∷ (b ∷ (c ∷ rest)))) =
    IsFile a
    × (fits b ≡ true)
    × IsSome (eligible_loop s.printers (b ∷ (c ∷ rest)) 0 0)
    × (fits (command_text c rest) ≡ true)
