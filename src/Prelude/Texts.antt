-- ===== src/Prelude/Texts.antt =====
-- Strings of C, as the lists of their bytes without the terminating zero.
use Prim.Native.Nat.{ℕ}
use mathlib.Core.Path.{◌≡◌, refl, ap, ◌∙◌}
use mathlib.Core.Bool.{Bool, true, false, ◌&&◌}
use mathlib.Core.List.{List, [], ◌∷◌}
use c_language.Prelude.Tests.{◌==◌, ==_refl, ==_iff, Bool-cases}
use mathlib.Core.Logic.{inl, inr}

-- strcmp(a,b)==0
unfoldable pub same_text : List ℕ → List ℕ → Bool
same_text [] [] = true
same_text [] (d ∷ b) = false
same_text (c ∷ a) [] = false
same_text (c ∷ a) (d ∷ b) = (c == d) && same_text a b

pub same_text_refl : (a : List ℕ) → same_text a a ≡ true
unfolding same_text
same_text_refl [] = refl
same_text_refl (c ∷ a) = rw (==_refl c, same_text_refl a) refl

pub same_text_eq : (a b : List ℕ) → same_text a b ≡ true → a ≡ b
unfolding same_text
same_text_eq [] [] h = refl
same_text_eq [] (d ∷ b) h = cc
same_text_eq (c ∷ a) [] h = cc
same_text_eq (c ∷ a) (d ∷ b) h = elim (Bool-cases (c == d)) [
  | inl e ↦
      let t : same_text a b ≡ true = (rw e at h) in
      let p = same_text_eq a b t in
      let q = (==_iff c d).0 e in ap (λ z. z ∷ a) q ∙ ap (λ z. d ∷ z) p
  | inr e ↦ let t : false ≡ true = (rw e at h) in cc
]
