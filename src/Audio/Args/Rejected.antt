-- ===== src/Audio/Args/Rejected.antt =====
-- Arguments of -c that `validargs` never accepts.
use c_language.Prelude.{ℕ, suc, ◌≡◌, ◌≢◌, true, some, List, [], ◌∷◌, length, ltb, arith}
use c_language.Audio.Args.{validargs, mode_args, crypt_args}
use c_language.Audio.Args.Options.{key_after_p-false}

third_length : (n : ℕ) → (ltb 2 (suc (suc (suc n))) ≡ true) × (ltb 1 (suc (suc (suc n))) ≡ true)
third_length n = (ground arith, ground arith)

-- With -c as the first option and -p as the second, validargs accepts no arguments: whatever
-- stands behind, a key or nothing, the code reads the letter of -k as a digit of the key, or
-- falls through.
pub crypt_p_rejected :
    (prog : List ℕ) (rest : List (List ℕ)) (o : ℕ)
    → validargs (prog ∷ ((b'-' ∷ (b'c' ∷ [])) ∷ ((b'-' ∷ (b'p' ∷ [])) ∷ rest))) 0 ≢ some (true, o)
unfolding validargs mode_args crypt_args
crypt_p_rejected prog rest o e =
    let (a, b) = third_length (length rest) in let e1 = rw (b, a) at e in key_after_p-false _ _ e1
