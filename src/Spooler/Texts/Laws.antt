-- ===== src/Spooler/Texts/Laws.antt =====
-- What `strtok` makes of the lines and the file names of hw4/src/main.c.
use c_language.Prelude.{append-nil, append_assoc}
use c_language.Prelude.{ℕ, ◌≡◌, ◌≢◌, refl, ap, ◌∙◌, false, List, [], ◌∷◌, ◌++◌, All, ◌==◌, ==_refl}
use c_language.Spooler.State.{Text}
use c_language.Spooler.Texts.{flush, tokens_loop, tokens}

-- A text that is not empty and has no separator in it.
abbrev pub IsToken : ℕ → Text → Type 0
IsToken separator t = (t ≢ []) × All (λ c. (c == separator) ≡ false) t

-- The texts with a separator behind each, in front of the end of the line.
abbrev pub joined : ℕ → List Text → Text → Text
joined separator [] end = end
joined separator (t ∷ ts) end = t ++ separator ∷ joined separator ts end

module _ (separator : ℕ) where
  -- A text without separators goes through to the next separator.
  tokens_loop-through :
      (token t rest : Text)
      → All (λ c. (c == separator) ≡ false) t
      → tokens_loop separator token (t ++ separator ∷ rest)
        ≡ flush (token ++ t) (tokens_loop separator [] rest)
  unfolding tokens_loop
  tokens_loop-through token [] rest h = rw (==_refl separator, append-nil token) refl
  tokens_loop-through token (c ∷ t) rest h = rw h.0 (
      tokens_loop-through (token ++ c ∷ []) t rest h.1
      ∙ ap (λ a. flush a (tokens_loop separator [] rest)) (append_assoc token (c ∷ []) t))

  flush_token : (t : Text) (rest : List Text) → t ≢ [] → flush t rest ≡ t ∷ rest
  flush_token [] rest h = absurd (h refl)
  flush_token (c ∷ t) rest h = refl

  -- Separators in front of a text are passed over.
  pub tokens_skip : (rest : Text) → tokens separator (separator ∷ rest) ≡ tokens separator rest
  unfolding tokens_loop
  tokens_skip rest = rw (==_refl separator) refl

  -- A text without separators goes through to the end.
  tokens_loop-end :
      (token t : Text)
      → All (λ c. (c == separator) ≡ false) t
      → tokens_loop separator token t ≡ flush (token ++ t) []
  unfolding tokens_loop
  tokens_loop-end token [] h = rw (append-nil token) refl
  tokens_loop-end token (c ∷ t) h = rw h.0 (
      tokens_loop-end (token ++ c ∷ []) t h.1
      ∙ ap (λ a. flush a []) (append_assoc token (c ∷ []) t))

  front_tokens :
      (ts : List Text) (end : Text)
      → All (IsToken separator) ts
      → tokens separator (joined separator ts end) ≡ ts ++ tokens separator end
  unfolding tokens_loop
  front_tokens [] end h = refl
  front_tokens (t ∷ ts) end h =
      tokens_loop-through [] t (joined separator ts end) h.0.1
      ∙ (flush_token t _ h.0.0 ∙ ap (λ l. t ∷ l) (front_tokens ts end h.1))

  -- The strtok loop takes a line that was put together from tokens, with one separator between any
  -- two, apart into the same tokens: where the line ends with the last token, and where it ends
  -- with a separator behind it.
  pub tokens-joined :
      (ts : List Text) (t : Text)
      → All (IsToken separator) ts
      → IsToken separator t
      → (tokens separator (joined separator ts t) ≡ ts ++ t ∷ [])
        × (tokens separator (joined separator ts (t ++ separator ∷ [])) ≡ ts ++ t ∷ [])
  unfolding tokens_loop
  tokens-joined ts t h last = (
    front_tokens ts t h ∙ ap (λ l. ts ++ l) (tokens_loop-end [] t last.1 ∙ flush_token t [] last.0),
    front_tokens ts (t ++ separator ∷ []) h
        ∙ ap (λ l. ts ++ l) (tokens_loop-through [] t [] last.1 ∙ flush_token t [] last.0),
  )
