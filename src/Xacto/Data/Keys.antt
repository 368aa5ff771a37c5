-- ===== src/Xacto/Data/Keys.antt =====
-- Keys and blobs as the texts that they hold.
use c_language.Prelude.{
  ℕ, zero, suc, ◌+◌, ◌≡◌, ◌≢◌, ◌↔◌, refl, ap, Bool, true, false, none, some, ◌>>=◌,
}
use c_language.Prelude.{
  List, [], ◌∷◌, ◌++◌, length, replicate, arith, u32, ◌==◌, Bool-cases, ==_refl, ==_ne, ==_iff, inl,
  inr,
}
use c_language.Audio.Annotation.Laws.{NoZeros}
use c_language.Xacto.Data.{
  Blob, Key, strncpy, strlen, str_equal, blob_ref, blob_create, blob_compare, equal_or_not,
}
use c_language.Xacto.Data.{char_value, hash_loop, blob_hash, key_create, key_compare}

is_zero : (c : ℕ) → c ≢ 0 → (c == 0) ≡ false
is_zero c d = ground arith

strncpy_full :
    (n pad : ℕ) (text more : List ℕ)
    → NoZeros text
    → n ≡ length text + suc pad
    → strncpy n (text ++ (0 ∷ more)) ≡ some (text ++ (0 ∷ replicate pad 0))
unfolding strncpy
strncpy_full zero pad [] more z e = absurd (omega arith)
strncpy_full (suc n) pad [] more z e =
    ap (λ k. some (0 ∷ replicate k 0)) (let f : n ≡ pad = omega arith in f)
strncpy_full zero pad (c ∷ t) more z e = absurd (omega arith)
strncpy_full (suc n) pad (c ∷ t) more (d, z) e =
    rw (is_zero c d, strncpy_full n pad t more z (omega arith)) refl

strncpy_cut : (text more : List ℕ) → NoZeros text → strncpy (length text) (text ++ more) ≡ some text
unfolding strncpy
strncpy_cut [] more z = refl
strncpy_cut (c ∷ t) more (d, z) = rw (is_zero c d, strncpy_cut t more z) refl

strlen_full : (text more : List ℕ) → NoZeros text → strlen (text ++ (0 ∷ more)) ≡ some (length text)
unfolding strlen
strlen_full [] more z = refl
strlen_full (c ∷ t) more (d, z) = rw (is_zero c d, strlen_full t more z) refl

strlen-none : (text : List ℕ) → NoZeros text → strlen text ≡ none
unfolding strlen
strlen-none [] z = refl
strlen-none (c ∷ t) (d, z) = rw (is_zero c d, strlen-none t z) refl

str_equal-none : (text : List ℕ) → NoZeros text → str_equal text text ≡ none
unfolding str_equal
str_equal-none [] z = refl
str_equal-none (c ∷ t) (d, z) = rw (is_zero c d, ==_refl c, str_equal-none t z) refl

-- A reference hash of a text, of which `length` is the length.
text_hash : ℕ → ℕ → List ℕ → ℕ
text_hash length hash [] = hash
text_hash length hash (c ∷ t) = text_hash length (u32 (hash + (char_value c + length))) t

hash_loop_full :
    (n h : ℕ) (text more : List ℕ)
    → NoZeros text
    → hash_loop (text ++ (0 ∷ more)) n h ≡ some (text_hash n h text)
unfolding hash_loop text_hash
hash_loop_full n h [] more z = refl
hash_loop_full n h (c ∷ t) more (d, z) =
    rw (is_zero c d) (hash_loop_full n (u32 (h + (char_value c + n))) t more z)

-- `strcmp` of two terminated texts.
compared :
    (s t a b : List ℕ)
    → NoZeros s
    → NoZeros t
    → (r : Bool) × (str_equal (s ++ (0 ∷ a)) (t ++ (0 ∷ b)) ≡ some r) × ((r ≡ true) ↔ (s ≡ t))
unfolding str_equal
compared [] [] a b y z = (true, refl, ((λ e. refl), (λ e. refl)))
compared [] (d ∷ t) a b y (n, z) =
    let e : (0 == d) ≡ false = ground arith in (false, rw e refl, ((λ h. cc), (λ h. cc)))
compared (c ∷ s) [] a b (n, y) z = (false, rw (is_zero c n) refl, ((λ h. cc), (λ h. cc)))
compared (c ∷ s) (d ∷ t) a b (n, y) (k, z) = elim (Bool-cases (c == d)) [
  | inr e ↦ (false, rw e refl, ((λ h. cc), (λ h. absurd (==_ne c d e (cc)))))
  | inl e ↦
      let (r, q, (f, g)) = compared s t a b y z in
      let same = (==_iff c d).0 e in
      (r, rw (e, is_zero c n, q) refl, ((λ h. let i = f h in cc), (λ h. g (cc))))
]

-- A blob of a terminated text with room for the terminator.
text_blob : List ℕ → ℕ → ℕ → Blob
text_blob text pad count = record {
  refcnt = count;
  size = length text + suc pad;
  content = text ++ (0 ∷ replicate pad 0);
  prefix = text ++ (0 ∷ replicate pad 0);
}

created :
    (pad : ℕ) (text more : List ℕ)
    → NoZeros text
    → blob_create (text ++ (0 ∷ more)) (length text + suc pad) ≡ some (text_blob text pad 1)
unfolding blob_create blob_ref text_blob
created pad text more z = rw (strncpy_full (length text + suc pad) pad text more z refl) refl

hashed :
    (pad count : ℕ) (text : List ℕ)
    → NoZeros text
    → blob_hash (text_blob text pad count) ≡ some (text_hash (length text) 0 text)
unfolding blob_hash text_blob
hashed pad count text z =
    rw
      (
        strlen_full text (replicate pad 0) z,
        hash_loop_full (length text) 0 text (replicate pad 0) z,
      )
      refl

text_key : List ℕ → ℕ → Key
text_key text pad = record { hash = text_hash (length text) 0 text; blob = text_blob text pad 2 }

keyed :
    (pad : ℕ) (text : List ℕ)
    → NoZeros text
    → key_create (text_blob text pad 1) ≡ some (text_key text pad)
unfolding key_create text_blob text_key
keyed pad text z = rw (hashed pad 1 text z) refl

decided :
    (s t : List ℕ) (r : Bool)
    → ((r ≡ true) → (s ≡ t))
    → ((s ≡ t) → (r ≡ true))
    → (equal_or_not r ≡ 0) ↔ (s ≡ t)
unfolding equal_or_not
decided s t true f g = ((λ h. f refl), (λ h. refl))
decided s t false f g = ((λ h. absurd (omega arith)), (λ h. let k = g h in cc))

keys_compare :
    (s t : List ℕ) (p q : ℕ)
    → NoZeros s
    → NoZeros t
    → (r : ℕ) × (key_compare (text_key s p) (text_key t q) ≡ some r) × ((r ≡ 0) ↔ (s ≡ t))
unfolding key_compare blob_compare text_key text_blob
keys_compare s t p q y z =
    elim (Bool-cases (text_hash (length s) 0 s == text_hash (length t) 0 t)) [
      | inr e ↦
          let d = ==_ne (text_hash (length s) 0 s) (text_hash (length t) 0 t) e in
          (
            4294967295,
            rw e refl,
            ((λ h. absurd (omega arith)), (λ h. absurd (d (ap (λ x. text_hash (length x) 0 x) h)))),
          )
      | inl e ↦
          let (r, c, (f, g)) = compared s t (replicate p 0) (replicate q 0) y z in
          (equal_or_not r, rw (e, c) refl, decided s t r f g)
    ]

-- Keys created from blobs that have room for the terminators of their texts compare to 0 exactly
-- when the texts are the same, whatever their hashes and the memory behind the texts.
pub key_compare_texts :
    (s t a b : List ℕ) (p q : ℕ)
    → NoZeros s
    → NoZeros t
    → (k1 : Key) × (k2 : Key) × ((blob_create (s ++ (0 ∷ a)) (length s + suc p) >>= key_create)
        ≡ some k1)
      × ((blob_create (t ++ (0 ∷ b)) (length t + suc q) >>= key_create) ≡ some k2)
      × (r : ℕ) × (key_compare k1 k2 ≡ some r)
      × ((r ≡ 0) ↔ (s ≡ t))
key_compare_texts s t a b p q y z =
    let (r, c, d) = keys_compare s t p q y z in
    (
      text_key s p,
      text_key t q,
      rw (created p s a y) (keyed p s y),
      rw (created q t b z) (keyed q t z),
      r,
      c,
      d,
    )

-- A blob created with the length of its text as its size, as the server creates keys and values,
-- has no terminator: to hash it, to compare it with itself, or to make a key of it reads beyond
-- its content.
pub unterminated_blob :
    (text more : List ℕ)
    → NoZeros text
    → (bp : Blob) × (blob_create (text ++ more) (length text) ≡ some bp)
      × (blob_hash bp ≡ none)
      × (blob_compare bp bp ≡ none)
      × (key_create bp ≡ none)
unfolding blob_create blob_ref blob_hash blob_compare key_create
unterminated_blob text more z = (
  record { refcnt = 1; size = length text; content = text; prefix = text },
  rw (strncpy_cut text more z) refl,
  rw (strlen-none text z) refl,
  rw (str_equal-none text z) refl,
  rw (strlen-none text z) refl,
)
