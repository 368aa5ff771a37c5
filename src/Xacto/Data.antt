-- ===== src/Xacto/Data.antt =====
-- The blobs and keys of hw5/src/data.c. A `char` is its byte; `none` is a read beyond the end of
-- the memory that an object has.
pub mod Keys
use c_language.Prelude.{ℕ, zero, suc, ◌+◌, Option, none, some, ◌>>=◌, Bool, true, false}
use c_language.Prelude.{List, [], ◌∷◌, replicate, u32, ltb, ◌==◌, if◌then◌else◌}

pub record Blob : Type 0 where
  pub refcnt : ℕ
  pub size : ℕ
  pub content : List ℕ
  pub prefix : List ℕ

pub record Key : Type 0 where
  pub hash : ℕ
  pub blob : Blob

-- The C library's `strncpy` into `n` new bytes: the rest is zeros behind a terminator.
unfoldable pub strncpy : ℕ → List ℕ → Option (List ℕ)
strncpy zero s = some []
strncpy (suc n) [] = none
strncpy (suc n) (c ∷ s) =
    let rest = strncpy n s in
    if c == 0 then some (0 ∷ replicate n 0) else (rest >>= (λ t. some (c ∷ t)))

unfoldable pub strlen : List ℕ → Option ℕ
strlen [] = none
strlen (c ∷ s) = let rest = strlen s in if c == 0 then some 0 else (rest >>= (λ n. some (suc n)))

-- Whether `strcmp` returns 0.
unfoldable pub str_equal : List ℕ → List ℕ → Option Bool
str_equal [] t = none
str_equal (a ∷ s) [] = none
str_equal (a ∷ s) (b ∷ t) =
    let rest = str_equal s t in if a == b then (if a == 0 then some true else rest) else some false

unfoldable pub blob_ref : Blob → Blob
blob_ref bp = record bp { refcnt = u32 (bp.refcnt + 1) }

unfoldable pub blob_create : List ℕ → ℕ → Option Blob
blob_create content size = do
  a ← strncpy size content
  p ← strncpy size content
  some (blob_ref (record { refcnt = 0; size = size; content = a; prefix = p }))

-- The blob that is left, or `none` where it is freed.
unfoldable pub blob_unref : Blob → Option Blob
blob_unref bp =
    if bp.refcnt == 1 then none else some (record bp { refcnt = u32 (bp.refcnt + 4294967295) })

-- 0, or the `int` -1.
unfoldable pub equal_or_not : Bool → ℕ
equal_or_not true = 0
equal_or_not false = 4294967295

unfoldable pub blob_compare : Blob → Blob → Option ℕ
blob_compare bp1 bp2 = str_equal bp1.content bp2.content >>= (λ b. some (equal_or_not b))

-- A `char` as an `int`, by its sign.
unfoldable pub char_value : ℕ → ℕ
char_value c = if ltb c 128 then c else c + 4294967040

unfoldable pub hash_loop : List ℕ → ℕ → ℕ → Option ℕ
hash_loop [] length hash = none
hash_loop (c ∷ s) length hash =
    let rest = hash_loop s length (u32 (hash + (char_value c + length))) in
    if c == 0 then some hash else rest

unfoldable pub blob_hash : Blob → Option ℕ
blob_hash bp = do length ← strlen bp.content; hash_loop bp.content length 0

-- The key, whose blob has the count as the call leaves it.
unfoldable pub key_create : Blob → Option Key
key_create bp = do
  h ← blob_hash bp
  some (record { hash = h; blob = record bp { refcnt = u32 (bp.refcnt + 1) } })

unfoldable pub key_dispose : Key → Option Blob
key_dispose kp = blob_unref kp.blob

unfoldable pub key_compare : Key → Key → Option ℕ
key_compare kp1 kp2 =
    if kp1.hash == kp2.hash then blob_compare kp1.blob kp2.blob else some 4294967295
