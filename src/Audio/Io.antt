-- ===== src/Audio/Io.antt =====
-- The loops of hw1/src/hw1.c that read and write the 32-bit words of a header, over
-- `getchar` and `putchar`. Standard input is the list of the bytes that are still unread, and
-- what is written to standard output is the list of its bytes.
pub mod Laws
use c_language.Prelude.{ℕ, zero, suc, ◌+◌, ◌*◌, ◌-◌, ◌^◌, List, [], ◌∷◌}
use c_language.Prelude.{u8, u32, ◌<<<◌, sar24}

-- The pattern of the `int` that `getchar` returns at the end of the input.
abbrev pub eof : ℕ
eof = 2 ^ 32 - 1

unfoldable pub getchar : List ℕ → ℕ × List ℕ
getchar [] = (eof, [])
getchar (b ∷ s) = (b, s)

-- for(int j=0;j<4;j++){ temp*=256; b=getchar(); temp+=b; }, with the rounds that are left.
unfoldable pub read_word : ℕ → ℕ → List ℕ → ℕ × List ℕ
unfolding getchar
read_word zero temp s = (temp, s)
read_word (suc left) temp s =
    let (b, s') = getchar s in read_word left (u32 (u32 (temp * 256) + b)) s'

-- a = w<<(j*8); a=a>>24; putchar(a);
unfoldable pub word_byte : ℕ → ℕ → ℕ
word_byte w j = u8 (sar24 (u32 (w <<< (j * 8))))

unfoldable pub write_word : ℕ → List ℕ
unfolding word_byte
write_word w = word_byte w 0 ∷ word_byte w 1 ∷ word_byte w 2 ∷ word_byte w 3 ∷ []
