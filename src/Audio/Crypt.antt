-- ===== src/Audio/Crypt.antt =====
-- The branch of `recode` (hw1/src/hw1.c) for option -c: each sample of a frame is combined with
-- the next number of the generator.
pub mod Sample
pub mod Frames
pub mod Stream
use c_language.Prelude.{ℕ, zero, suc, ◌+◌, ◌*◌, ◌-◌, ◌^◌, Bool, true, false, Option, none, some}
use c_language.Prelude.{List, [], ◌∷◌, ◌++◌, u32, ◌<<<◌, ◌>>>◌, bit_xor, ◌>>=◌, length}
use c_language.Audio.Rand.{mysrand, myrand32}
use c_language.Audio.Frame.{load, store, read_frame, write_frame}

-- for(j) { k*=256; k+=*(input_frame_int+j+g*bytes); }, where `base` is `g*bytes`.
unfoldable pub gather : ℕ → ℕ → ℕ → ℕ → List ℕ → Option ℕ
gather zero j base k fp = some k
gather (suc left) j base k fp =
    load fp (j + base) >>= λ b. gather left (j + 1) base (u32 (u32 (k * 256) + b)) fp

-- prng = k << (32-8*bytes+8*j); prng = prng >> 24;
unfoldable pub key_byte : ℕ → ℕ → ℕ → ℕ
key_byte bytes k j = u32 (k <<< (32 - 8 * bytes + 8 * j)) >>> 24

-- for(j) *(output_frame_int+j+g*bytes) = that byte;
unfoldable pub scatter : ℕ → ℕ → ℕ → ℕ → ℕ → List ℕ → Option (List ℕ)
scatter zero j base bytes k fp = some fp
scatter (suc left) j base bytes k fp =
    store fp (j + base) (key_byte bytes k j) >>= λ fp'. scatter left (j + 1) base bytes k fp'

-- The loop over the channels of a frame, at channel `g`: the state of the generator and the output
-- buffer.
unfoldable pub crypt_frame : ℕ → ℕ → ℕ → ℕ → List ℕ → List ℕ → Option (ℕ × List ℕ)
crypt_frame zero g bytes next inp out = some (next, out)
crypt_frame (suc left) g bytes next inp out =
    let (prng, next') = myrand32 next in
    gather bytes 0 (g * bytes) 0 inp >>= λ k.
    (scatter bytes 0 (g * bytes) bytes (bit_xor k prng) out >>= λ out'.
    crypt_frame left (g + 1) bytes next' inp out')

-- What happens behind a `read_frame` that gave its result, the buffer and the unread input. The
-- rest of the loop is `continue`.
unfoldable pub crypt_round :
    ℕ
    → ℕ
    → ℕ
    → List ℕ
    → (ℕ → List ℕ → List ℕ → List ℕ → Option (List ℕ))
    → Bool × List ℕ × List ℕ
    → Option (List ℕ)
crypt_round channels bytes next out continue (false, inp, s) = some []
crypt_round channels bytes next out continue (true, inp, s) =
    crypt_frame channels 0 bytes next inp out >>= λ st.
    (write_frame st.1 channels bytes >>= λ written.
    (continue st.0 inp st.1 s >>= λ more. some (written ++ more)))

-- while(read_frame(...)!=0) { ... }, with fuel for the rounds; the result is what is written.
unfoldable pub crypt_loop : ℕ → ℕ → ℕ → ℕ → List ℕ → List ℕ → List ℕ → Option (List ℕ)
crypt_loop zero channels bytes next inp out s = none
crypt_loop (suc fuel) channels bytes next inp out s =
    read_frame inp channels bytes s
    >>= crypt_round channels bytes next out
        λ next' inp' out' s'. crypt_loop fuel channels bytes next' inp' out' s'

-- Every round reads at least one byte.
unfoldable pub crypt_samples : ℕ → ℕ → ℕ → List ℕ → List ℕ → List ℕ → Option (List ℕ)
crypt_samples key channels bytes inp out s =
    crypt_loop (suc (length s)) channels bytes (mysrand key) inp out s
