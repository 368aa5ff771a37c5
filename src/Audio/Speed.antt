-- ===== src/Audio/Speed.antt =====
-- The branches of `recode` (hw1/src/hw1.c) for the options -u and -d, and `calcu_frame`. Signed
-- numbers are patterns of 32 bits; what C leaves undefined there, an overflow, wraps.
pub mod Up
pub mod Between
use c_language.Prelude.{
  ℕ, zero, suc, ◌+◌, ◌-◌, ◌*◌, ◌/◌, ◌%◌, ◌^◌, Bool, true, false, Option, none, some,
}
use c_language.Prelude.{List, [], ◌++◌, u32, ◌<<<◌, sar24, is_negative, ◌==◌, if◌then◌else◌, ◌>>=◌}
use c_language.Audio.Frame.{store, read_frame, write_frame, framecpy}
use c_language.Audio.Crypt.{gather}

-- What follows a `read_frame` in the loop of -u. Frames are written while `counter` is a multiple
-- of the factor; at 2^31 frames the counter overflows.
unfoldable pub up_round :
    ℕ
    → ℕ
    → ℕ
    → ℕ
    → (ℕ → List ℕ → List ℕ → Option (List ℕ))
    → Bool × List ℕ × List ℕ
    → Option (List ℕ)
up_round channels bytes factor counter continue (false, inp, s) = some []
up_round channels bytes factor counter continue (true, inp, s) = do
  w ← if counter % factor == 0 then write_frame inp channels bytes else some []
  n ← if counter + 1 == 2 ^ 31 then none else some (counter + 1)
  more ← continue n inp s
  some (w ++ more)

unfoldable pub up_loop : ℕ → ℕ → ℕ → ℕ → ℕ → List ℕ → List ℕ → Option (List ℕ)
up_loop zero channels bytes factor counter inp s = none
up_loop (suc fuel) channels bytes factor counter inp s =
    read_frame inp channels bytes s
    >>= up_round channels bytes factor counter
        λ n inp' s'. up_loop fuel channels bytes factor n inp' s'

-- `x / y` of an `int` by a positive one: towards zero.
unfoldable pub div_int : ℕ → ℕ → ℕ
div_int x y = if is_negative x then u32 (2 ^ 32 - (2 ^ 32 - x) / y) else x / y

-- e = c+(d-c)*k/fac;
unfoldable pub interpolate : ℕ → ℕ → ℕ → ℕ → ℕ
interpolate c d k fac = u32 (c + div_int (u32 (u32 (d + 2 ^ 32 - c) * k)) fac)

-- f = e <<(32-8*bytes+8*g); f = f >> 24; *(op+j*bytes+g) = f;
unfoldable pub scatter_int : ℕ → ℕ → ℕ → ℕ → ℕ → List ℕ → Option (List ℕ)
scatter_int zero g base bytes e op = some op
scatter_int (suc left) g base bytes e op =
    store op (g + base) (sar24 (u32 (e <<< (32 - 8 * bytes + 8 * g)))) >>= λ op'.
    scatter_int left (g + 1) base bytes e op'

-- The loop of `calcu_frame` over the channels, from channel `j` on.
unfoldable pub calcu_loop : ℕ → ℕ → List ℕ → List ℕ → List ℕ → ℕ → ℕ → ℕ → Option (List ℕ)
calcu_loop zero j pp ip op bytes fac k = some op
calcu_loop (suc left) j pp ip op bytes fac k = gather bytes 0 (j * bytes) 0 pp >>= λ c.
    (gather bytes 0 (j * bytes) 0 ip >>= λ d.
    (scatter_int bytes 0 (j * bytes) bytes (interpolate c d k fac) op >>= λ op'.
    calcu_loop left (j + 1) pp ip op' bytes fac k))

unfoldable pub calcu_frame : List ℕ → List ℕ → List ℕ → ℕ → ℕ → ℕ → ℕ → Option (List ℕ)
calcu_frame pp ip op channels bytes fac k = calcu_loop channels 0 pp ip op bytes fac k

-- for(int i=1;i<factor;i++){ calcu_frame(...); write_frame(...); }: the output buffer and what is
-- written.
unfoldable pub between_loop :
    ℕ → ℕ → ℕ → ℕ → ℕ → List ℕ → List ℕ → List ℕ → Option (List ℕ × List ℕ)
between_loop zero i channels bytes factor prev inp out = some (out, [])
between_loop (suc left) i channels bytes factor prev inp out =
    calcu_frame prev inp out channels bytes factor i >>= λ out'.
    (write_frame out' channels bytes >>= λ w.
    (between_loop left (i + 1) channels bytes factor prev inp out' >>= λ r. some (r.0, w ++ r.1)))

unfoldable pub down_round :
    ℕ
    → ℕ
    → ℕ
    → List ℕ
    → List ℕ
    → (List ℕ → List ℕ → List ℕ → List ℕ → Option (List ℕ))
    → Bool × List ℕ × List ℕ
    → Option (List ℕ)
down_round channels bytes factor prev out continue (false, inp, s) = some []
down_round channels bytes factor prev out continue (true, inp, s) =
    between_loop (factor - 1) 1 channels bytes factor prev inp out >>= λ r.
    (write_frame inp channels bytes >>= λ w.
    (framecpy prev inp channels bytes >>= λ prev'.
    (continue prev' inp r.0 s >>= λ more. some (r.1 ++ (w ++ more)))))

unfoldable pub down_loop : ℕ → ℕ → ℕ → ℕ → List ℕ → List ℕ → List ℕ → List ℕ → Option (List ℕ)
down_loop zero channels bytes factor prev inp out s = none
down_loop (suc fuel) channels bytes factor prev inp out s =
    read_frame inp channels bytes s
    >>= down_round channels bytes factor prev out
        λ prev' inp' out' s'. down_loop fuel channels bytes factor prev' inp' out' s'

-- The first frame, and the loop if there is one.
unfoldable pub down_start :
    ℕ → ℕ → ℕ → ℕ → List ℕ → List ℕ → Bool × List ℕ × List ℕ → Option (List ℕ)
down_start fuel channels bytes factor inp out (false, prev, s) = some []
down_start fuel channels bytes factor inp out (true, prev, s) =
    write_frame prev channels bytes >>= λ w.
    (down_loop fuel channels bytes factor prev inp out s >>= λ more. some (w ++ more))
