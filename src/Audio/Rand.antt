-- ===== src/Audio/Rand.antt =====
-- hw1/src/myrand.c: a linear congruential generator over `unsigned long`. The state is the file's
-- static variable `next`.
use c_language.Prelude.{ℕ, zero, suc, ◌+◌, ◌*◌, ◌/◌, ◌%◌}
use c_language.Prelude.{u32, u64, ◌<<<◌, ◌>>>◌, bit_or, bit_and}

-- `myrand`: the value that it returns, and the new state.
unfoldable pub myrand : ℕ → ℕ × ℕ
myrand next =
    let next' = u64 (u64 (next * 1103515245) + 12345) in (u32 (next' / 65536) % 32768, next')

unfoldable pub mysrand : ℕ → ℕ
mysrand seed = seed

-- The loop of `myrand32`, with the rounds that are left.
unfoldable pub myrand32_loop : ℕ → ℕ → ℕ → ℕ × ℕ
unfolding myrand
myrand32_loop zero r next = (r, next)
myrand32_loop (suc left) r next =
    let (v, next') = myrand next in
    myrand32_loop left (bit_or (u32 (r <<< 8)) (bit_and v 0x7fff >>> 7)) next'

unfoldable pub myrand32 : ℕ → ℕ × ℕ
unfolding myrand32_loop
myrand32 next = myrand32_loop 4 0 next
