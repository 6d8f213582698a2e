-- ===== src/Util/IntUtil.antt =====
-- src/util/Int.h and Int.cpp: IntUtil, the next power of two of an unsigned integer.
pub mod Smears
pub mod NextPower
use cs_network_proj.Base.{ℕ, ◌+◌, ◌-◌, ◌^◌, bit_or, u32, u64, ◌>>>◌}

-- v |= v >> (1u << k)
unfoldable pub smear : ℕ → ℕ → ℕ
smear v k = bit_or v (v >>> (2 ^ k))

-- v--, v++ of 32 and of 64 bits, with the lines between them.
unfoldable pub next32_pow2 : ℕ → ℕ
unfolding smear
next32_pow2 v =
    let v = u32 (v + 2 ^ 32 - 1) in
    let v = smear v 0 in
    let v = smear v 1 in let v = smear v 2 in let v = smear v 3 in let v = smear v 4 in u32 (v + 1)

unfoldable pub next64_pow2 : ℕ → ℕ
unfolding smear
next64_pow2 v =
    let v = u64 (v + 2 ^ 64 - 1) in
    let v = smear v 0 in
    let v = smear v 1 in
    let v = smear v 2 in let v = smear v 3 in let v = smear v 4 in let v = smear v 5 in u64 (v + 1)
