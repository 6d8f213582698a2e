-- ===== src/Util/IntUtil/NextPower.antt =====
-- `next32Pow2` and `next64Pow2` against a search through the powers of two.
use native.Mathlib.Nat.{mod-eq_of_lt, mod_self, one-le-pow, pow-suc, pow-le-pow_right}
use cs_network_proj.Base.{
  ℕ, zero, suc, ◌+◌, ◌-◌, ◌*◌, ◌/◌, ◌%◌, ◌^◌, ◌≤◌, ◌<◌, ◌≡◌, refl, sym, ap, ◌∙◌, ◌⊎◌, inl, inr,
  arith, leb, ◌==◌, if◌then◌else◌, true, false, Bool-cases, u32, u64,
}
use cs_network_proj.Util.IntUtil.{smear, next32_pow2, next64_pow2}
use cs_network_proj.Util.IntUtil.Smears.{IsSmeared, smear-IsSmeared}

-- The first of so many powers, from the exponent `i` on, that is not below `v`; 0 if none is.
unfoldable pub first_power : ℕ → ℕ → ℕ → ℕ
first_power zero i v = 0
first_power (suc k) i v =
    let next = first_power k (i + 1) v in if leb v (2 ^ i) then 2 ^ i else next

-- The least power of two of a width that is not below `v`. There is none for large numbers, and 0
-- is its own.
pub next_power : ℕ → ℕ → ℕ
unfolding first_power
next_power width v = if v == 0 then 0 else first_power width 0 v

-- The highest bit of `x` is the last of `n`.
record HasBits (n x : ℕ) : Type 0 where
  small : x < 2 ^ n
  high : (n ≡ 0) ⊎ (2 ^ n ≤ 2 * x)

bits_fuel : (fuel x : ℕ) → x ≤ fuel → (n : ℕ) × HasBits n x
bits_fuel fuel zero h = (0, record { small = omega arith; high = inl refl })
bits_fuel zero (suc x) h = absurd (omega arith)
bits_fuel (suc fuel) (suc x) h =
    let (n, b) = bits_fuel fuel (suc x / 2) (omega arith) in
    let small = b.small in
    (
      suc n,
      record {
        small = omega (arith, pow-suc 2 n);
        high = elim b.high [
          | inl none ↦ inr (omega (arith, pow-suc 2 n, ap (λ k. 2 ^ k) none))
          | inr half ↦ inr (omega (arith, pow-suc 2 n))
        ];
      },
    )

HasBits-le : (n x k : ℕ) → HasBits n x → x < 2 ^ k → n ≤ k
HasBits-le zero x k b h = omega arith
HasBits-le (suc n) x k b h = elim b.high [
  | inl none ↦ omega arith
  | inr half ↦ elim (Bool-cases (leb (suc n) k)) [
    | inl fits ↦ ground arith
    | inr more ↦
        let large : 2 ^ k ≤ 2 ^ n = pow-le-pow_right (omega arith) (ground arith) in
        absurd (omega (arith, pow-suc 2 n))
  ]
]

HasBits-IsSmeared : (n x : ℕ) → HasBits n x → IsSmeared n 1 x
HasBits-IsSmeared zero x b = (b.small, omega arith)
HasBits-IsSmeared (suc n) x b = elim b.high [
  | inl none ↦ absurd (omega arith)
  | inr half ↦
      let same : suc n - 1 ≡ n = omega arith in rw same (b.small, omega (arith, pow-suc 2 n))
]

all_set : (n a x : ℕ) → n ≤ a → IsSmeared n a x → x + 1 ≡ 2 ^ n
all_set n a x h (small, ones) =
    let none_left : n - a ≡ 0 = omega arith in omega (arith, ap (λ k. 2 ^ k) none_left)

-- The powers below the last bit are below `v`, and the next one is not.
below_last : (i n v : ℕ) → i < n → HasBits n (v - 1) → 0 < v → 2 ^ i < v
below_last i zero v h b p = absurd (omega arith)
below_last i (suc n) v h b p = elim b.high [
  | inl none ↦ absurd (omega arith)
  | inr half ↦
      let less : 2 ^ i ≤ 2 ^ n = pow-le-pow_right (omega arith) (omega arith) in
      omega (arith, pow-suc 2 n)
]

first_power-found :
    (k i n v : ℕ) → i ≤ n → n < i + k → HasBits n (v - 1) → 0 < v → first_power k i v ≡ 2 ^ n
unfolding first_power
first_power-found zero i n v h l b p = absurd (omega arith)
first_power-found (suc k) i n v h l b p =
    let small = b.small in
    elim (Bool-cases (leb n i)) [
      | inl last ↦
          let same : i ≡ n = ground arith in
          let enough : leb v (2 ^ i) ≡ true = ground (arith, ap (λ j. 2 ^ j) same) in
          rw enough (ap (λ j. 2 ^ j) same)
      | inr before ↦
          let more = below_last i n v (ground arith) b p in
          let less : leb v (2 ^ i) ≡ false = ground arith in
          rw less (first_power-found k (i + 1) n v (ground arith) (omega arith) b p)
    ]

first_power-none : (k i n v : ℕ) → i + k ≤ n → HasBits n (v - 1) → 0 < v → first_power k i v ≡ 0
unfolding first_power
first_power-none zero i n v h b p = refl
first_power-none (suc k) i n v h b p =
    let more = below_last i n v (omega arith) b p in
    let less : leb v (2 ^ i) ≡ false = ground arith in
    rw less (first_power-none k (i + 1) n v (omega arith) b p)

next_power-bits :
    (width n v : ℕ) → 0 < v → HasBits n (v - 1) → n ≤ width → next_power width v ≡ 2 ^ n % 2 ^ width
unfolding next_power
next_power-bits width n v p b h =
    let some_v : (v == 0) ≡ false = ground arith in
    elim (Bool-cases (leb width n)) [
      | inl full ↦
          let same : n ≡ width = ground arith in
          let gone : 2 ^ n % 2 ^ width ≡ 0 =
            ap (λ j. 2 ^ j % 2 ^ width) same ∙ mod_self (2 ^ width) in
          rw (some_v, gone) (first_power-none width 0 n v (omega arith) b p)
      | inr less ↦
          let next : 2 ^ suc n ≤ 2 ^ width = pow-le-pow_right (omega arith) (ground arith) in
          let some_power : 1 ≤ 2 ^ n = one-le-pow n 2 (omega arith) in
          let small : 2 ^ n < 2 ^ width = omega (arith, pow-suc 2 n) in
          rw (some_v, mod-eq_of_lt small)
            (first_power-found width 0 n v (omega arith) (ground arith) b p)
    ]

-- The lines between the decrement and the increment set every bit below the highest.
smears32 :
    (n x : ℕ) → n ≤ 32 → HasBits n x → smear (smear (smear (smear (smear x 0) 1) 2) 3) 4 + 1 ≡ 2 ^ n
smears32 n x h b = all_set n 32 _ h (
    smear-IsSmeared n 4 _ (
      smear-IsSmeared n 3 _ (
        smear-IsSmeared n 2 _
          (smear-IsSmeared n 1 _ (smear-IsSmeared n 0 x (HasBits-IsSmeared n x b))))))

smears64 :
    (n x : ℕ)
    → n ≤ 64
    → HasBits n x
    → smear (smear (smear (smear (smear (smear x 0) 1) 2) 3) 4) 5 + 1 ≡ 2 ^ n
smears64 n x h b = all_set n 64 _ h (
    smear-IsSmeared n 5 _ (
      smear-IsSmeared n 4 _ (
        smear-IsSmeared n 3 _ (
          smear-IsSmeared n 2 _
            (smear-IsSmeared n 1 _ (smear-IsSmeared n 0 x (HasBits-IsSmeared n x b)))))))

-- `next32Pow2` is the least power of two that is not below its argument; of 0, and where that would
-- be 2 ^ 32, it is 0.
pub next32_pow2-next_power : (v : ℕ) → v < 2 ^ 32 → next32_pow2 v ≡ next_power 32 v
unfolding next32_pow2 next_power
next32_pow2-next_power zero h = refl
next32_pow2-next_power (suc v) h =
    let (n, b) = bits_fuel v v (omega arith) in
    let fits = HasBits-le n v 32 b (omega arith) in
    let before : u32 (suc v + 2 ^ 32 - 1) ≡ v = omega arith in
    let same : suc v - 1 ≡ v = omega arith in
    let power = next_power-bits 32 n (suc v) (omega arith) (rw same b) fits in
    rw before (ap u32 (smears32 n v fits b) ∙ sym power)

-- The same with 64 bits.
pub next64_pow2-next_power : (v : ℕ) → v < 2 ^ 64 → next64_pow2 v ≡ next_power 64 v
unfolding next64_pow2 next_power
next64_pow2-next_power zero h = refl
next64_pow2-next_power (suc v) h =
    let (n, b) = bits_fuel v v (omega arith) in
    let fits = HasBits-le n v 64 b (omega arith) in
    let before : u64 (suc v + 2 ^ 64 - 1) ≡ v = omega arith in
    let same : suc v - 1 ≡ v = omega arith in
    let power = next_power-bits 64 n (suc v) (omega arith) (rw same b) fits in
    rw before (ap u64 (smears64 n v fits b) ∙ sym power)
