-- ===== src/Util/IntUtil/Smears.antt =====
-- What one line `v |= v >> a` does to a number whose highest `a` bits are set.
use native.Mathlib.Nat.{
  add-mul, mul_comm, div-eq_of_lt, pow-suc, pow-le-pow_right, one-le-pow, div-lt_iff_lt-mul,
  le-div_iff_mul-le,
}
use cs_network_proj.Base.{
  ℕ, zero, suc, ◌+◌, ◌-◌, ◌*◌, ◌/◌, ◌^◌, ◌≤◌, ◌<◌, ◌≡◌, sym, ap, ◌∙◌, inl, inr, arith, leb,
  Bool-cases, bit_or, bit_or_step, double_shift, bit_or-zero,
}
use cs_network_proj.Util.IntUtil.{smear}

half : (q k r : ℕ) → (q * 2 ^ suc k + r) / 2 ≡ q * 2 ^ k + r / 2
half q k r = omega (arith, double_shift q k)

-- The lower field of the left operand joins the right one.
bit_or_fields :
    (k q r s : ℕ) → r < 2 ^ k → s < 2 ^ k → bit_or (q * 2 ^ k + r) s ≡ q * 2 ^ k + bit_or r s
bit_or_fields zero q r s h l =
    ground (arith, bit_or-zero q, bit_or-zero (q * 2 ^ 0 + r), bit_or-zero 0)
bit_or_fields (suc k) q r s h l = omega (
  arith,
  bit_or_step (q * 2 ^ suc k + r) s,
  bit_or_step r s,
  double_shift q k,
  pow-suc 2 k,
  ap (λ x. bit_or x (s / 2)) (half q k r),
  bit_or_fields k q (r / 2) (s / 2) (omega (arith, pow-suc 2 k)) (omega (arith, pow-suc 2 k)),
)

bit_or-lt : (k r s : ℕ) → r < 2 ^ k → s < 2 ^ k → bit_or r s < 2 ^ k
bit_or-lt zero r s h l =
    let none_set : s ≡ 0 = omega arith in rw none_set (omega (arith, bit_or-zero r))
bit_or-lt (suc k) r s h l = omega (
  arith,
  bit_or_step r s,
  pow-suc 2 k,
  bit_or-lt k (r / 2) (s / 2) (omega (arith, pow-suc 2 k)) (omega (arith, pow-suc 2 k)),
)

le-bit_or_fuel : (n r s : ℕ) → s ≤ n → s ≤ bit_or r s
le-bit_or_fuel zero r s h = omega arith
le-bit_or_fuel (suc n) r zero h = omega arith
le-bit_or_fuel (suc n) r (suc s) h =
    omega (arith, bit_or_step r (suc s), le-bit_or_fuel n (r / 2) (suc s / 2) (omega arith))

le-bit_or : (r s : ℕ) → s ≤ bit_or r s
le-bit_or r s = le-bit_or_fuel s r s (omega arith)

pow_add : (m n : ℕ) → 2 ^ (m + n) ≡ 2 ^ m * 2 ^ n
pow_add m zero = let same : m + 0 ≡ m = omega arith in omega (arith, ap (λ k. 2 ^ k) same)
pow_add m (suc n) =
    omega (arith, ap (λ k. 2 ^ k) (sum m n), pow-suc 2 (m + n), double_shift (2 ^ m) n, pow_add m n)
  where
    sum : (m n : ℕ) → m + suc n ≡ suc (m + n)
    sum m n = omega arith

-- The highest `a` of `n` bits are set.
abbrev pub IsSmeared : ℕ → ℕ → ℕ → Type 0
IsSmeared n a x = (x < 2 ^ n) × (2 ^ n ≤ x + 2 ^ (n - a))

-- The fields of a number, of which the higher is all ones.
field_lem :
    (j q x y : ℕ)
    → q * 2 ^ j ≤ x
    → x < q * 2 ^ j + 2 ^ j
    → y < 2 ^ j
    → (bit_or x y < q * 2 ^ j + 2 ^ j) × (q * 2 ^ j + y ≤ bit_or x y)
field_lem j q x y low high h =
    let r = x - q * 2 ^ j in
    let split : q * 2 ^ j + r ≡ x = omega arith in
    let joined = ap (λ t. bit_or t y) (sym split) ∙ bit_or_fields j q r y (omega arith) h in
    (omega (arith, bit_or-lt j r y (omega arith) h), omega (arith, le-bit_or r y))

-- A line, where the division leaves `M - N` at least.
smear_lem :
    (n a x N : ℕ)
    → a ≤ n
    → IsSmeared n a x
    → 2 ^ (n - a) ≤ x / 2 ^ a + N
    → (bit_or x (x / 2 ^ a) < 2 ^ n) × (2 ^ n ≤ bit_or x (x / 2 ^ a) + N)
smear_lem n a x N fits (small, ones) enough =
    let A = 2 ^ a in
    let M = 2 ^ (n - a) in
    let split : a + (n - a) ≡ n = omega arith in
    let whole : 2 ^ n ≡ A * M = ap (λ k. 2 ^ k) (sym split) ∙ pow_add a (n - a) in
    let positive : 1 ≤ A = one-le-pow a 2 (omega arith) in
    let last : A - 1 + 1 ≡ A = omega arith in
    let parts : (A - 1) * M + M ≡ A * M =
      omega (arith, add-mul (A - 1) 1 M, ap (λ t. t * M) last) in
    let below : x / A < M =
      (div-lt_iff_lt-mul {k = A} {x = x} {y = M} positive).1 (omega (arith, mul_comm A M)) in
    let (upper, lower) = field_lem (n - a) (A - 1) x (x / A) (omega arith) (omega arith) below in
    (omega arith, omega arith)

-- There are more bits than are set, of which as many again are set.
smear-many : (n a x : ℕ) → a + a ≤ n → IsSmeared n a x → IsSmeared n (a + a) (bit_or x (x / 2 ^ a))
smear-many n a x fits (small, ones) =
    let A = 2 ^ a in
    let M = 2 ^ (n - a) in
    let N = 2 ^ (n - (a + a)) in
    let split : a + (n - a) ≡ n = omega arith in
    let split' : a + (n - (a + a)) ≡ n - a = omega arith in
    let whole : 2 ^ n ≡ A * M = ap (λ k. 2 ^ k) (sym split) ∙ pow_add a (n - a) in
    let half_of : M ≡ A * N = ap (λ k. 2 ^ k) (sym split') ∙ pow_add a (n - (a + a)) in
    let positive : 1 ≤ A = one-le-pow a 2 (omega arith) in
    let less : N ≤ M = pow-le-pow_right (omega arith) (omega arith) in
    let rest : M - N + N ≡ M = omega arith in
    let product : (M - N) * A + N * A ≡ M * A = sym (add-mul (M - N) N A) ∙ ap (λ t. t * A) rest in
    let enough : M - N ≤ x / A =
      (le-div_iff_mul-le {k = A} {x = M - N} {y = x} positive).1
        (omega (arith, mul_comm A M, mul_comm A N)) in
    smear_lem n a x N (omega arith) (small, ones) (omega arith)

-- There are not, and then all are.
smear-few :
    (n a x : ℕ) → a ≤ n → n < a + a → IsSmeared n a x → IsSmeared n (a + a) (bit_or x (x / 2 ^ a))
smear-few n a x fits few (small, ones) =
    let A = 2 ^ a in
    let M = 2 ^ (n - a) in
    let split : a + (n - a) ≡ n = omega arith in
    let whole : 2 ^ n ≡ A * M = ap (λ k. 2 ^ k) (sym split) ∙ pow_add a (n - a) in
    let positive : 1 ≤ A = one-le-pow a 2 (omega arith) in
    let some_left : 1 ≤ M = one-le-pow (n - a) 2 (omega arith) in
    let less : M ≤ A = pow-le-pow_right (omega arith) (omega arith) in
    let rest : M - 1 + 1 ≡ M = omega arith in
    let product : (M - 1) * A + 1 * A ≡ M * A = sym (add-mul (M - 1) 1 A) ∙ ap (λ t. t * A) rest in
    let enough : M - 1 ≤ x / A =
      (le-div_iff_mul-le {k = A} {x = M - 1} {y = x} positive).1 (omega (arith, mul_comm A M)) in
    let none_left : n - (a + a) ≡ 0 = omega arith in
    rw none_left (smear_lem n a x 1 fits (small, ones) (omega arith))

smear-done : (n a x : ℕ) → n < a → IsSmeared n a x → IsSmeared n (a + a) (bit_or x (x / 2 ^ a))
smear-done n a x few (small, ones) =
    let less : 2 ^ n ≤ 2 ^ a = pow-le-pow_right (omega arith) (omega arith) in
    let nothing : x / 2 ^ a ≡ 0 = div-eq_of_lt (omega arith) in
    let none_left : n - (a + a) ≡ n - a = omega arith in
    rw (nothing, bit_or-zero x, none_left) (small, ones)

-- A line sets twice as many bits.
pub smear-IsSmeared : (n k x : ℕ) → IsSmeared n (2 ^ k) x → IsSmeared n (2 ^ suc k) (smear x k)
unfolding smear
smear-IsSmeared n k x h =
    let a = 2 ^ k in
    let twice : 2 ^ suc k ≡ a + a = omega (arith, pow-suc 2 k) in
    rw twice (elim (Bool-cases (leb (a + a) n)) [
      | inl many ↦ smear-many n a x (ground arith) h
      | inr few ↦ elim (Bool-cases (leb a n)) [
        | inl fits ↦ smear-few n a x (ground arith) (ground arith) h
        | inr done ↦ smear-done n a x (ground arith) h
      ]
    ])
