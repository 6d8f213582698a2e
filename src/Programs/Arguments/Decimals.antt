-- ===== src/Programs/Arguments/Decimals.antt =====
-- `std::stoi` reads what `std::to_string` prints.
use cs_network_proj.Base.{
  ℕ, zero, suc, ◌+◌, ◌-◌, ◌*◌, ◌/◌, ◌%◌, ◌^◌, ◌<◌, ◌≡◌, refl, sym, ap, ◌∙◌, Bool, true, false,
  Bool-cases, inl, inr, some, List, [], ◌∷◌, ◌++◌, arith, All, ltb, lt→ltb,
}
use cs_network_proj.Base.Int.{pos}
use cs_network_proj.Util.Byte.Hex.{is_space, take_sign, skip_space}
use cs_network_proj.Server.ThreadPool.{decimal}
use cs_network_proj.Programs.Arguments.{is_digit, read_decimal, checked_int, stoi}

abbrev AreDigits : List ℕ → Type 0
AreDigits cs = All (λ c. is_digit c ≡ true) cs

-- The value of digits behind a number.
value : ℕ → List ℕ → ℕ
value acc [] = acc
value acc (c ∷ cs) = value (10 * acc + (c - 48)) cs

value-append :
    (acc : ℕ) (xs : List ℕ) (c : ℕ) → value acc (xs ++ c ∷ []) ≡ 10 * value acc xs + (c - 48)
unfolding value
value-append acc [] c = refl
value-append acc (x ∷ xs) c = value-append (10 * acc + (x - 48)) xs c

AreDigits-append :
    (xs : List ℕ) (c : ℕ) → AreDigits xs → is_digit c ≡ true → AreDigits (xs ++ c ∷ [])
AreDigits-append [] c h k = (k, tt)
AreDigits-append (x ∷ xs) c (h, hs) k = (h, AreDigits-append xs c hs k)

read_decimal-value :
    (acc : ℕ) (cs : List ℕ) → AreDigits cs → read_decimal acc true cs ≡ some (value acc cs)
unfolding read_decimal value
read_decimal-value acc [] h = refl
read_decimal-value acc (c ∷ cs) (h, hs) = rw h (read_decimal-value (10 * acc + (c - 48)) cs hs)

decimal-value : (fuel n : ℕ) → n < fuel → value 0 (decimal fuel n) ≡ n
unfolding decimal value
decimal-value zero n h = absurd (omega arith)
decimal-value (suc fuel) n h = elim (Bool-cases (ltb n 10)) [
  | inl small ↦ rw small (omega arith)
  | inr large ↦ rw large (
      value-append 0 (decimal fuel (n / 10)) (48 + n % 10)
      ∙ omega (arith, decimal-value fuel (n / 10) (ground arith)))
]

-- The first character of a number, and those behind it, are digits.
decimal-AreDigits :
    (fuel n : ℕ)
    → n < fuel
    → (c : ℕ) × (cs : List ℕ) × (decimal fuel n ≡ c ∷ cs) × AreDigits (c ∷ cs)
unfolding decimal
decimal-AreDigits zero n h = absurd (omega arith)
decimal-AreDigits (suc fuel) n h = elim (Bool-cases (ltb n 10)) [
  | inl small ↦ (48 + n, [], rw small refl, (ground arith, tt))
  | inr large ↦
      let (c, cs, e, (d, ds)) = decimal-AreDigits fuel (n / 10) (ground arith) in
      let front : decimal fuel (n / 10) ++ (48 + n % 10) ∷ [] ≡ c ∷ (cs ++ (48 + n % 10) ∷ []) =
        ap (λ xs. xs ++ (48 + n % 10) ∷ []) e in
      (
        c,
        cs ++ (48 + n % 10) ∷ [],
        rw large front,
        (d, AreDigits-append cs (48 + n % 10) ds (ground arith)),
      )
]

-- A text that starts with a digit has no space and no sign before it.
stoi-digits :
    (c : ℕ) (cs : List ℕ)
    → AreDigits (c ∷ cs)
    → value 0 (c ∷ cs) < 2 ^ 31
    → stoi (c ∷ cs) ≡ some (pos (value 0 (c ∷ cs)))
unfolding stoi value skip_space read_decimal
stoi-digits c cs (h, hs) small =
    let solid : is_space c ≡ false = ground arith in
    let no_space : skip_space (c ∷ cs) ≡ c ∷ cs = rw solid refl in
    let no_sign : take_sign (c ∷ cs) ≡ (false, c ∷ cs) = ground arith in
    let number : read_decimal 0 false (c ∷ cs) ≡ some (value 0 (c ∷ cs)) =
      rw h (read_decimal-value (10 * 0 + (c - 48)) cs hs) in
    ap (λ t. checked_int (take_sign t).0 (read_decimal 0 false (take_sign t).1)) no_space
    ∙ ap (λ (r : Bool × List ℕ). checked_int r.0 (read_decimal 0 false r.1)) no_sign
    ∙ ap (checked_int false) number
    ∙ rw (lt→ltb _ _ small) refl

pub stoi-decimal : (fuel n : ℕ) → n < fuel → n < 2 ^ 31 → stoi (decimal fuel n) ≡ some (pos n)
stoi-decimal fuel n h k =
    let (c, cs, e, digits) = decimal-AreDigits fuel n h in
    let same : value 0 (c ∷ cs) ≡ n = ap (value 0) (sym e) ∙ decimal-value fuel n h in
    ap stoi e ∙ stoi-digits c cs digits (omega arith) ∙ ap (λ v. some (pos v)) same
