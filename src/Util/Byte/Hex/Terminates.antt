-- ===== src/Util/Byte/Hex/Terminates.antt =====
-- `hex` ends on every text.
use cs_network_proj.Base.{
  ℕ, zero, suc, ◌+◌, ◌*◌, ◌≤◌, ◌<◌, ◌≡◌, ◌≢◌, refl, inl, inr, Bool, true, false, none, some, List,
  [], ◌∷◌, ◌++◌, arith, length, Option-cases, u8,
}
use cs_network_proj.Util.ByteBuffer.{ByteBuffer}
use cs_network_proj.Util.Byte.Hex.{
  skip_space, take_sign, skip_prefix, digit_value, read_digits, checked_uint, extract_uint,
  hex_loop, hex,
}

skip_space-le : (cs : List ℕ) → length (skip_space cs) ≤ length cs
unfolding skip_space
skip_space-le [] = omega arith
skip_space-le (c ∷ cs) = ground (arith, skip_space-le cs)

take_sign-le : (cs : List ℕ) → length (take_sign cs).1 ≤ length cs
take_sign-le [] = omega arith
take_sign-le (c ∷ cs) = ground arith

skip_prefix-le : (cs : List ℕ) → length (skip_prefix cs) ≤ length cs
skip_prefix-le [] = omega arith
skip_prefix-le (c ∷ []) = omega arith
skip_prefix-le (c ∷ d ∷ cs) = ground arith

read_digits-le :
    (acc : ℕ) (found : Bool) (cs : List ℕ) → length (read_digits acc found cs).2 ≤ length cs
unfolding read_digits
read_digits-le acc found [] = omega arith
read_digits-le acc found (c ∷ cs) = elim (Option-cases (digit_value c)) [
  | inl e ↦ rw (read_digits, e) (omega arith)
  | inr (d, e) ↦ rw (read_digits, e) (omega (arith, read_digits-le (16 * acc + d) true cs))
]

-- Where there are digits, they are taken.
read_digits-lt :
    (acc : ℕ) (cs : List ℕ)
    → (read_digits acc false cs).1 ≡ true
    → length (read_digits acc false cs).2 < length cs
unfolding read_digits
read_digits-lt acc [] = λ h. cc
read_digits-lt acc (c ∷ cs) = elim (Option-cases (digit_value c)) [
  | inl e ↦ rw (read_digits, e) (λ h. cc)
  | inr (d, e) ↦ rw (read_digits, e) (λ h. omega (arith, read_digits-le (16 * acc + d) true cs))
]

checked_uint-lt :
    (minus : Bool) (v : ℕ) (found : Bool) (rest : List ℕ) (n : ℕ) (p : ℕ × List ℕ)
    → (found ≡ true → length rest < n)
    → checked_uint minus (v, found, rest) ≡ some p
    → length p.1 < n
checked_uint-lt minus v false rest n p h e = cc
checked_uint-lt minus v true rest n p h e = ground (arith, h refl)

extract_uint-lt :
    (text : List ℕ) (p : ℕ × List ℕ) → extract_uint text ≡ some p → length p.1 < length text
unfolding extract_uint
extract_uint-lt text p e =
    let spaced = skip_space text in
    let digits = skip_prefix (take_sign spaced).1 in
    let read = read_digits 0 false digits in
    checked_uint-lt (take_sign spaced).0 read.0 read.1 read.2 (length text) p
      (λ h. omega (
        arith,
        read_digits-lt 0 digits h,
        skip_prefix-le (take_sign spaced).1,
        take_sign-le spaced,
        skip_space-le text,
      ))
      e

hex_loop-ne-none :
    (fuel : ℕ) (text : List ℕ) (result : ByteBuffer)
    → length text < fuel
    → hex_loop fuel text result ≢ none
unfolding hex_loop
hex_loop-ne-none zero text result h = absurd (omega arith)
hex_loop-ne-none (suc fuel) text result h = elim (Option-cases (extract_uint text)) [
  | inl e ↦ rw (hex_loop, e) (λ z. cc)
  | inr (p, e) ↦
      rw (hex_loop, e)
        (hex_loop-ne-none fuel p.1 (result ++ u8 p.0 ∷ [])
          (omega (arith, extract_uint-lt text p e)))
]

-- Each round that goes on has taken a digit, and there are enough rounds.
pub hex-ne-none : (text : List ℕ) → hex text ≢ none
unfolding hex
hex-ne-none text = hex_loop-ne-none (suc (length text)) text [] (omega arith)
