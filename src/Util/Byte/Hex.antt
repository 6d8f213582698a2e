-- ===== src/Util/Byte/Hex.antt =====
-- ByteBuffer.cpp: `hex`, which reads numbers off a `std::stringstream`. The stream is as in
-- libstdc++: it skips white space, and takes a sign, the prefix 0x and digits.
pub mod RoundTrip
pub mod Terminates
use cs_network_proj.Base.{
  ℕ, zero, suc, ◌+◌, ◌-◌, ◌*◌, ◌^◌, Bool, true, false, ◌&&◌, ◌||◌, Option, none, some, List, [],
  ◌∷◌, ◌++◌, length, ltb, leb, ◌==◌, if◌then◌else◌, u8, u32,
}
use cs_network_proj.Util.ByteBuffer.{ByteBuffer, push_back}

-- isspace
abbrev pub is_space : ℕ → Bool
is_space c = (c == 32) || (leb 9 c && leb c 13)

unfoldable pub skip_space : List ℕ → List ℕ
skip_space [] = []
skip_space (c ∷ cs) = let rest = skip_space cs in if is_space c then rest else c ∷ cs

-- Whether there is a minus sign, and what follows the sign.
abbrev pub take_sign : List ℕ → Bool × List ℕ
take_sign [] = (false, [])
take_sign (c ∷ cs) =
    if c == 45 then (true, cs) else (if c == 43 then (false, cs) else (false, c ∷ cs))

abbrev pub skip_prefix : List ℕ → List ℕ
skip_prefix [] = []
skip_prefix (c ∷ []) = c ∷ []
skip_prefix (c ∷ d ∷ cs) = if (c == 48) && ((d == 120) || (d == 88)) then cs else c ∷ d ∷ cs

-- The value of a hexadecimal digit.
abbrev pub digit_value : ℕ → Option ℕ
digit_value c =
    if leb 48 c && leb c 57
    then some (c - 48)
    else (if leb 97 c && leb c 102
        then some (c - 87)
        else (if leb 65 c && leb c 70 then some (c - 55) else none))

-- The value of the digits, whether there are any, and what follows them.
unfoldable pub read_digits : ℕ → Bool → List ℕ → ℕ × Bool × List ℕ
read_digits acc found [] = (acc, found, [])
read_digits acc found (c ∷ cs) = elim (digit_value c) [
  | none ↦ (acc, found, c ∷ cs)
  | some d ↦ read_digits (16 * acc + d) true cs
]

-- A number, if it fits 32 bits, with its sign.
abbrev pub checked_uint : Bool → ℕ × Bool × List ℕ → Option (ℕ × List ℕ)
checked_uint minus (v, found, rest) =
    if found && ltb v (2 ^ 32) then some (if minus then u32 (2 ^ 32 - v) else v, rest) else none

-- sstream >> cur, under std::hex
unfoldable pub extract_uint : List ℕ → Option (ℕ × List ℕ)
unfolding skip_space read_digits
extract_uint text =
    let (minus, digits) = take_sign (skip_space text) in
    checked_uint minus (read_digits 0 false (skip_prefix digits))

-- The loop; `none` means that the rounds ran out.
unfoldable pub hex_loop : ℕ → List ℕ → ByteBuffer → Option ByteBuffer
unfolding extract_uint
hex_loop zero text result = none
hex_loop (suc fuel) text result = elim (extract_uint text) [
  | none ↦ some result
  | some p ↦ hex_loop fuel p.1 (push_back result (u8 p.0))
]

unfoldable pub hex : List ℕ → Option ByteBuffer
unfolding hex_loop
hex text = hex_loop (suc (length text)) text []
