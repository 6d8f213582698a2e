-- ===== src/Util/Byte/Hex/RoundTrip.antt =====
-- `hex` reads what `operator<<` prints of a buffer.
use cs_network_proj.Base.{
  ℕ, zero, suc, ◌+◌, ◌*◌, ◌/◌, ◌%◌, ◌^◌, ◌≤◌, ◌<◌, ◌≡◌, refl, ap, ◌∙◌, inl, inr, Bool, true, false,
  Option, none, some, List, [], ◌∷◌, ◌++◌, arith, length, All, codes, u8, ◌==◌, ◌||◌, append_assoc,
  append-nil, Bool-cases, ltb,
}
use cs_network_proj.Util.ByteBuffer.{Byte, ByteBuffer}
use cs_network_proj.Util.Byte.{hex_digit, to_hex_string, show_rest, show_buffer}
use cs_network_proj.Util.Byte.Hex.{
  is_space, skip_space, take_sign, skip_prefix, digit_value, read_digits, checked_uint,
  extract_uint, hex_loop, hex,
}

-- What is tested of a digit that was printed.
record IsDigit (c d : ℕ) : Type 0 where
  value : digit_value c ≡ some d
  no_space : is_space c ≡ false
  no_minus : (c == 45) ≡ false
  no_plus : (c == 43) ≡ false
  no_prefix : ((c == 120) || (c == 88)) ≡ false

hex_digit-IsDigit : (d : ℕ) → d < 16 → IsDigit (hex_digit d) d
hex_digit-IsDigit d h = record {
  value = ground arith;
  no_space = ground arith;
  no_minus = ground arith;
  no_plus = ground arith;
  no_prefix = ground arith;
}

-- No digit follows.
abbrev Stops : List ℕ → Type 0
Stops [] = Unit
Stops (c ∷ cs) = digit_value c ≡ none

read_digits-Stops :
    (acc : ℕ) (rest : List ℕ) → Stops rest → read_digits acc true rest ≡ (acc, true, rest)
unfolding read_digits
read_digits-Stops acc [] h = refl
read_digits-Stops acc (c ∷ cs) h = rw (read_digits, h) refl

read_digits-digit :
    (acc c d : ℕ) (found : Bool) (cs : List ℕ)
    → digit_value c ≡ some d
    → read_digits acc found (c ∷ cs) ≡ read_digits (16 * acc + d) true cs
unfolding read_digits
read_digits-digit acc c d found cs h = rw (read_digits, h) refl

skip_space-digit : (c : ℕ) (cs : List ℕ) → is_space c ≡ false → skip_space (c ∷ cs) ≡ c ∷ cs
unfolding skip_space
skip_space-digit c cs h = rw h refl

skip_prefix-digit :
    (a b : ℕ) (cs : List ℕ)
    → ((b == 120) || (b == 88)) ≡ false
    → skip_prefix (a ∷ b ∷ cs) ≡ a ∷ b ∷ cs
skip_prefix-digit a b cs h = elim (Bool-cases (a == 48)) [
  | inl e ↦ rw (e, h) refl
  | inr e ↦ rw e refl
]

-- A byte in two digits, before a character that is no digit or at the end.
extract_uint-byte :
    (v : Byte) (rest : List ℕ)
    → v < 256
    → Stops rest
    → extract_uint (to_hex_string v ++ rest) ≡ some (v, rest)
unfolding extract_uint to_hex_string
extract_uint-byte v rest h stops =
    let a = hex_digit (v / 16) in
    let b = hex_digit (v % 16) in
    let text : List ℕ = a ∷ b ∷ rest in
    let p = hex_digit-IsDigit (v / 16) (omega arith) in
    let q = hex_digit-IsDigit (v % 16) (omega arith) in
    let sign : take_sign text ≡ (false, text) = rw (p.no_minus, p.no_plus) refl in
    let value : 16 * (16 * 0 + v / 16) + v % 16 ≡ v = omega arith in
    let digits : read_digits 0 false text ≡ (v, true, rest) =
      read_digits-digit 0 a (v / 16) false (b ∷ rest) p.value
      ∙ read_digits-digit (16 * 0 + v / 16) b (v % 16) true rest q.value
      ∙ read_digits-Stops _ rest stops
      ∙ ap (λ n. (n, true, rest)) value in
    let number : Bool × List ℕ → Option (ℕ × List ℕ) =
      λ s. checked_uint s.0 (read_digits 0 false (skip_prefix s.1)) in
    let small : ltb v (2 ^ 32) ≡ true = ground arith in
    ap (λ t. number (take_sign t)) (skip_space-digit a (b ∷ rest) p.no_space)
    ∙ ap number sign
    ∙ ap (λ t. checked_uint false (read_digits 0 false t)) (skip_prefix-digit a b rest q.no_prefix)
    ∙ ap (checked_uint false) digits
    ∙ rw small refl

extract_uint-space : (text : List ℕ) → extract_uint (codes " " ++ text) ≡ extract_uint text
unfolding extract_uint skip_space
extract_uint-space text = refl

show_rest-Stops : (bs : ByteBuffer) → Stops (show_rest bs)
unfolding show_rest
show_rest-Stops [] = tt
show_rest-Stops (b ∷ bs) = refl

-- One round, and the rounds for the rest of the text.
hex_loop-byte :
    (fuel : ℕ) (b : Byte) (text rest : List ℕ) (result : ByteBuffer)
    → b < 256
    → extract_uint text ≡ some (b, rest)
    → hex_loop (suc fuel) text result ≡ hex_loop fuel rest (result ++ b ∷ [])
unfolding hex_loop
hex_loop-byte fuel b text rest result h e =
    let same : u8 b ≡ b = omega arith in rw (hex_loop, e, same) refl

hex_loop-nil :
    (fuel : ℕ) (result : ByteBuffer) → hex_loop (suc fuel) [] result ≡ some (result ++ [])
unfolding hex_loop
hex_loop-nil fuel result = rw (append-nil result) refl

hex_loop-show_rest :
    (fuel : ℕ) (bs result : ByteBuffer)
    → All (λ v. v < 256) bs
    → length bs < fuel
    → hex_loop fuel (show_rest bs) result ≡ some (result ++ bs)
unfolding show_rest
hex_loop-show_rest zero bs result h k = absurd (omega arith)
hex_loop-show_rest (suc fuel) [] result h k = hex_loop-nil fuel result
hex_loop-show_rest (suc fuel) (b ∷ bs) result (h, hs) k =
    hex_loop-byte fuel b (show_rest (b ∷ bs)) (show_rest bs) result h (
      extract_uint-space (to_hex_string b ++ show_rest bs)
      ∙ extract_uint-byte b (show_rest bs) h (show_rest-Stops bs))
    ∙ hex_loop-show_rest fuel bs (result ++ b ∷ []) hs (omega arith)
    ∙ ap some (append_assoc result (b ∷ []) bs)

length-show_rest : (bs : ByteBuffer) → length bs ≤ length (show_rest bs)
unfolding show_rest to_hex_string
length-show_rest [] = omega arith
length-show_rest (b ∷ bs) = omega (arith, length-show_rest bs)

-- What is printed of a buffer of bytes is read back as the buffer.
pub hex-show_buffer : (b : ByteBuffer) → All (λ v. v < 256) b → hex (show_buffer b) ≡ some b
unfolding hex show_buffer to_hex_string
hex-show_buffer [] h = refl
hex-show_buffer (b ∷ bs) (h, hs) =
    let fuel = length (to_hex_string b ++ show_rest bs) in
    hex_loop-byte fuel b (to_hex_string b ++ show_rest bs) (show_rest bs) [] h
      (extract_uint-byte b (show_rest bs) h (show_rest-Stops bs))
    ∙ hex_loop-show_rest fuel bs (b ∷ []) hs (omega (arith, length-show_rest bs))
