-- ===== src/Util/Byte/Texts.antt =====
-- The texts of bytes say what the bytes are.
use cs_network_proj.Base.{
  ℕ, suc, ◌+◌, ◌-◌, ◌*◌, ◌/◌, ◌%◌, ◌<◌, ◌≡◌, refl, ap, ap₂, ◌∙◌, inl, inr, Bool-cases, List, [],
  ◌∷◌, ◌++◌, arith, All, ltb, ◌==◌, if◌then◌else◌,
}
use cs_network_proj.Util.ByteBuffer.{Byte, ByteBuffer}
use cs_network_proj.Util.Byte.{
  bit_of, show_bit, show_bits, show_byte, hex_digit, to_hex_string, show_rest, show_buffer,
}

-- The value of a text of binary digits, behind a value that was read.
unfoldable pub binary_value : ℕ → List ℕ → ℕ
binary_value acc [] = acc
binary_value acc (c ∷ cs) = binary_value (2 * acc + (c - 48)) cs

-- The value of a hexadecimal digit.
abbrev pub hex_value : ℕ → ℕ
hex_value c = if ltb c 58 then c - 48 else c - 87

-- The bytes of a text of pairs of digits, one character apart.
unfoldable pub hex_bytes : List ℕ → ByteBuffer
hex_bytes [] = []
hex_bytes (a ∷ []) = []
hex_bytes (a ∷ b ∷ []) = (16 * hex_value a + hex_value b) ∷ []
hex_bytes (a ∷ b ∷ c ∷ cs) = (16 * hex_value a + hex_value b) ∷ hex_bytes cs

bit_step :
    (acc b : ℕ) (rest : List ℕ)
    → b < 2
    → binary_value acc (show_bit b ++ rest) ≡ binary_value (2 * acc + b) rest
unfolding binary_value
bit_step acc b rest h = elim (Bool-cases (b == 0)) [
  | inl e ↦
      let same : 2 * acc + 0 ≡ 2 * acc + b = ground arith in
      rw e (ap (λ n. binary_value n rest) same)
  | inr e ↦
      let same : 2 * acc + 1 ≡ 2 * acc + b = ground arith in
      rw e (ap (λ n. binary_value n rest) same)
]

bits_step :
    (acc i : ℕ) (v : Byte)
    → binary_value acc (show_bits (suc i) v) ≡ binary_value (2 * acc + bit_of v i) (show_bits i v)
unfolding show_bits
bits_step acc i v = bit_step acc (bit_of v i) (show_bits i v) (omega arith)

-- The bits of a byte are printed as its binary digits.
pub show_byte-binary_value : (v : Byte) → v < 256 → binary_value 0 (show_byte v) ≡ v
unfolding show_byte binary_value
show_byte-binary_value v h =
    bits_step 0 7 v
    ∙ bits_step _ 6 v
    ∙ bits_step _ 5 v
    ∙ bits_step _ 4 v
    ∙ bits_step _ 3 v
    ∙ bits_step _ 2 v
    ∙ bits_step _ 1 v
    ∙ bits_step _ 0 v
    ∙ omega arith

hex_value-hex_digit : (d : ℕ) → d < 16 → hex_value (hex_digit d) ≡ d
hex_value-hex_digit d h = ground arith

byte_lem :
    (b : ℕ) → b < 256 → 16 * hex_value (hex_digit (b / 16)) + hex_value (hex_digit (b % 16)) ≡ b
byte_lem b h =
    let high = hex_value-hex_digit (b / 16) (omega arith) in
    let low = hex_value-hex_digit (b % 16) (omega arith) in omega arith

-- The printed text of a buffer is read back as the buffer.
pub hex_bytes-show_buffer : (b : ByteBuffer) → All (λ v. v < 256) b → hex_bytes (show_buffer b) ≡ b
unfolding hex_bytes show_buffer show_rest to_hex_string
hex_bytes-show_buffer [] h = refl
hex_bytes-show_buffer (b ∷ []) (h, hs) = ap (λ x. x ∷ []) (byte_lem b h)
hex_bytes-show_buffer (b ∷ c ∷ bs) (h, hs) =
    ap₂ (λ x xs. x ∷ xs) (byte_lem b h) (hex_bytes-show_buffer (c ∷ bs) hs)
