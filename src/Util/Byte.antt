-- ===== src/Util/Byte.antt =====
-- src/util/Byte.h and Byte.cpp: the bits of a byte and its texts, and the text of a buffer in
-- ByteBuffer.cpp. A text is the list of its characters, which an output stream gets.
pub mod Texts
pub mod Hex
use cs_network_proj.Base.{
  ℕ, zero, suc, ◌+◌, ◌/◌, ◌%◌, ◌^◌, Option, none, some, List, [], ◌∷◌, ◌++◌, codes, ltb, ◌==◌,
  if◌then◌else◌,
}
use cs_network_proj.Base.Int.{ℤ, pos, negsuc}
use cs_network_proj.Util.ByteBuffer.{Byte, ByteBuffer}

abbrev pub bit_of : Byte → ℕ → ℕ
bit_of v i = v / 2 ^ i % 2

-- BitPattern::operator[], which asserts that the index is one of a byte.
unfoldable pub bit_at : Byte → ℤ → Option ℕ
bit_at v (pos i) = if ltb i 8 then some (bit_of v i) else none
bit_at v (negsuc i) = none

-- A bit as a truth value, which is printed as a digit.
abbrev pub show_bit : ℕ → List ℕ
show_bit b = if b == 0 then codes "0" else codes "1"

-- The loop over the bits, from the highest of so many.
unfoldable pub show_bits : ℕ → Byte → List ℕ
show_bits zero v = []
show_bits (suc i) v = show_bit (bit_of v i) ++ show_bits i v

unfoldable pub show_byte : Byte → List ℕ
unfolding show_bits
show_byte v = show_bits 8 v

abbrev pub hex_digit : ℕ → ℕ
hex_digit d = if ltb d 10 then 48 + d else 87 + d

-- LittleEndianByte::toHexString, of two digits.
unfoldable pub to_hex_string : Byte → List ℕ
to_hex_string v = hex_digit (v / 16) ∷ hex_digit (v % 16) ∷ []

-- The bytes with a space before each but the first.
unfoldable pub show_rest : ByteBuffer → List ℕ
unfolding to_hex_string
show_rest [] = []
show_rest (b ∷ bs) = codes " " ++ (to_hex_string b ++ show_rest bs)

unfoldable pub show_buffer : ByteBuffer → List ℕ
unfolding show_rest
show_buffer [] = []
show_buffer (b ∷ bs) = to_hex_string b ++ show_rest bs
