-- ===== src/Util/Int.antt =====
-- src/util/Int.h and Int.cpp: integers as bytes, highest first. The array `bytes` of a class is a
-- list of `width` bytes, 4 of them for UInt32 and 2 for UInt16.
pub mod Bytes
use cs_network_proj.Base.{
  ℕ, zero, suc, ◌+◌, ◌-◌, ◌*◌, ◌^◌, ◌%◌, Option, none, some, List, [], ◌∷◌, replicate, get_or,
  bit_or, u8, u16, u32, ◌<<<◌, ◌>>>◌,
}
use cs_network_proj.Util.ByteBuffer.{Byte}

-- bytes[i] = b
unfoldable pub set_elem : List Byte → ℕ → Byte → List Byte
set_elem [] i b = []
set_elem (x ∷ xs) zero b = b ∷ xs
set_elem (x ∷ xs) (suc i) b = x ∷ set_elem xs i b

-- The rounds from `i` on of the loop in `uintToBytes`.
unfoldable pub to_bytes_loop : ℕ → ℕ → ℕ → ℕ → List Byte → List Byte
unfolding set_elem
to_bytes_loop zero last i v bytes = bytes
to_bytes_loop (suc rounds) last i v bytes =
    to_bytes_loop rounds last (i + 1) (v >>> 8) (set_elem bytes (last - i) (u8 v))

-- The rounds from `i` on of the loop in `byteToUint`, for an integer of `width` bits.
unfoldable pub to_uint_loop : ℕ → ℕ → ℕ → ℕ → List Byte → ℕ → ℕ
to_uint_loop zero width last i bytes ret = ret
to_uint_loop (suc rounds) width last i bytes ret =
    to_uint_loop rounds width last (i + 1) bytes
      (bit_or ret ((get_or bytes (last - i) 0 <<< (8 * i)) % 2 ^ width))

pub record UInt32 : Type 0 where
  pub bytes : List Byte

unfoldable pub uint32_to_bytes : ℕ → List Byte → List Byte
unfolding to_bytes_loop
uint32_to_bytes v bytes = to_bytes_loop 4 3 0 v bytes

unfoldable pub byte_to_uint32 : List Byte → ℕ
unfolding to_uint_loop
byte_to_uint32 bytes = to_uint_loop 4 32 3 0 bytes 0

abbrev pub zero_uint32 : UInt32
zero_uint32 = record { bytes = 0 ∷ 0 ∷ 0 ∷ 0 ∷ [] }

unfoldable pub assign_uint32 : UInt32 → ℕ → UInt32
unfolding uint32_to_bytes
assign_uint32 n v = record { bytes = uint32_to_bytes v n.bytes }

unfoldable pub value_uint32 : UInt32 → ℕ
unfolding byte_to_uint32
value_uint32 n = byte_to_uint32 n.bytes

abbrev pub vector_uint32 : UInt32 → List Byte
vector_uint32 n = n.bytes

pub record UInt16 : Type 0 where
  pub bytes : List Byte

unfoldable pub uint16_to_bytes : ℕ → List Byte → List Byte
unfolding to_bytes_loop
uint16_to_bytes v bytes = to_bytes_loop 2 1 0 v bytes

unfoldable pub byte_to_uint16 : List Byte → ℕ
unfolding to_uint_loop
byte_to_uint16 bytes = to_uint_loop 2 16 1 0 bytes 0

abbrev pub zero_uint16 : UInt16
zero_uint16 = record { bytes = 0 ∷ 0 ∷ [] }

unfoldable pub assign_uint16 : UInt16 → ℕ → UInt16
unfolding uint16_to_bytes
assign_uint16 n v = record { bytes = uint16_to_bytes v n.bytes }

unfoldable pub value_uint16 : UInt16 → ℕ
unfolding byte_to_uint16
value_uint16 n = byte_to_uint16 n.bytes

abbrev pub vector_uint16 : UInt16 → List Byte
vector_uint16 n = n.bytes
