-- ===== src/Util/Int/Bytes.antt =====
-- Integers and their bytes are two forms of the same number.
use cs_network_proj.Base.{
  All, subst, ℕ, ◌+◌, ◌*◌, ◌/◌, ◌%◌, ◌^◌, ◌<◌, ◌≡◌, refl, sym, ap, ◌∙◌, List, [], ◌∷◌, arith,
  length, bit_or, zero-bit_or, bit_or_low_high,
}
use cs_network_proj.Util.ByteBuffer.{Byte, byte_of, write_uint, write_ushort}
use cs_network_proj.Util.Int.{
  UInt32, UInt16, assign_uint32, value_uint32, vector_uint32, assign_uint16, value_uint16,
  vector_uint16,
}

-- The bytes of a sum, lowest first, where each has its place.
or_bytes :
    (b3 b2 b1 b0 : Byte)
    → b3 < 256
    → b2 < 256
    → b1 < 256
    → b0 < 256
    → bit_or
        (bit_or (bit_or (bit_or 0 (b0 * 1 % 2 ^ 32)) (b1 * 2 ^ 8 % 2 ^ 32)) (b2 * 2 ^ 16 % 2 ^ 32))
        (b3 * 2 ^ 24 % 2 ^ 32)
      ≡ b3 * 2 ^ 24 + b2 * 2 ^ 16 + b1 * 2 ^ 8 + b0
or_bytes b3 b2 b1 b0 h3 h2 h1 h0 =
    let e0 : b0 * 1 % 2 ^ 32 ≡ b0 = omega arith in
    let e1 : b1 * 2 ^ 8 % 2 ^ 32 ≡ b1 * 2 ^ 8 = omega arith in
    let e2 : b2 * 2 ^ 16 % 2 ^ 32 ≡ b2 * 2 ^ 16 = omega arith in
    let e3 : b3 * 2 ^ 24 % 2 ^ 32 ≡ b3 * 2 ^ 24 = omega arith in
    rw
      (
        e0,
        e1,
        e2,
        e3,
        zero-bit_or,
        bit_or_low_high 8 b1 b0 (omega arith),
        bit_or_low_high 16 b2 (b0 + b1 * 2 ^ 8) (omega arith),
        bit_or_low_high 24 b3 (b0 + b1 * 2 ^ 8 + b2 * 2 ^ 16) (omega arith),
      )
      (omega arith)

assign_uint32_lem :
    (b3 b2 b1 b0 : Byte) (v : ℕ)
    → assign_uint32 (record { bytes = b3 ∷ b2 ∷ b1 ∷ b0 ∷ [] }) v
      ≡ record { bytes = write_uint [] v }
unfolding assign_uint32 write_uint
assign_uint32_lem b3 b2 b1 b0 v =
    let e0 : v / 1 % 256 ≡ v % 256 = omega arith in
    let e2 : v / 2 ^ 8 / 2 ^ 8 % 256 ≡ v / 2 ^ 16 % 256 = omega arith in
    let e3 : v / 2 ^ 8 / 2 ^ 8 / 2 ^ 8 % 256 ≡ v / 2 ^ 24 % 256 = omega arith in
    rw (e0, e2, e3) refl

value_uint32_lem :
    (b3 b2 b1 b0 : Byte)
    → b3 < 256
    → b2 < 256
    → b1 < 256
    → b0 < 256
    → value_uint32 (record { bytes = b3 ∷ b2 ∷ b1 ∷ b0 ∷ [] })
      ≡ b3 * 2 ^ 24 + b2 * 2 ^ 16 + b1 * 2 ^ 8 + b0
unfolding value_uint32
value_uint32_lem b3 b2 b1 b0 h3 h2 h1 h0 = or_bytes b3 b2 b1 b0 h3 h2 h1 h0

-- An array of four bytes, or of two.
four_bytes : (l : List Byte) → length l ≡ 4 → (b3 b2 b1 b0 : Byte) × (l ≡ b3 ∷ b2 ∷ b1 ∷ b0 ∷ [])
four_bytes [] h = absurd (omega arith)
four_bytes (b3 ∷ []) h = absurd (omega arith)
four_bytes (b3 ∷ b2 ∷ []) h = absurd (omega arith)
four_bytes (b3 ∷ b2 ∷ b1 ∷ []) h = absurd (omega arith)
four_bytes (b3 ∷ b2 ∷ b1 ∷ b0 ∷ []) h = (b3, b2, b1, b0, refl)
four_bytes (b3 ∷ b2 ∷ b1 ∷ b0 ∷ x ∷ xs) h = absurd (omega arith)

two_bytes : (l : List Byte) → length l ≡ 2 → (b1 b0 : Byte) × (l ≡ b1 ∷ b0 ∷ [])
two_bytes [] h = absurd (omega arith)
two_bytes (b1 ∷ []) h = absurd (omega arith)
two_bytes (b1 ∷ b0 ∷ []) h = (b1, b0, refl)
two_bytes (b1 ∷ b0 ∷ x ∷ xs) h = absurd (omega arith)

-- A `UInt32` that is given a value holds the bytes that a buffer gets for it, whatever it held.
pub vector_uint32-write_uint :
    (n : UInt32) (v : ℕ) → length n.bytes ≡ 4 → vector_uint32 (assign_uint32 n v) ≡ write_uint [] v
vector_uint32-write_uint n v h =
    let (b3, b2, b1, b0, e) = four_bytes n.bytes h in
    ap (λ (l : List Byte). vector_uint32 (assign_uint32 (record { bytes = l }) v)) e
    ∙ ap vector_uint32 (assign_uint32_lem b3 b2 b1 b0 v)

-- A `UInt32` has the value that it was given.
pub value_uint32-assign_uint32 :
    (n : UInt32) (v : ℕ) → length n.bytes ≡ 4 → v < 2 ^ 32 → value_uint32 (assign_uint32 n v) ≡ v
unfolding write_uint
value_uint32-assign_uint32 n v h k =
    let (b3, b2, b1, b0, e) = four_bytes n.bytes h in
    ap (λ (l : List Byte). value_uint32 (assign_uint32 (record { bytes = l }) v)) e
    ∙ ap value_uint32 (assign_uint32_lem b3 b2 b1 b0 v)
    ∙ value_uint32_lem (byte_of v 3) (byte_of v 2) (byte_of v 1) (byte_of v 0) (omega arith)
        (omega arith) (omega arith) (omega arith)
    ∙ omega arith

-- Its bytes come back when its value is assigned, to any `UInt32`.
pub assign_uint32-value_uint32 :
    (n m : UInt32)
    → length n.bytes ≡ 4
    → length m.bytes ≡ 4
    → All (λ b. b < 256) n.bytes
    → assign_uint32 m (value_uint32 n) ≡ n
unfolding write_uint
assign_uint32-value_uint32 n m h k a =
    let (b3, b2, b1, b0, e) = four_bytes n.bytes h in
    let (h3, (h2, (h1, (h0, _)))) = subst (λ l. All (λ b. b < 256) l) e a in
    let value =
      ap (λ (l : List Byte). value_uint32 (record { bytes = l })) e
      ∙ value_uint32_lem b3 b2 b1 b0 h3 h2 h1 h0 in
    let v = value_uint32 n in
    let e3 : byte_of v 3 ≡ b3 = omega arith in
    let e2 : byte_of v 2 ≡ b2 = omega arith in
    let e1 : byte_of v 1 ≡ b1 = omega arith in
    let e0 : byte_of v 0 ≡ b0 = omega arith in
    ap (λ (l : List Byte). record { bytes = l })
      (vector_uint32-write_uint m v k ∙ rw (e3, e2, e1, e0) (sym e))

assign_uint16_lem :
    (b1 b0 : Byte) (v : ℕ)
    → assign_uint16 (record { bytes = b1 ∷ b0 ∷ [] }) v ≡ record { bytes = write_ushort [] v }
unfolding assign_uint16 write_ushort
assign_uint16_lem b1 b0 v = let e0 : v / 1 % 256 ≡ v % 256 = omega arith in rw e0 refl

value_uint16_lem :
    (b1 b0 : Byte)
    → b1 < 256
    → b0 < 256
    → value_uint16 (record { bytes = b1 ∷ b0 ∷ [] }) ≡ b1 * 2 ^ 8 + b0
unfolding value_uint16
value_uint16_lem b1 b0 h1 h0 =
    let e0 : b0 * 1 % 2 ^ 16 ≡ b0 = omega arith in
    let e1 : b1 * 2 ^ 8 % 2 ^ 16 ≡ b1 * 2 ^ 8 = omega arith in
    rw (e0, e1, zero-bit_or, bit_or_low_high 8 b1 b0 (omega arith)) (omega arith)

-- A `UInt16` that is given a value holds the bytes that a buffer gets for it, and has that value.
pub value_uint16-assign_uint16 :
    (n : UInt16) (v : ℕ)
    → length n.bytes ≡ 2
    → v < 2 ^ 16
    → (vector_uint16 (assign_uint16 n v) ≡ write_ushort [] v)
      × (value_uint16 (assign_uint16 n v) ≡ v)
unfolding write_ushort
value_uint16-assign_uint16 n v h k =
    let (b1, b0, e) = two_bytes n.bytes h in
    let assigned =
      ap (λ (l : List Byte). assign_uint16 (record { bytes = l }) v) e
      ∙ assign_uint16_lem b1 b0 v in
    (
      ap vector_uint16 assigned,
      ap value_uint16 assigned
          ∙ value_uint16_lem (byte_of v 1) (byte_of v 0) (omega arith) (omega arith)
          ∙ omega arith,
    )
