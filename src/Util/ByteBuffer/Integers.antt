-- ===== src/Util/ByteBuffer/Integers.antt =====
-- The integers that a buffer holds, highest byte first.
use cs_network_proj.Base.{
  ℕ, suc, ◌+◌, ◌*◌, ◌^◌, ◌<◌, ◌≡◌, refl, ap, some, [], ◌∷◌, ◌++◌, ◌∙◌, arith, length, get_elem?,
  append_assoc, bit_or-add, zero-bit_or, length-append,
}
use cs_network_proj.Util.ByteBuffer.{Byte, ByteBuffer, byte_of, write_uint, read_uint, or_uint}

or_uint-sum :
    (b3 b2 b1 b0 : Byte)
    → b2 < 256
    → b1 < 256
    → b0 < 256
    → or_uint b3 b2 b1 b0 ≡ b3 * 2 ^ 24 + b2 * 2 ^ 16 + b1 * 2 ^ 8 + b0
or_uint-sum b3 b2 b1 b0 h2 h1 h0 =
    rw
      (
        zero-bit_or,
        bit_or-add 24 b3 (b3 * 2 ^ 24) (b2 * 2 ^ 16) refl (omega arith),
        bit_or-add 16 (b3 * 256 + b2) (b3 * 2 ^ 24 + b2 * 2 ^ 16) (b1 * 2 ^ 8) (omega arith)
            (omega arith),
        bit_or-add 8 (b3 * 65536 + b2 * 256 + b1) (b3 * 2 ^ 24 + b2 * 2 ^ 16 + b1 * 2 ^ 8) b0
            (omega arith) (omega arith),
      )
      refl

pub get_elem?-append_length :
    (pre rest : ByteBuffer) (i : ℕ) → get_elem? (pre ++ rest) (length pre + i) ≡ get_elem? rest i
get_elem?-append_length [] rest i = ap (get_elem? rest) (omega arith)
get_elem?-append_length (x ∷ pre) rest i =
    let e : suc (length pre) + i ≡ suc (length pre + i) = omega arith in
    rw e (get_elem?-append_length pre rest i)

-- Bytes put in front move the place that is read.
pub read_uint-append :
    (pre rest : ByteBuffer) → read_uint (pre ++ rest) (length pre) ≡ read_uint rest 0
unfolding read_uint
read_uint-append pre rest =
    let e : length pre ≡ length pre + 0 = omega arith in
    let e0 : get_elem? (pre ++ rest) (length pre) ≡ get_elem? rest 0 =
      ap (get_elem? (pre ++ rest)) e ∙ get_elem?-append_length pre rest 0 in
    rw
      (
        e0,
        get_elem?-append_length pre rest 1,
        get_elem?-append_length pre rest 2,
        get_elem?-append_length pre rest 3,
      )
      refl

-- Four bytes as they stand in memory.
pub read_uint-bytes :
    (b3 b2 b1 b0 : Byte) (rest : ByteBuffer)
    → b2 < 256
    → b1 < 256
    → b0 < 256
    → read_uint (b3 ∷ b2 ∷ b1 ∷ b0 ∷ rest) 0 ≡ some (b3 * 2 ^ 24 + b2 * 2 ^ 16 + b1 * 2 ^ 8 + b0)
unfolding read_uint
read_uint-bytes b3 b2 b1 b0 rest h2 h1 h0 = ap some (or_uint-sum b3 b2 b1 b0 h2 h1 h0)

pub write_uint-append :
    (pre rest : ByteBuffer) (v : ℕ)
    → write_uint pre v ++ rest ≡ pre ++ byte_of v 3 ∷ byte_of v 2 ∷ byte_of v 1 ∷ byte_of v 0 ∷ rest
unfolding write_uint
write_uint-append pre rest v = simp append_assoc

-- A 32-bit integer that was written at the end of a buffer is read back at that place, whatever
-- follows it.
pub read_uint-write_uint :
    (pre rest : ByteBuffer) (v : ℕ)
    → v < 2 ^ 32
    → read_uint (write_uint pre v ++ rest) (length pre) ≡ some v
read_uint-write_uint pre rest v h = rw write_uint-append (
    read_uint-append pre _
    ∙ read_uint-bytes (byte_of v 3) (byte_of v 2) (byte_of v 1) (byte_of v 0) rest (omega arith)
        (omega arith) (omega arith)
    ∙ ap some (omega arith))

pub length-write_uint : (b : ByteBuffer) (v : ℕ) → length (write_uint b v) ≡ length b + 4
unfolding write_uint
length-write_uint b v = simp append_assoc (omega (arith, length-append {0} b _))
