-- ===== src/Util/ByteBuffer.antt =====
-- src/util/ByteBuffer.h and ByteBuffer.cpp. The class holds one vector of bytes, which is a list
-- of numbers below 256. A failed assertion and an access out of range are `none`. A buffer is
-- shorter than 2 ^ 63, so that an index plus the size does not wrap.
pub mod Integers
pub mod Slices
pub mod Memory
use cs_network_proj.Base.{
  ℕ, ◌+◌, ◌-◌, ◌*◌, Bool, true, false, ◌&&◌, Option, none, some, List, [], ◌∷◌, ◌++◌, length,
  get_elem?, take, drop, replicate, ltb, leb, ◌==◌, if◌then◌else◌, bit_or, u8, ◌<<<◌, ◌>>>◌,
}
use cs_network_proj.Base.Int.{ℤ, pos, negsuc, sub_ℕ}

abbrev pub Byte : Type 0
Byte = ℕ

abbrev pub ByteBuffer : Type 0
ByteBuffer = List Byte

abbrev pub str : List ℕ → ByteBuffer
str s = s

abbrev pub size : ByteBuffer → ℕ
size = length

-- A byte, and a block of memory, at either end.
abbrev pub push_back : ByteBuffer → Byte → ByteBuffer
push_back b byte = b ++ byte ∷ []

unfoldable pub push_back_data : ByteBuffer → List Byte → ByteBuffer
push_back_data b block = b ++ block

unfoldable pub push_front : ByteBuffer → Byte → ByteBuffer
push_front b byte = byte ∷ b

unfoldable pub push_front_data : ByteBuffer → List Byte → ByteBuffer
push_front_data b block = block ++ b

unfoldable pub concat : ByteBuffer → ByteBuffer → ByteBuffer
concat a b = a ++ b

unfoldable pub eq : ByteBuffer → ByteBuffer → Bool
eq [] [] = true
eq (x ∷ xs) (y ∷ ys) = (x == y) && eq xs ys
eq _ _ = false

-- A negative index counts from the end.
abbrev pub resolve : ℤ → ℕ → ℤ
resolve (pos n) n_bytes = pos n
resolve (negsuc n) n_bytes = sub_ℕ n_bytes (n + 1)

-- The element at a resolved index, where the assertion holds.
abbrev pub checked_at : ByteBuffer → ℤ → Option Byte
checked_at b (pos n) = get_elem? b n
checked_at b (negsuc n) = none

unfoldable pub index : ByteBuffer → ℤ → Option Byte
index b ind = checked_at b (resolve ind (size b))

-- The copy between two resolved indices. A range that runs backwards passes both assertions of
-- the code, and makes a vector from iterators in the wrong order, which is undefined.
abbrev pub checked_slice : ByteBuffer → ℤ → ℤ → Option ByteBuffer
checked_slice b (pos start) (pos end) =
    if ltb start (size b) && (ltb 0 end && leb end (size b))
    then (if leb start end then some (take (end - start) (drop start b)) else none)
    else none
checked_slice b (pos start) (negsuc end) = none
checked_slice b (negsuc start) end = none

unfoldable pub slice : ByteBuffer → ℤ → ℤ → Option ByteBuffer
slice b start end = checked_slice b (resolve start (size b)) (resolve end (size b))

unfoldable pub slice_from : ByteBuffer → ℤ → Option ByteBuffer
unfolding slice
slice_from b start = slice b start (pos (size b))

-- Byte `i` of an integer in memory, lowest first.
abbrev pub byte_of : ℕ → ℕ → Byte
byte_of v i = u8 (v >>> (8 * i))

unfoldable pub write_ushort : ByteBuffer → ℕ → ByteBuffer
write_ushort b v = push_back (push_back b (byte_of v 1)) (byte_of v 0)

unfoldable pub write_uint : ByteBuffer → ℕ → ByteBuffer
write_uint b v =
    push_back (push_back (push_back (push_back b (byte_of v 3)) (byte_of v 2)) (byte_of v 1))
      (byte_of v 0)

unfoldable pub write_ulong : ByteBuffer → ℕ → ByteBuffer
unfolding write_uint
write_ulong b v =
    push_back
      (push_back
        (push_back
          (push_back
            (push_back
              (push_back (push_back (push_back b (byte_of v 7)) (byte_of v 6)) (byte_of v 5))
              (byte_of v 4))
            (byte_of v 3))
          (byte_of v 2))
        (byte_of v 1))
      (byte_of v 0)

abbrev or_uint : Byte → Byte → Byte → Byte → ℕ
or_uint b3 b2 b1 b0 = bit_or (bit_or (bit_or (bit_or 0 (b3 <<< 24)) (b2 <<< 16)) (b1 <<< 8)) b0

infixl 5 ◌>>=◌
abbrev pub ◌>>=◌ : {A B : Type 0} → Option A → (A → Option B) → Option B
none >>= f = none
some a >>= f = f a

unfoldable pub read_uint : ByteBuffer → ℕ → Option ℕ
read_uint b at = do
  b3 ← get_elem? b at
  b2 ← get_elem? b (at + 1)
  b1 ← get_elem? b (at + 2)
  b0 ← get_elem? b (at + 3)
  some (or_uint b3 b2 b1 b0)

unfoldable pub allocate : ByteBuffer → ℕ → ByteBuffer
allocate b n = replicate n 0

unfoldable pub clear : ByteBuffer → ByteBuffer
clear b = []
