-- ===== src/Util/ByteBuffer/Memory.antt =====
-- Integers in the memory of the machine that the program runs on, lowest byte first.
use cs_network_proj.Base.{
  ℕ, zero, suc, ◌+◌, ◌*◌, ◌^◌, ◌<◌, ◌≡◌, refl, ap, Option, none, some, [], ◌∷◌, ◌++◌, arith, length,
  get_elem?,
}
use cs_network_proj.Util.ByteBuffer.Integers.{get_elem?-append_length}
use cs_network_proj.Util.ByteBuffer.{ByteBuffer, byte_of}

-- So many bytes of memory from a place on, as a number; none if they are not all there.
unfoldable pub load_ulong : ByteBuffer → ℕ → ℕ → Option ℕ
load_ulong memory at zero = some 0
load_ulong memory at (suc n) = elim (get_elem? memory at) [
  | none ↦ none
  | some b ↦ elim (load_ulong memory (at + 1) n) [ none ↦ none | some v ↦ some (b + 256 * v) ]
]

-- The eight bytes of a number.
unfoldable pub store_ulong : ℕ → ByteBuffer
store_ulong v =
    byte_of v 0
    ∷ byte_of v 1
    ∷ byte_of v 2
    ∷ byte_of v 3
    ∷ byte_of v 4
    ∷ byte_of v 5
    ∷ byte_of v 6
    ∷ byte_of v 7
    ∷ []

-- The four bytes of a number.
unfoldable pub store_uint : ℕ → ByteBuffer
store_uint v = byte_of v 0 ∷ byte_of v 1 ∷ byte_of v 2 ∷ byte_of v 3 ∷ []

-- Memory in front moves the place.
pub load_ulong-append :
    (pre rest : ByteBuffer) (at n : ℕ)
    → load_ulong (pre ++ rest) (length pre + at) n ≡ load_ulong rest at n
unfolding load_ulong
load_ulong-append pre rest at zero = refl
load_ulong-append pre rest at (suc n) =
    let next : length pre + at + 1 ≡ length pre + (at + 1) = omega arith in
    ground (
      arith,
      get_elem?-append_length pre rest at,
      ap (λ k. load_ulong (pre ++ rest) k n) next,
      load_ulong-append pre rest (at + 1) n,
    )

-- A number that was stored is loaded, whatever follows it.
pub load_ulong-store_ulong :
    (v : ℕ) (rest : ByteBuffer) → v < 2 ^ 64 → load_ulong (store_ulong v ++ rest) 0 8 ≡ some v
unfolding load_ulong store_ulong
load_ulong-store_ulong v rest h = ap some (omega arith)

pub load_ulong-store_uint :
    (v : ℕ) (rest : ByteBuffer) → v < 2 ^ 32 → load_ulong (store_uint v ++ rest) 0 4 ≡ some v
unfolding load_ulong store_uint
load_ulong-store_uint v rest h = ap some (omega arith)
