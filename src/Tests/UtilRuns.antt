-- ===== src/Tests/UtilRuns.antt =====
-- Runs of the utilities.
use cs_network_proj.Base.{◌⊎◌, true, ◌+◌, length, ◌≡◌, refl, ◌↔◌, [], ◌∷◌, ◌++◌, some, arith, codes}
use cs_network_proj.Base.Int.{pos, negsuc}
use cs_network_proj.Base.Outcome.{Ensures}
use cs_network_proj.Util.Int.{UInt32}
use cs_network_proj.Util.IntUtil.{next32_pow2, next64_pow2}
use cs_network_proj.Util.IntUtil.NextPower.{next_power, next64_pow2-next_power}
use cs_network_proj.Util.ByteBuffer.{ByteBuffer, read_uint, write_uint, slice, resolve, size}
use cs_network_proj.Util.ByteBuffer.Integers.{read_uint-write_uint}
use cs_network_proj.Util.ByteBuffer.Slices.{IsCut, slice_iff}
use cs_network_proj.Util.StringUtil.{split, ends_with}
use cs_network_proj.Util.StringUtil.Endings.{IsSuffix, ends_with_iff}
use cs_network_proj.Util.StringUtil.Split.{words, split-words}
use cs_network_proj.Util.Rio.{rio_writen}
use cs_network_proj.Util.Rio.Writes.{IsWritten, rio_writen-IsWritten}
use cs_network_proj.Tests.Machine.{machine, start, machine-WritesStream}

abbrev two_bytes : ByteBuffer
two_bytes = 17 ∷ 34 ∷ []

read_uint-write_uint_example :
    read_uint (write_uint two_bytes 305419896 ++ two_bytes) 2 ≡ some 305419896
read_uint-write_uint_example = read_uint-write_uint two_bytes two_bytes 305419896 (omega arith)

slice_iff_example :
    (slice (write_uint [] 66051) (pos 1) (negsuc 0) ≡ some (1 ∷ 2 ∷ []))
    ↔ IsCut
        (write_uint [] 66051)
        (resolve (pos 1) (size (write_uint [] 66051)))
        (resolve (negsuc 0) (size (write_uint [] 66051)))
        (1 ∷ 2 ∷ [])
slice_iff_example = slice_iff (write_uint [] 66051) (pos 1) (negsuc 0) (1 ∷ 2 ∷ [])

split-words_example :
    split (codes " ls  -a dir") (codes " ") ≡ some (words (codes " ") (codes " ls  -a dir"))
split-words_example = split-words (codes " ls  -a dir") (codes " ")

rio_writen-IsWritten_example :
    Ensures
      (IsWritten machine machine-WritesStream 4 [] (codes "seven b"))
      (rio_writen machine 4 (codes "seven b") (start []))
rio_writen-IsWritten_example =
    rio_writen-IsWritten machine machine-WritesStream 4 (codes "seven b") (start [])

abbrev four_bytes : UInt32
four_bytes = record { bytes = 18 ∷ 52 ∷ 86 ∷ 255 ∷ [] }

ends_with_iff_example : (ends_with (codes "a.txt") (codes ".txt") ≡ true) ↔ (
    IsSuffix (codes ".txt") (codes "a.txt") ⊎ (length (codes ".txt") ≡ length (codes "a.txt") + 1))
ends_with_iff_example = ends_with_iff (codes "a.txt") (codes ".txt") (omega arith) (omega arith)

next64_pow2-next_power_example : next64_pow2 4097 ≡ next_power 64 4097
next64_pow2-next_power_example = next64_pow2-next_power 4097 (omega arith)

next_of_4097 : (next64_pow2 4097 ≡ 8192) × (next32_pow2 0x80000001 ≡ 0)
unfolding next64_pow2 next32_pow2
next_of_4097 = (refl, refl)
