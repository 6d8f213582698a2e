-- ===== src/Tests/TextRuns.antt =====
-- Texts of bytes.
use cs_network_proj.Base.{◌≡◌, refl, some, [], ◌∷◌, arith, codes}
use cs_network_proj.Util.Byte.{show_byte, show_bits, show_buffer, show_rest, to_hex_string}
use cs_network_proj.Util.Byte.Hex.{hex}
use cs_network_proj.Util.Byte.Hex.RoundTrip.{hex-show_buffer}

printed : show_buffer (0x12 ∷ 0xff ∷ 0 ∷ []) ≡ codes "12 ff 00"
unfolding show_buffer show_rest to_hex_string
printed = refl

printed_bits : show_byte 0x9a ≡ codes "10011010"
unfolding show_byte show_bits
printed_bits = refl

hex-show_buffer_example : hex (show_buffer (0x12 ∷ 0xff ∷ 0 ∷ [])) ≡ some (0x12 ∷ 0xff ∷ 0 ∷ [])
hex-show_buffer_example =
    hex-show_buffer (0x12 ∷ 0xff ∷ 0 ∷ []) (omega arith, (omega arith, (omega arith, tt)))

-- A number that does not fit a byte loses its high bits, and what is no number ends the buffer.
read_loosely : hex (codes " 0x1f -1 1234 g 5") ≡ some (0x1f ∷ 0xff ∷ 0x34 ∷ [])
unfolding hex
read_loosely = refl
