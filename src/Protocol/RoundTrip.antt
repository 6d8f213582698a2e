-- ===== src/Protocol/RoundTrip.antt =====
-- A reply that one side sends is the reply that the other receives.
use cs_network_proj.Base.{
  take-append-drop, ltb, leb, true, ℕ, suc, ◌+◌, ◌-◌, ◌^◌, ◌≤◌, ◌<◌, ◌≡◌, refl, sym, ap, ◌∙◌,
  Option, some, [], ◌∷◌, ◌++◌, arith, length, take, drop, u32, append_assoc,
}
use cs_network_proj.Base.Int.{pos}
use cs_network_proj.Base.Outcome.{done, and_then, Ensures, Ensures-bind}
use cs_network_proj.Os.{Os, ReadsArrived}
use cs_network_proj.Util.ByteBuffer.{
  Byte, ByteBuffer, size, write_uint, read_uint, concat, index, slice,
}
use cs_network_proj.Util.ByteBuffer.Integers.{read_uint-write_uint}
use cs_network_proj.Network.Socket.{Socket, read}
use cs_network_proj.Network.Socket.Arrivals.{IsFilled, read-IsFilled, read-IsFilled_once}
use cs_network_proj.Protocol.{ResponsePacket, packet, parse_response, receive_response}

-- The length of a packet, and what follows it.
abbrev pub header : ByteBuffer → ByteBuffer
header content = write_uint [] (u32 (1 + size content))

pub packet-parts :
    (type : Byte) (content : ByteBuffer) → packet type content ≡ header content ++ (type ∷ content)
unfolding packet concat
packet-parts type content = append_assoc (header content) (type ∷ []) content

-- A buffer that starts with the length of a packet.
pub read_uint-header :
    (content buffer : ByteBuffer)
    → 1 + length content < 2 ^ 32
    → take 4 buffer ≡ header content
    → read_uint buffer 0 ≡ some (suc (length content))
read_uint-header content buffer short holds =
    let parts : buffer ≡ header content ++ drop 4 buffer =
      sym (take-append-drop 4 buffer) ∙ ap (λ l. l ++ drop 4 buffer) holds in
    let len : u32 (1 + size content) ≡ suc (length content) = omega arith in
    ap (λ l. read_uint l 0) parts
    ∙ read_uint-write_uint [] (drop 4 buffer) (u32 (1 + size content)) (omega arith)
    ∙ ap some len

slice-content :
    (x : Byte) (xs content : ByteBuffer)
    → 1 ≤ length xs
    → length content ≤ length xs
    → take (length content) xs ≡ content
    → slice (x ∷ xs) (pos 1) (pos (suc (length content))) ≡ some content
unfolding slice
slice-content x xs content room long e =
    let starts : ltb 1 (size (x ∷ xs)) ≡ true = ground arith in
    let positive : ltb 0 (suc (length content)) ≡ true = ground arith in
    let ends : leb (suc (length content)) (size (x ∷ xs)) ≡ true = ground arith in
    let forward : leb 1 (suc (length content)) ≡ true = ground arith in
    let width : suc (length content) - 1 ≡ length content = omega arith in
    rw (starts, positive, ends, forward, width) (ap some e)

module _ (os : Os) where
  open os use {World}

  -- A buffer that starts with the type and the data of a reply.
  parse_response-content :
      (type : Byte) (content buffer : ByteBuffer) (w : World)
      → 2 ≤ length buffer
      → suc (length content) ≤ length buffer
      → take (suc (length content)) buffer ≡ type ∷ content
      → parse_response os (pos (suc (length content)), buffer) w
        ≡ done (some (record { type = type; content = content }), buffer) w
  unfolding parse_response index
  parse_response-content type content [] w room long e = absurd (omega arith)
  parse_response-content type content (x ∷ xs) w room long e =
      let same : x ≡ type = cc in
      let others : take (length content) xs ≡ content = cc in
      rw (slice-content x xs content (omega arith) (omega arith) others, same) refl

module _ (os : Os) (arrived : ReadsArrived os) where
  open os use {World}
  open arrived use {pending}

  -- The reply is received and nothing is left to read.
  abbrev pub IsReceived :
      ℕ → Byte → ByteBuffer → Option ResponsePacket × ByteBuffer → World → Type 0
  IsReceived fd type content (response, buffer) w =
      (response ≡ some (record { type = type; content = content })) × (pending w fd ≡ [])

  -- The second read, once the buffer starts with the length.
  receive_rest :
      (socket : Socket) (type : Byte) (content buffer : ByteBuffer) (w : World)
      → 4 ≤ length buffer
      → 1 + length content ≤ length buffer
      → pending w socket.fd ≡ type ∷ content
      → Ensures (IsReceived socket.fd type content) (
          and_then
            (read os socket buffer (suc (length content)) w)
            (λ received. parse_response os received))
  receive_rest socket type content buffer w room long e =
      Ensures-bind
        (IsFilled os arrived socket.fd (suc (length content)) buffer 0 (type ∷ content) [])
        (IsReceived socket.fd type content) (read os socket buffer (suc (length content)) w) _
        (read-IsFilled os arrived socket buffer (type ∷ content) w (omega arith) (omega arith) e)
        λ (count, buffer') w' (all, same, holds, left).
          rw
            (
              all,
              parse_response-content os type content buffer' w' (omega arith) (omega arith) holds,
            )
            (refl, left)

  -- A reply whose packet is all that has arrived is received as it was sent, if it fits the buffer.
  pub receive_response-packet :
      (socket : Socket) (type : Byte) (content buffer : ByteBuffer) (w : World)
      → 4 ≤ length buffer
      → 1 + length content ≤ length buffer
      → 1 + length content < 2 ^ 32
      → pending w socket.fd ≡ packet type content
      → Ensures (IsReceived socket.fd type content) (receive_response os socket buffer w)
  unfolding receive_response write_uint
  receive_response-packet socket type content buffer w room long short e =
      Ensures-bind (IsFilled os arrived socket.fd 4 buffer 0 (header content) (type ∷ content))
        (IsReceived socket.fd type content) (read os socket buffer 4 w) _
        (read-IsFilled_once os arrived socket buffer (header content) (type ∷ content) w
          (omega arith) (omega arith) room (e ∙ packet-parts type content))
        λ (count, buffer') w' (all, same, holds, left).
          rw (read_uint-header content buffer' short holds)
            (receive_rest socket type content buffer' w' (omega arith) (omega arith) left)
