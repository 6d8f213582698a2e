-- ===== src/Server/Session/Handle/Requests.antt =====
-- How a request reaches the part of the session that answers it.
use cs_network_proj.Base.{
  ℕ, suc, ◌+◌, ◌^◌, ◌≤◌, ◌<◌, ◌≡◌, refl, ap, ◌∙◌, some, [], ◌∷◌, arith, length, take, u32,
}
use cs_network_proj.Base.Int.{ℤ, pos}
use cs_network_proj.Base.Outcome.{Outcome, done, Cmd, deref, and_then, Ensures-done}
use cs_network_proj.Os.{Os, ReadsArrived}
use cs_network_proj.Util.ByteBuffer.{Byte, ByteBuffer, read_uint, write_uint, index}
use cs_network_proj.Network.Socket
use cs_network_proj.Network.Socket.Arrivals.{IsFilled, read-IsFilled, read-IsFilled_once}
use cs_network_proj.Protocol.{packet}
use cs_network_proj.Protocol.RoundTrip.{header, packet-parts, read_uint-header}
use cs_network_proj.Server.Session.State.{State, attach_buffer, with_session}
use cs_network_proj.Server.Session.Handle.{dispatch, after_request, read_packet, handle_reading}

module _ (os : Os) where
  open os use {World}

  after_request-dispatch :
      (s : State) (type : Byte) (content buffer : ByteBuffer) (w : World)
      → 1 + length content < 2 ^ 32
      → take (suc (length content)) buffer ≡ type ∷ content
      → after_request os s (pos (suc (length content))) buffer w
        ≡ dispatch os type (suc (length content)) s w
  unfolding after_request index
  after_request-dispatch s type content [] w short e = cc
  after_request-dispatch s type content (x ∷ xs) w short e =
      let same : x ≡ type = cc in
      let len : u32 (suc (length content)) ≡ suc (length content) = omega arith in
      rw (same, len) refl

  handle_reading-read_packet :
      (s : State) (buffer buffer' : ByteBuffer) (count : ℤ) (w v : World)
      → s.read_buffer ≡ some buffer
      → Socket.read os s.conn_socket buffer 4 w ≡ done (count, buffer') v
      → handle_reading os s w ≡ read_packet os s buffer' v
  unfolding handle_reading
  handle_reading-read_packet s buffer buffer' count w v has ran =
      ap
        (λ o.
          and_then (deref o w)
            (λ b u. and_then (Socket.read os s.conn_socket b 4 u) (λ r. read_packet os s r.1)))
        has
      ∙ ap (λ r. and_then r (λ r. read_packet os s r.1)) ran

  read_packet-after_request :
      (s : State) (buffer buffer' : ByteBuffer) (n : ℕ) (count : ℤ) (w v : World)
      → read_uint buffer 0 ≡ some n
      → Socket.read os s.conn_socket buffer n w ≡ done (count, buffer') v
      → read_packet os s buffer w
        ≡ after_request os (with_session s (attach_buffer buffer' s.session)) count buffer' v
  unfolding read_packet
  read_packet-after_request s buffer buffer' n count w v known ran =
      let next : ℤ × ByteBuffer → Cmd World State =
        λ r. after_request os (with_session s (attach_buffer r.1 s.session)) r.0 r.1 in
      ap
        (λ o. and_then (deref o w) (λ k u. and_then (Socket.read os s.conn_socket buffer k u) next))
        known
      ∙ ap (λ r. and_then r next) ran

module _ (os : Os) (arrived : ReadsArrived os) where
  open os use {World}
  open arrived use {pending}

  -- The request was taken off the socket into a buffer, and is dispatched there.
  abbrev pub IsDispatched : State → Byte → ByteBuffer → ℕ → Outcome World State → Type 0
  IsDispatched s type content capacity r =
      (buffer : ByteBuffer) × (w : World) × (length buffer ≡ capacity)
      × (take (suc (length content)) buffer ≡ type ∷ content)
      × (pending w s.conn_socket.fd ≡ [])
      × (r
          ≡ dispatch os type (suc (length content))
              (with_session s (attach_buffer buffer s.session)) w)

  -- A session that reads, to which one whole packet has come that fits the buffer, takes all of it
  -- and dispatches on its type, with its length and with the buffer that starts with it.
  pub handle_reading-IsDispatched :
      (s : State) (type : Byte) (content buffer : ByteBuffer) (w : World)
      → s.read_buffer ≡ some buffer
      → 4 ≤ length buffer
      → 1 + length content ≤ length buffer
      → 1 + length content < 2 ^ 32
      → pending w s.conn_socket.fd ≡ packet type content
      → IsDispatched s type content (length buffer) (handle_reading os s w)
  unfolding handle_reading write_uint
  handle_reading-IsDispatched s type content buffer w has room long short e =
      let (first, v, ran, (_, same, holds, left)) =
        Ensures-done
          (IsFilled os arrived s.conn_socket.fd 4 buffer 0 (header content) (type ∷ content))
          (Socket.read os s.conn_socket buffer 4 w)
          (read-IsFilled_once os arrived s.conn_socket buffer (header content) (type ∷ content) w
            (omega arith) (omega arith) room (e ∙ packet-parts type content)) in
      let known = read_uint-header content first.1 short holds in
      let (second, u, ran', (all, same', holds', left')) =
        Ensures-done
          (IsFilled os arrived s.conn_socket.fd (suc (length content)) first.1 0 (type ∷ content)
            [])
          (Socket.read os s.conn_socket first.1 (suc (length content)) v)
          (read-IsFilled os arrived s.conn_socket first.1 (type ∷ content) v (omega arith)
            (omega arith) left) in
      (
        second.1,
        u,
        omega arith,
        holds',
        left',
        handle_reading-read_packet os s buffer first.1 first.0 w v has ran
            ∙ read_packet-after_request os s first.1 second.1 (suc (length content)) second.0 v u
                known ran'
            ∙ ap
                (λ n.
                  after_request os (with_session s (attach_buffer second.1 s.session)) n second.1 u)
                all
            ∙ after_request-dispatch os (with_session s (attach_buffer second.1 s.session)) type
                content second.1 u short holds',
      )
