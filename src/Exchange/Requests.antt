-- ===== src/Exchange/Requests.antt =====
-- From the call of `sendRequest` on the client to the part of the session that serves the request:
-- the two run on systems of their own, and what the one sends is what the other has to read.
use mathlib.Core.List.{append_cancel_left}
use cs_network_proj.Base.{
  ℕ, ◌+◌, ◌^◌, ◌≤◌, ◌<◌, ◌≡◌, ◌≢◌, refl, sym, ◌∙◌, inl, inr, Bool, true, some, ◌++◌, arith, length,
  All, ◌==◌, ==_iff, subst,
}
use cs_network_proj.Base.Outcome.{done, pure, Ensures, Ensures-bind}
use cs_network_proj.Os.{Os, WritesStream, ReadsArrived}
use cs_network_proj.Util.ByteBuffer.{ByteBuffer}
use cs_network_proj.Util.Rio.{rio_writen}
use cs_network_proj.Util.Rio.Writes.{IsWritten, rio_writen-IsWritten}
use cs_network_proj.Network.Socket.{Socket}
use cs_network_proj.Protocol.{RequestType, request_byte, packet, send_request}
use cs_network_proj.Server.Session.State.{State}
use cs_network_proj.Server.Session.Handle.{handle_reading}
use cs_network_proj.Exchange.Downloads.{
  request_content, request_type, IsServed, handle_reading-IsServed,
}

module _ (client : Os) (writes : WritesStream client) where
  open client use {World}
  open writes use {sent}

  -- A result that is true says that all of the packet went out.
  abbrev IsSent : Socket → RequestType → ByteBuffer → World → Bool → World → Type 0
  IsSent socket type content v ok v' =
      ok ≡ true → sent v' socket.fd ≡ sent v socket.fd ++ packet (request_byte type) content

  IsWritten-IsSent :
      (socket : Socket) (type : RequestType) (content : ByteBuffer) (v v' : World) (n : ℕ)
      → let block = packet (request_byte type) content in
        IsWritten client writes socket.fd (sent v socket.fd) block n v'
        → IsSent socket type content v (n == length block) v'
  IsWritten-IsSent socket type content v v' n (inl (e, all)) h = all
  IsWritten-IsSent socket type content v v' n (inr (e, (k, less, _, _))) h =
      absurd (omega (arith, (==_iff n (length (packet (request_byte type) content))).0 h))

  send_request-IsSent :
      (socket : Socket) (type : RequestType) (content : ByteBuffer) (v : World)
      → Ensures (IsSent socket type content v) (send_request client socket type content v)
  unfolding send_request
  send_request-IsSent socket type content v =
      let block = packet (request_byte type) content in
      Ensures-bind (IsWritten client writes socket.fd (sent v socket.fd) block)
        (IsSent socket type content v) (rio_writen client socket.fd block v)
        (λ n. pure (n == length block)) (rio_writen-IsWritten client writes socket.fd block v)
        λ n v' written. IsWritten-IsSent socket type content v v' n written

  -- If a client says that it has sent a request for a range of a file, or for its size, and what it
  -- has sent is what a reading session of a server has to read, then the session opens the file that
  -- the client named and serves the range that it asked for. The request fits the session's buffer,
  -- its numbers have 64 bits, and the path is not empty and has no zero.
  pub send_request-IsServed :
      (server : Os) (arrived : ReadsArrived server) (socket : Socket) (v v' : World) (s : State)
      (info : Bool) (offset n : ℕ) (path buffer : ByteBuffer) (w : server.World)
      → send_request client socket (request_type info) (request_content offset n path) v
        ≡ done true v'
      → sent v' socket.fd ≡ sent v socket.fd ++ arrived.pending w s.conn_socket.fd
      → s.read_buffer ≡ some buffer
      → 17 + length path ≤ length buffer
      → 17 + length path < 2 ^ 32
      → offset < 2 ^ 64
      → n < 2 ^ 64
      → 0 < length path
      → All (λ c. c ≢ 0) path
      → IsServed server arrived s info offset n path (length buffer) (handle_reading server s w)
  send_request-IsServed server arrived socket v v' s info offset n path buffer w ran received has
        long short ho hn some_path clean =
      let type = request_type info in
      let content = request_content offset n path in
      let all : true ≡ true
          → sent v' socket.fd ≡ sent v socket.fd ++ packet (request_byte type) content =
        subst (Ensures (IsSent socket type content v)) ran
          (send_request-IsSent socket type content v) in
      let same = append_cancel_left (sent v socket.fd) _ _ (sym received ∙ all refl) in
      handle_reading-IsServed server arrived s info offset n path buffer w has long short ho hn
        some_path clean same
