-- ===== src/Protocol/Terminates.antt =====
-- The exchange of a request and its response ends.
use cs_network_proj.Base.{zero, suc, ◌==◌}
use cs_network_proj.Base.Int.{ℤ, pos, negsuc}
use cs_network_proj.Base.Outcome.{Ends, bind-Ends, pure-Ends, deref-Ends, deref}
use cs_network_proj.Os.{Os}
use cs_network_proj.Util.ByteBuffer.{ByteBuffer, size, index, slice, read_uint}
use cs_network_proj.Util.Rio.Terminates.{rio_writen-Ends}
use cs_network_proj.Network.Socket.{Socket, read, write}
use cs_network_proj.Network.Socket.Reads.{read-ne-stuck}
use cs_network_proj.Protocol.{
  RequestType, request_byte, packet, send_request, parse_response, receive_response,
}

module _ (os : Os) where
  open os use {World}

  pub send_request-Ends :
      (socket : Socket) (type : RequestType) (content : ByteBuffer)
      → Ends (send_request os socket type content)
  unfolding send_request write
  send_request-Ends socket type content =
      let block = packet (request_byte type) content in
      bind-Ends (write os socket block) _ (rio_writen-Ends os socket.fd block)
        λ n. pure-Ends (n == size block)

  parse_response-Ends : (received : ℤ × ByteBuffer) → Ends (parse_response os received)
  unfolding parse_response
  parse_response-Ends (negsuc n, buffer) = pure-Ends _
  parse_response-Ends (pos zero, buffer) = pure-Ends _
  parse_response-Ends (pos (suc n), buffer) =
      let type = index buffer (pos 0) in
      let content = slice buffer (pos 1) (pos (suc n)) in
      bind-Ends (deref type) _ (deref-Ends type)
        λ t. bind-Ends (deref content) _ (deref-Ends content) λ c. pure-Ends _

  pub receive_response-Ends :
      (socket : Socket) (buffer : ByteBuffer) → Ends (receive_response os socket buffer)
  unfolding receive_response
  receive_response-Ends socket buffer =
      bind-Ends (read os socket buffer 4) _ (read-ne-stuck os socket buffer 4) λ (_, buffer').
        bind-Ends (deref (read_uint buffer' 0)) _ (deref-Ends (read_uint buffer' 0)) λ n.
          bind-Ends (read os socket buffer' n) (parse_response os)
            (read-ne-stuck os socket buffer' n) parse_response-Ends
