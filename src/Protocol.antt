-- ===== src/Protocol.antt =====
-- src/protocol/Protocol.h and Protocol.cpp: the packets, and how a client sends one and receives
-- the reply.
pub mod RoundTrip
pub mod Terminates
use cs_network_proj.Base.{zero, suc, ◌+◌, Bool, Option, none, some, [], u32, ◌==◌}
use cs_network_proj.Base.Int.{ℤ, pos, negsuc}
use cs_network_proj.Base.Outcome.{Cmd, pure, deref, ◌>>=◌}
use cs_network_proj.Os.{Os}
use cs_network_proj.Util.ByteBuffer.{
  Byte, ByteBuffer, size, write_uint, push_back, concat, read_uint, index, slice,
}
use cs_network_proj.Network.Socket.{Socket, read, write}

pub data RequestType : Type 0 where
  command download download_info : RequestType

pub data ResponseType : Type 0 where
  plain_text binary download_info_reply : ResponseType

abbrev pub request_byte : RequestType → Byte
request_byte command = 0
request_byte download = 1
request_byte download_info = 2

abbrev pub response_byte : ResponseType → Byte
response_byte plain_text = 0
response_byte binary = 1
response_byte download_info_reply = 2

pub record ResponsePacket : Type 0 where
  pub type : Byte
  pub content : ByteBuffer

-- The bytes on the wire: the length of what follows, the type, the data. The client and the
-- server both build them in this way.
unfoldable pub packet : Byte → ByteBuffer → ByteBuffer
unfolding write_uint concat
packet type content = concat (push_back (write_uint [] (u32 (1 + size content))) type) content

module _ (os : Os) where
  open os use {World}

  unfoldable pub send_request : Socket → RequestType → ByteBuffer → Cmd World Bool
  unfolding write packet
  send_request socket type content =
      let send_buffer = packet (request_byte type) content in
      do n ← write os socket send_buffer; pure (n == size send_buffer)

  -- What `read` left in the buffer, as a packet; none if nothing came or the input has ended.
  unfoldable pub parse_response : ℤ × ByteBuffer → Cmd World (Option ResponsePacket × ByteBuffer)
  unfolding index slice
  parse_response (negsuc n, buffer) = pure (none, buffer)
  parse_response (pos zero, buffer) = pure (none, buffer)
  parse_response (pos (suc n), buffer) = do
    type ← deref (index buffer (pos 0))
    content ← deref (slice buffer (pos 1) (pos (suc n)))
    pure (some (record { type = type; content = content }), buffer)

  -- The result of the first read is not looked at.
  unfoldable pub receive_response :
      Socket → ByteBuffer → Cmd World (Option ResponsePacket × ByteBuffer)
  unfolding read read_uint parse_response
  receive_response socket buffer = do
    (_, buffer) ← read os socket buffer 4
    packet_len ← deref (read_uint buffer 0)
    received ← read os socket buffer packet_len
    parse_response received
