-- ===== src/Server/Session/Handle.antt =====
-- Session.cpp: `handle`, one event of a connection.
pub mod Invariant
pub mod Requests
use cs_network_proj.Base.{ℕ, zero, suc, true, false, ◌==◌, if◌then◌else◌, u32}
use cs_network_proj.Base.Int.{ℤ, pos, negsuc}
use cs_network_proj.Base.Outcome.{Cmd, pure, deref, ◌>>=◌}
use cs_network_proj.Os.{Os}
use cs_network_proj.Util.ByteBuffer.{Byte, ByteBuffer, read_uint, index}
use cs_network_proj.Network.Socket.{read}
use cs_network_proj.Server.Session.State.{
  reading, writing, ended, State, attach_buffer, with_session, then_status,
}
use cs_network_proj.Server.Session.Commands.{process_command}
use cs_network_proj.Server.Session.Downloads.{process_download}
use cs_network_proj.Server.Session.Writing.{handle_writing}

module _ (os : Os) where
  open os use {World}

  unfoldable pub dispatch : Byte → ℕ → State → Cmd World State
  unfolding process_command process_download
  dispatch type read_len s =
      if type == 0
      then process_command os read_len s
      else (if type == 1
          then process_download os read_len false s
          else (if type == 2
              then process_download os read_len true s
              else pure (then_status ended s)))

  unfoldable pub after_request : State → ℤ → ByteBuffer → Cmd World State
  unfolding dispatch index
  after_request s (negsuc zero) buffer = pure (then_status ended s)
  after_request s (negsuc (suc n)) buffer = pure s
  after_request s (pos zero) buffer = pure s
  after_request s (pos (suc n)) buffer = do
    type ← deref (index buffer (pos 0))
    dispatch type (u32 (suc n)) s

  -- The packet, once its length stands at the front of the buffer.
  unfoldable pub read_packet : State → ByteBuffer → Cmd World State
  unfolding read read_uint after_request
  read_packet s buffer = do
    packet_len ← deref (read_uint buffer 0)
    (read_len, buffer) ← read os s.conn_socket buffer packet_len
    after_request (with_session s (attach_buffer buffer s.session)) read_len buffer

  unfoldable pub handle_reading : State → Cmd World State
  unfolding read read_packet
  handle_reading s = do
    buffer ← deref s.read_buffer
    (_, buffer) ← read os s.conn_socket buffer 4
    read_packet s buffer

  unfoldable pub handle : State → Cmd World State
  unfolding handle_reading handle_writing
  handle s = elim s.status [
    | reading ↦ handle_reading s
    | writing ↦ handle_writing os s
    | ended ↦ pure s
  ]
