-- ===== src/Server/Listeners.antt =====
-- Server.cpp: what the listeners do with an event, of the server socket and of a connection.
pub mod Rearming
pub mod Accepting
use cs_network_proj.Base.{
  if◌then◌else◌, ℕ, zero, suc, Bool, true, false, Option, none, some, List, [], ◌∷◌, ◌++◌,
}
use cs_network_proj.Base.Outcome.{done, stuck, Cmd, pure, ◌>>=◌, ◌>>◌}
use cs_network_proj.Os.{
  Os, AcceptResult, accepted, accept_failed, EpollFlag, epollin, epollout, epollet, epolloneshot,
}
use cs_network_proj.Util.ByteBuffer.{ByteBuffer}
use cs_network_proj.Network.Socket.{Socket}
use cs_network_proj.Server.Instance.{Epoll}
use cs_network_proj.Server.Epoll.{add_fd, modify_fd}
use cs_network_proj.Server.Session.State.{
  SessionStatus, reading, writing, ended, State, attach_buffer, detach_buffer, with_session,
}
use cs_network_proj.Server.Session.Handle.{handle}

abbrev pub one_shot : EpollFlag → List EpollFlag
one_shot flag = flag ∷ epollet ∷ epolloneshot ∷ []

-- The thread's buffer is shared with the session while that handles an event.
abbrev pub shared_buffer : ByteBuffer → Option ByteBuffer → ByteBuffer
shared_buffer buffer none = buffer
shared_buffer buffer (some b) = b

module _ (os : Os) where
  open os use {World}

  -- A registration that cannot be changed is only logged.
  unfoldable pub rearm : SessionStatus → State → Cmd World Bool
  unfolding modify_fd
  rearm reading s = do
    _ ← modify_fd os s.server.epoll s.conn_socket.fd (one_shot epollin)
    pure true
  rearm writing s = do
    _ ← modify_fd os s.server.epoll s.conn_socket.fd (one_shot epollout)
    pure true
  rearm ended s = pure false

  -- ConnectionListener::onEvent, with the buffer of the thread that runs it. The result is whether
  -- the listener is kept.
  unfoldable pub on_connection_event : ByteBuffer → State → Cmd World (Bool × State × ByteBuffer)
  unfolding handle rearm
  on_connection_event buffer s = do
    s' ← handle os (with_session s (attach_buffer buffer s.session))
    let detached = with_session s' (detach_buffer s'.session)
    keep ← rearm detached.status detached
    pure (keep, detached, shared_buffer buffer s'.read_buffer)

  -- Socket::accept
  abbrev pub socket_of : AcceptResult → Option Socket
  socket_of (accepted fd) = some (record { fd = fd })
  socket_of (accept_failed e) = none

  unfoldable pub accept : Socket → Cmd World (Option Socket)
  accept socket w = let (r, w') = os.accept w socket.fd in done (socket_of r) w'

  -- Socket::setNonBlocking
  unfoldable pub set_non_blocking : Socket → Cmd World (Unit {0})
  set_non_blocking socket w = done tt (os.set_non_blocking w socket.fd)

  -- What a round does with a connection, or with none. The result has the connections that are
  -- listened to; a connection that could not be added is left out.
  abbrev pub after_accept :
      (List Socket → Cmd World (List Socket))
      → Epoll
      → List Socket
      → Option Socket
      → Cmd World (List Socket)
  after_accept next epoll sockets none = pure sockets
  after_accept next epoll sockets (some socket) = do
    set_non_blocking socket
    added ← add_fd os epoll socket.fd (one_shot epollin)
    next (if added then sockets ++ socket ∷ [] else sockets)

  -- ServerSocketListener::onEvent, in so many rounds.
  unfoldable pub accept_loop : ℕ → Socket → Epoll → List Socket → Cmd World (List Socket)
  unfolding accept set_non_blocking add_fd
  accept_loop zero server epoll sockets w = stuck
  accept_loop (suc fuel) server epoll sockets w =
      (do socket ← accept server; after_accept (accept_loop fuel server epoll) epoll sockets socket)
        w
