-- ===== src/Server/Events.antt =====
-- src/server/Events.cpp: the loop of a thread that receives events. A listener is found by its
-- descriptor, which stands for the pointer that goes with a registration. The thread is the only
-- one here; what the others do to the server's state is not seen.
pub mod Idle
use cs_network_proj.Base.{
  ℕ, zero, suc, Bool, Option, none, some, List, [], ◌∷◌, ◌==◌, if◌then◌else◌,
}
use cs_network_proj.Base.Outcome.{done, stuck, Cmd, pure, deref, ◌>>=◌}
use cs_network_proj.Os.{Os}
use cs_network_proj.Util.ByteBuffer.{ByteBuffer}
use cs_network_proj.Network.Socket.{Socket}
use cs_network_proj.Server.Instance.{Server}
use cs_network_proj.Server.Epoll.{wait}
use cs_network_proj.Server.Session.State.{Session, State, new_session}
use cs_network_proj.Server.Listeners.{accept_loop, on_connection_event}

pub data Listener : Type 0 where
  server_socket : Socket → Listener
  connection : Session → Listener

-- What a thread sees: the server, the listeners by their descriptors, and its buffer.
pub record Receiver : Type 0 where
  pub server : Server
  pub listeners : List (ℕ × Listener)
  pub local_read_buffer : ByteBuffer

unfoldable pub find : ℕ → List (ℕ × Listener) → Option Listener
find fd [] = none
find fd ((other, listener) ∷ listeners) =
    let rest = find fd listeners in if fd == other then some listener else rest

unfoldable pub delete : ℕ → List (ℕ × Listener) → List (ℕ × Listener)
delete fd [] = []
delete fd ((other, listener) ∷ listeners) =
    let rest = delete fd listeners in if fd == other then rest else (other, listener) ∷ rest

unfoldable pub put : ℕ → Listener → List (ℕ × Listener) → List (ℕ × Listener)
unfolding delete
put fd listener listeners = (fd, listener) ∷ delete fd listeners

-- The listeners of the connections that were accepted.
unfoldable pub add_connections : List Socket → List (ℕ × Listener) → List (ℕ × Listener)
unfolding put
add_connections [] listeners = listeners
add_connections (socket ∷ sockets) listeners =
    put socket.fd (connection (new_session socket)) (add_connections sockets listeners)

-- A listener whose event is not to go on is deleted.
abbrev pub keep_or_delete : Bool → ℕ → Listener → List (ℕ × Listener) → List (ℕ × Listener)
keep_or_delete keep fd listener listeners =
    if keep then put fd listener listeners else delete fd listeners

abbrev pub after_connection : Receiver → ℕ → Bool × State × ByteBuffer → Receiver
after_connection r fd (keep, s, buffer) = record {
  server = s.server;
  listeners = keep_or_delete keep fd (connection s.session) r.listeners;
  local_read_buffer = buffer;
}

module _ (os : Os) where
  open os use {World}

  -- FdEventListener::onEvent; the accept loop has so many rounds.
  abbrev pub on_event : ℕ → Receiver → ℕ → Listener → Cmd World Receiver
  on_event rounds r fd (server_socket socket) = do
    sockets ← accept_loop os rounds socket r.server.epoll []
    pure (record r { listeners = add_connections sockets r.listeners })
  on_event rounds r fd (connection session) = do
    left ←
        on_connection_event os r.local_read_buffer (record { session = session; server = r.server })
    pure (after_connection r fd left)

  -- One event of the buffer.
  unfoldable pub handle_event : ℕ → Receiver → ℕ → Cmd World Receiver
  unfolding accept_loop on_connection_event find put delete add_connections
  handle_event rounds r fd = do
    listener ← deref (find fd r.listeners)
    on_event rounds r fd listener

  unfoldable pub handle_events : ℕ → Receiver → List ℕ → Cmd World Receiver
  unfolding handle_event
  handle_events rounds r [] = pure r
  handle_events rounds r (fd ∷ events) = do
    r' ← handle_event rounds r fd
    handle_events rounds r' events

  -- EpollEventReceiverThread::run
  unfoldable pub receive_loop : ℕ → ℕ → Receiver → Cmd World Receiver
  unfolding wait handle_events
  receive_loop zero rounds r w = stuck
  receive_loop (suc fuel) rounds r w =
      let round : Cmd World Receiver = (do
        events ← wait os r.server.epoll
        r' ← handle_events rounds r events
        receive_loop fuel rounds r') in
      let rest = round w in if r.server.active then rest else done r w
