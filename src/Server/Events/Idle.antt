-- ===== src/Server/Events/Idle.antt =====
-- How the loop of a thread leaves the sessions between two events.
use cs_network_proj.Base.{
  ℕ, zero, suc, ◌≡◌, ◌≢◌, refl, inl, inr, Bool, true, false, Bool-cases, Option, none, some, List,
  [], ◌∷◌, ◌==◌, All,
}
use cs_network_proj.Base.Outcome.{and_then, Cmd, Holds, Holds-bind, Holds-next, deref}
use cs_network_proj.Os.{Os}
use cs_network_proj.Util.ByteBuffer.{ByteBuffer}
use cs_network_proj.Network.Socket.{Socket}
use cs_network_proj.Server.Epoll.{wait}
use cs_network_proj.Server.Session.State.{
  SessionStatus, reading, writing, ended, FileProcess, Session, State, new_session,
}
use cs_network_proj.Server.Listeners.{accept_loop, on_connection_event}
use cs_network_proj.Server.Listeners.Rearming.{IsArmed, IsLeft, on_connection_event-IsLeft}
use cs_network_proj.Server.Events.{
  Listener, server_socket, connection, Receiver, find, delete, put, add_connections,
  after_connection, on_event, handle_event, handle_events, receive_loop,
}

-- Between two events a session has let go of the thread's buffer, has its file if it writes, and has
-- not ended.
abbrev pub IsIdle : Session → Type 0
IsIdle s =
    (s.read_buffer ≡ none)
    × (s.status ≡ writing → (p : FileProcess) × (s.file_process ≡ some p))
    × (s.status ≢ ended)

abbrev pub IsSettled : Listener → Type 0
IsSettled (server_socket socket) = Unit
IsSettled (connection session) = IsIdle session

abbrev pub AreIdle : List (ℕ × Listener) → Type 0
AreIdle listeners = All (λ entry. IsSettled entry.1) listeners

delete-AreIdle : (fd : ℕ) (ls : List (ℕ × Listener)) → AreIdle ls → AreIdle (delete fd ls)
unfolding delete
delete-AreIdle fd [] h = tt
delete-AreIdle fd ((other, l) ∷ ls) (h, hs) = elim (Bool-cases (fd == other)) [
  | inl e ↦ rw e (delete-AreIdle fd ls hs)
  | inr e ↦ rw e (h, delete-AreIdle fd ls hs)
]

put-AreIdle :
    (fd : ℕ) (l : Listener) (ls : List (ℕ × Listener))
    → IsSettled l
    → AreIdle ls
    → AreIdle (put fd l ls)
unfolding put
put-AreIdle fd l ls h hs = (h, delete-AreIdle fd ls hs)

add_connections-AreIdle :
    (sockets : List Socket) (ls : List (ℕ × Listener))
    → AreIdle ls
    → AreIdle (add_connections sockets ls)
unfolding add_connections
add_connections-AreIdle [] ls h = h
add_connections-AreIdle (socket ∷ sockets) ls h =
    put-AreIdle socket.fd (connection (new_session socket)) (add_connections sockets ls)
      (refl, (λ e. cc), (λ e. cc)) (add_connections-AreIdle sockets ls h)

-- What a search for a listener finds.
abbrev IsFound : Option Listener → Type 0
IsFound none = Unit
IsFound (some l) = IsSettled l

find-IsFound : (fd : ℕ) (ls : List (ℕ × Listener)) → AreIdle ls → IsFound (find fd ls)
unfolding find
find-IsFound fd [] h = tt
find-IsFound fd ((other, l) ∷ ls) (h, hs) = elim (Bool-cases (fd == other)) [
  | inl e ↦ rw e h
  | inr e ↦ rw e (find-IsFound fd ls hs)
]

module _ (os : Os) where
  open os use {World}

  pub IsArmed-ne-ended :
      (status : SessionStatus) (s : State) (w : World) → IsArmed os status true s w → status ≢ ended
  IsArmed-ne-ended reading s w armed e = cc
  IsArmed-ne-ended writing s w armed e = cc
  IsArmed-ne-ended ended s w armed e = cc

  -- A listener that is kept has a session that has not ended.
  after_connection-AreIdle :
      (r : Receiver) (fd : ℕ) (keep : Bool) (s : State) (buffer : ByteBuffer) (w : World)
      → AreIdle r.listeners
      → IsLeft os (keep, s, buffer) w
      → AreIdle (after_connection r fd (keep, s, buffer)).listeners
  after_connection-AreIdle r fd false s buffer w h left = delete-AreIdle fd r.listeners h
  after_connection-AreIdle r fd true s buffer w h (free, has_file, armed) =
      put-AreIdle fd (connection s.session) r.listeners
        (free, has_file, IsArmed-ne-ended s.status s w armed) h

  abbrev pub LeavesIdle : Receiver → World → Type 0
  LeavesIdle r w = AreIdle r.listeners

  on_event-LeavesIdle :
      (rounds : ℕ) (r : Receiver) (fd : ℕ) (l : Listener) (w : World)
      → AreIdle r.listeners
      → IsSettled l
      → Holds LeavesIdle (on_event os rounds r fd l w)
  on_event-LeavesIdle rounds r fd (server_socket socket) w h settled =
      Holds-bind LeavesIdle (accept_loop os rounds socket r.server.epoll [] w) _
        λ sockets v. add_connections-AreIdle sockets r.listeners h
  on_event-LeavesIdle rounds r fd (connection session) w h (free, has_file, going) =
      let s : State = record { session = session; server = r.server } in
      Holds-next (IsLeft os) LeavesIdle (on_connection_event os r.local_read_buffer s w) _
        (on_connection_event-IsLeft os r.local_read_buffer s w has_file)
        λ (keep, s', buffer) v left. after_connection-AreIdle r fd keep s' buffer v h left

  deref-LeavesIdle :
      (o : Option Listener) (k : Listener → Cmd World Receiver) (w : World)
      → IsFound o
      → ((l : Listener) → IsSettled l → Holds LeavesIdle (k l w))
      → Holds LeavesIdle (and_then (deref o w) k)
  deref-LeavesIdle none k w h next = tt
  deref-LeavesIdle (some l) k w h next = next l h

  handle_event-LeavesIdle :
      (rounds : ℕ) (r : Receiver) (fd : ℕ) (w : World)
      → AreIdle r.listeners
      → Holds LeavesIdle (handle_event os rounds r fd w)
  unfolding handle_event
  handle_event-LeavesIdle rounds r fd w h =
      deref-LeavesIdle (find fd r.listeners) (on_event os rounds r fd) w
        (find-IsFound fd r.listeners h) λ l settled. on_event-LeavesIdle rounds r fd l w h settled

  handle_events-LeavesIdle :
      (rounds : ℕ) (events : List ℕ) (r : Receiver) (w : World)
      → AreIdle r.listeners
      → Holds LeavesIdle (handle_events os rounds r events w)
  unfolding handle_events
  handle_events-LeavesIdle rounds [] r w h = h
  handle_events-LeavesIdle rounds (fd ∷ events) r w h =
      Holds-next LeavesIdle LeavesIdle (handle_event os rounds r fd w) _
        (handle_event-LeavesIdle rounds r fd w h)
        λ r' v h'. handle_events-LeavesIdle rounds events r' v h'

  -- If every session is idle before the loop of a thread, then, when the loop returns, every session
  -- that has a listener is idle, whatever events came: it has let go of the thread's buffer, has its
  -- file if it writes, and has not ended.
  pub receive_loop-LeavesIdle :
      (fuel rounds : ℕ) (r : Receiver) (w : World)
      → AreIdle r.listeners
      → Holds LeavesIdle (receive_loop os fuel rounds r w)
  unfolding receive_loop wait
  receive_loop-LeavesIdle zero rounds r w h = tt
  receive_loop-LeavesIdle (suc fuel) rounds r w h = elim (Bool-cases r.server.active) [
    | inr over ↦ simp over h
    | inl on ↦ simp on (
        Holds-bind LeavesIdle (wait os r.server.epoll w) _ λ events v.
          Holds-next LeavesIdle LeavesIdle (handle_events os rounds r events v) _
            (handle_events-LeavesIdle rounds events r v h)
            λ r' u h'. receive_loop-LeavesIdle fuel rounds r' u h')
  ]
