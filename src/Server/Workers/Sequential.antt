-- ===== src/Server/Workers/Sequential.antt =====
-- The threads against a server that handles one event at a time, on sessions that no thread has in
-- hand. The registrations, the buffers, the batches of events, and what a thread has read of a session
-- are not seen there.
use cs_network_proj.Base.{
  ℕ, ◌≡◌, ◌≢◌, refl, sym, ap, ap₂, ◌∙◌, true, false, Option, none, some, ◌==◌, if◌then◌else◌, subst,
  update, update_same, update_other, arith,
}
use cs_network_proj.Base.Outcome.{done}
use cs_network_proj.Os.{Os}
use cs_network_proj.Util.ByteBuffer.{ByteBuffer}
use cs_network_proj.Network.Socket.{Socket}
use cs_network_proj.Server.Instance.{Server}
use cs_network_proj.Server.Session.State.{ended, Session, State, new_session, detach_buffer}
use cs_network_proj.Server.Session.Handle.{handle}
use cs_network_proj.Server.Workers.{
  Registers, Reactor, Stage, events_of, attached, handled, entered, Worker, Act, wake, leave,
  take_up, used_up, join, joined, begin, finish, register, let_go, remove, Workers, Turn, turn,
  Arises,
}
use cs_network_proj.Server.Workers.Invariant.{IsTidy, Knows, Inv}
use cs_network_proj.Server.Workers.Handling.{mine}
use cs_network_proj.Server.Workers.Exclusion.{Arises-Inv}

-- The session of each connection that is open.
abbrev pub Pool : Type 0
Pool = ℕ → Option Session

abbrev pub SameBut : ℕ → Pool → Pool → Type 0
SameBut fd pool pool' = (u : ℕ) → u ≢ fd → pool' u ≡ pool u

module _ (os : Os) where
  -- What `onEvent` makes of a session, on some buffer and some state of the server.
  abbrev pub Leads : Session → Session → Type 0
  Leads s s' =
      (buffer : ByteBuffer) × (server : Server) × (left : State) × (w : os.World) × (w' : os.World)
      × (handle os (entered server buffer s) w ≡ done left w')
      × (s' ≡ detach_buffer left.session)

  -- A step of the server, or none.
  pub data Serve (pool pool' : Pool) : Type 0 where
    nothing : ((u : ℕ) → pool' u ≡ pool u) → Serve pool pool'
    opens :
        (socket : Socket)
        → pool socket.fd ≡ none
        → pool' socket.fd ≡ some (new_session socket)
        → SameBut socket.fd pool pool'
        → Serve pool pool'
    event :
        (fd : ℕ) (s s' : Session)
        → pool fd ≡ some s
        → IsTidy s
        → Leads s s'
        → pool' fd ≡ some s'
        → SameBut fd pool pool'
        → Serve pool pool'
    closes :
        (fd : ℕ) (s : Session)
        → pool fd ≡ some s
        → s.status ≡ ended
        → pool' fd ≡ none
        → SameBut fd pool pool'
        → Serve pool pool'

abbrev pub pool_of : ℕ → Reactor → Pool
pool_of listening m fd =
    if fd == listening then none else if m.alive fd then some (m.session fd) else none

module _ (listening : ℕ) (m : Reactor) (fd : ℕ) (far : fd ≢ listening) where
  elsewhere : (fd == listening) ≡ false
  elsewhere = ground arith

  pool_of_open : m.alive fd ≡ true → pool_of listening m fd ≡ some (m.session fd)
  pool_of_open here = rw (elsewhere, here) refl

  pool_of_closed : m.alive fd ≡ false → pool_of listening m fd ≡ none
  pool_of_closed here = rw (elsewhere, here) refl

-- Two states that agree on a connection.
pool_of-same :
    (listening : ℕ) (m m' : Reactor) (u : ℕ)
    → m'.alive u ≡ m.alive u
    → m'.session u ≡ m.session u
    → pool_of listening m' u ≡ pool_of listening m u
pool_of-same listening m m' u e f =
    ap₂ (λ b (s : Session). if u == listening then none else if b then some s else none) e f

module _ {os : Os} {registers : Registers os} {listening : ℕ} {m : Reactor} {workers : ℕ → Worker}
    (inv : Inv registers listening m workers) (t : ℕ) where
  open inv use {open_still, tidy}
  open registers use {enabled}

  Act-Serve :
      (buffer buffer' : ByteBuffer) (p q : Stage) (m' : Reactor)
      → events_of (workers t).stage ≡ events_of p
      → Knows listening m p
      → Act registers listening m buffer p m' q buffer'
      → Serve os (pool_of listening m) (pool_of listening m')
  Act-Serve buffer _ _ _ _ e k (wake events w w' on agree got) = nothing (λ u. refl)
  Act-Serve buffer _ _ _ _ e k (leave off) = nothing (λ u. refl)
  Act-Serve buffer _ _ _ _ e k take_up = nothing (λ u. refl)
  Act-Serve buffer _ _ _ _ e k used_up = nothing (λ u. refl)
  Act-Serve buffer _ _ _ _ e k (joined w w' none_left) = nothing (λ u. refl)
  Act-Serve buffer _ _ _ _ e k (begin far) = nothing (λ u. refl)
  Act-Serve buffer _ _ _ _ e k (register stays w w' agree ran) = nothing (λ u. refl)
  Act-Serve buffer _ _ _ _ e k let_go = nothing (λ u. refl)
  Act-Serve buffer _ _ _ _ e k (join socket ok u u' w w' got new agree added) =
      let far : socket.fd ≢ listening = λ same. cc (new, ap m.alive same, open_still) in
      let after = attached socket (enabled w') m in
      opens socket (pool_of_closed listening m socket.fd far new)
        (pool_of_open listening after socket.fd far (update_same m.alive socket.fd true)
          ∙ ap some (update_same m.session socket.fd (new_session socket)))
        λ u other.
          pool_of-same listening m after u (update_other m.alive socket.fd true u other)
            (update_other m.session socket.fd (new_session socket) u other)
  Act-Serve buffer _ _ _ _ e k (finish {fd} {s} {events} s' w w' ran) =
      let (far, same) = k in
      let (_, here) = mine inv t fd events far e in
      let after = handled fd s' m in
      let left = detach_buffer s'.session in
      event fd s left (pool_of_open listening m fd far here ∙ ap some (sym same))
        (subst IsTidy (sym same) (tidy fd far here)) (buffer, m.server, s', w, w', ran, refl)
        (pool_of_open listening after fd far here ∙ ap some (update_same m.session fd left))
        λ u other. pool_of-same listening m after u refl (update_other m.session fd left u other)
  Act-Serve buffer _ _ _ _ e k (remove {fd} {events}) =
      let (far, over) = k in
      let (_, here) = mine inv t fd events far e in
      let after : Reactor = record m { alive = update m.alive fd false } in
      closes fd (m.session fd) (pool_of_open listening m fd far here) over
        (pool_of_closed listening after fd far (update_same m.alive fd false))
        λ u other. pool_of-same listening m after u (update_other m.alive fd false u other) refl

-- Each step of the threads is a step of a server that handles one event at a time, or changes
-- nothing there: it opens a connection that was closed with a new session; or it handles one event
-- of one open connection, on the session as it is then, though the thread read it in an earlier
-- step, and stores what `handle` makes of it; or it closes a connection whose session has ended. The
-- system keeps the registrations as epoll(7) says.
pub Turn-Serve :
    {os : Os} {registers : Registers os} {listening n : ℕ} {server : Server} {session : ℕ → Session}
    {s s' : Workers registers listening}
    → Arises registers listening n server session s
    → Turn registers listening n s s'
    → Serve os (pool_of listening s.shared) (pool_of listening s'.shared)
Turn-Serve {listening = listening} {s = s} r (turn t {p} {q} {m} {buffer} {buffer'} lt here act) =
    let inv = Arises-Inv r in
    Act-Serve inv t buffer buffer' p q m (ap (λ (w : Worker). events_of w.stage) here)
      (subst (λ (w : Worker). Knows listening s.shared w.stage) here (inv.knows t)) act
