-- ===== src/Server/Workers.antt =====
-- Events.cpp: `EpollEventReceiverThread::run` of every thread of the pool, whose steps come in any
-- order; Server.cpp: the listeners that they run. The threads share the epoll, the listeners, and
-- the server. What is registered in the epoll is what the calls of `epoll_ctl` and `epoll_wait` leave
-- there; `onEvent` of a connection is several steps, between which other threads may do theirs. What
-- else the system does between two steps is not seen: the worlds of two steps agree only on the
-- registrations.
pub mod Registrations
pub mod Invariant
pub mod Handling
pub mod Waking
pub mod Steps
pub mod Turns
pub mod Exclusion
pub mod Sequential
use cs_network_proj.Base.{
  ℕ, ◌*◌, Option, ◌<◌, ◌≡◌, ◌≢◌, Bool, true, false, ◌||◌, some, none, List, [], ◌∷◌, update, ◌==◌,
  if◌then◌else◌,
}
use cs_network_proj.Base.Int.{ℤ}
use cs_network_proj.Base.Outcome.{done}
use cs_network_proj.Os.{Os, EpollFlag, epollin, epollet, epolloneshot}
use cs_network_proj.Util.ByteBuffer.{ByteBuffer, allocate}
use cs_network_proj.Network.Socket.{Socket}
use cs_network_proj.Server.Instance.{Server}
use cs_network_proj.Server.Epoll.{add_fd, succeeded, wait}
use cs_network_proj.Server.Session.State.{
  SessionStatus, Session, State, new_session, attach_buffer, detach_buffer, with_session,
}
use cs_network_proj.Server.Session.Handle.{handle}
use cs_network_proj.Server.Listeners.{one_shot, accept, rearm, shared_buffer}

-- The enabled registrations of the epoll, with their masks.
abbrev pub Registered : Type 0
Registered = ℕ → Option (List EpollFlag)

-- What the threads share: the server; the enabled registrations; the descriptors whose listener is
-- there; and the sessions of the listeners.
pub record Reactor : Type 0 where
  pub server : Server
  pub enabled : Registered
  pub alive : ℕ → Bool
  pub session : ℕ → Session

-- Where a thread stands: before the test of its loop, or with the events that are left of its
-- buffer. For one event, with those behind it: before `onEvent`; in `handle`, with the session as it
-- was read; behind `handle`; behind the registration, with whether the listener is kept. Returned.
pub data Stage : Type 0 where
  waiting : Stage
  batch : List ℕ → Stage
  handling : ℕ → List ℕ → Stage
  serving : ℕ → Session → List ℕ → Stage
  served : ℕ → List ℕ → Stage
  leaving : Bool → ℕ → List ℕ → Stage
  returned : Stage

-- The events that a thread still has, with the one that it handles: up to the registration, or to
-- the end of the listener if it is not kept.
abbrev pub events_of : Stage → List ℕ
events_of waiting = []
events_of (batch events) = events
events_of (handling fd events) = fd ∷ events
events_of (serving fd s events) = fd ∷ events
events_of (served fd events) = fd ∷ events
events_of (leaving true fd events) = events
events_of (leaving false fd events) = fd ∷ events
events_of returned = []

abbrev pub member : ℕ → List ℕ → Bool
member fd [] = false
member fd (x ∷ xs) = (fd == x) || member fd xs

abbrev pub AreDistinct : List ℕ → Type 0
AreDistinct [] = Unit {0}
AreDistinct (x ∷ xs) = (member x xs ≡ false) × AreDistinct xs

abbrev is_oneshot_flag : EpollFlag → Bool
is_oneshot_flag epolloneshot = true
is_oneshot_flag _ = false

-- Whether a mask has EPOLLONESHOT.
abbrev pub is_one_shot : List EpollFlag → Bool
is_one_shot [] = false
is_one_shot (flag ∷ mask) = is_oneshot_flag flag || is_one_shot mask

-- An event disables a registration exactly if its mask says so.
abbrev pub spent : Option (List EpollFlag) → Option (List EpollFlag)
spent none = none
spent (some mask) = if is_one_shot mask then none else some mask

-- epoll(7), of the one epoll of the process: `epoll_ctl` enables a registration with its mask, or
-- fails and changes none; `epoll_wait` delivers enabled registrations, each at most once.
pub record Registers (os : Os) : Type 0 where
  pub enabled : os.World → Registered
  pub modified :
      (w w' : os.World) (epoll code : ℤ) (fd : ℕ) (mask : List EpollFlag)
      → os.epoll_modify w epoll fd mask ≡ (code, w')
      → (x : ℕ)
      → enabled w' x ≡ (if succeeded code then update (enabled w) fd (some mask) x else enabled w x)
  pub added :
      (w w' : os.World) (epoll code : ℤ) (fd : ℕ) (mask : List EpollFlag)
      → os.epoll_add w epoll fd mask ≡ (code, w')
      → (x : ℕ)
      → enabled w' x ≡ (if succeeded code then update (enabled w) fd (some mask) x else enabled w x)
  pub delivered :
      (w w' : os.World) (epoll : ℤ) (most : ℕ) (events : List ℕ)
      → os.epoll_wait w epoll most ≡ (events, w')
      → AreDistinct events
        × ((x : ℕ) → member x events ≡ true → enabled w x ≢ none)
        × ((x : ℕ) → enabled w' x ≡ (if member x events then spent (enabled w x) else enabled w x))

-- ConnectionListener, made for a new connection: it stays where its registration is refused.
abbrev pub attached : Socket → Registered → Reactor → Reactor
attached socket registered m = record m {
  enabled = registered;
  alive = update m.alive socket.fd true;
  session = update m.session socket.fd (new_session socket);
}

-- What `handle` left, with the session detached from the thread's buffer.
abbrev pub handled : ℕ → State → Reactor → Reactor
handled fd s m = record m {
  server = s.server;
  session = update m.session fd (detach_buffer s.session);
}

-- The session as `onEvent` hands it on, with the buffer of the thread.
abbrev pub entered : Server → ByteBuffer → Session → State
entered server buffer s = record { session = attach_buffer buffer s; server = server }

-- The state in which a listener registers itself, under the descriptor that it has of its own.
abbrev pub own_state : ℕ → Reactor → State
own_state fd m = record {
  session = record (m.session fd) { conn_socket = record { fd = fd } };
  server = m.server;
}

-- A thread's own buffer, and where it stands.
pub record Worker : Type 0 where
  pub stage : Stage
  pub local_read_buffer : ByteBuffer

-- ServerThread::ServerThread
unfoldable pub new_worker : Worker
unfolding allocate
new_worker = record { stage = waiting; local_read_buffer = allocate [] (1024 * 64) }

module _ {os : Os} (registers : Registers os) where
  open os use {World}
  open registers use {enabled}

  -- A world in which the registrations are those that the threads have left.
  abbrev pub Agrees : World → Reactor → Type 0
  Agrees w m = (x : ℕ) → enabled w x ≡ m.enabled x

module _ {os : Os} (registers : Registers os) (listening : ℕ) where
  open os use {World}
  open registers use {enabled}

  -- One step of a thread with its buffer; `listening` is the descriptor of the server socket.
  pub data Act (m : Reactor) (buffer : ByteBuffer)
      : Stage → Reactor → Stage → ByteBuffer → Type 0 where
    wake :
        (events : List ℕ) (w w' : World)
        → m.server.active ≡ true
        → Agrees registers w m
        → wait os m.server.epoll w ≡ done events w'
        → Act m buffer waiting (record m { enabled = enabled w' }) (batch events) buffer
    leave : m.server.active ≡ false → Act m buffer waiting m returned buffer
    take_up :
        {fd : ℕ} {events : List ℕ}
        → Act m buffer (batch (fd ∷ events)) m (handling fd events) buffer
    used_up : Act m buffer (batch []) m waiting buffer
    -- A round of the accept loop: the system gives no descriptor that is open.
    join :
        {events : List ℕ} (socket : Socket) (ok : Bool) (u u' w w' : World)
        → accept os (record { fd = listening }) u ≡ done (some socket) u'
        → m.alive socket.fd ≡ false
        → Agrees registers w m
        → add_fd os m.server.epoll socket.fd (one_shot epollin) w ≡ done ok w'
        → Act m buffer
            (handling listening events)
            (attached socket (enabled w') m)
            (handling listening events)
            buffer
    joined :
        {events : List ℕ} (w w' : World)
        → accept os (record { fd = listening }) w ≡ done none w'
        → Act m buffer (handling listening events) m (batch events) buffer
    -- The parts of `onEvent` of a connection.
    begin :
        {fd : ℕ} {events : List ℕ}
        → fd ≢ listening
        → Act m buffer (handling fd events) m (serving fd (m.session fd) events) buffer
    finish :
        {fd : ℕ} {s : Session} {events : List ℕ} (s' : State) (w w' : World)
        → handle os (entered m.server buffer s) w ≡ done s' w'
        → Act m buffer
            (serving fd s events)
            (handled fd s' m)
            (served fd events)
            (shared_buffer buffer s'.read_buffer)
    register :
        {fd : ℕ} {events : List ℕ} (stays : Bool) (w w' : World)
        → Agrees registers w m
        → rearm os (m.session fd).status (own_state fd m) w ≡ done stays w'
        → Act m buffer
            (served fd events)
            (record m { enabled = enabled w' })
            (leaving stays fd events)
            buffer
    let_go :
        {fd : ℕ} {events : List ℕ} → Act m buffer (leaving true fd events) m (batch events) buffer
    remove :
        {fd : ℕ} {events : List ℕ}
        → Act m buffer
            (leaving false fd events)
            (record m { alive = update m.alive fd false })
            (batch events)
            buffer

  pub record Workers : Type 0 where
    pub shared : Reactor
    pub workers : ℕ → Worker

  -- A step of one of `n` threads.
  pub data Turn (n : ℕ) (s : Workers) : Workers → Type 0 where
    turn :
        (t : ℕ) {p q : Stage} {m : Reactor} {buffer buffer' : ByteBuffer}
        → t < n
        → s.workers t ≡ record { stage = p; local_read_buffer = buffer }
        → Act s.shared buffer p m q buffer'
        → Turn n s (record {
          shared = m;
          workers = update s.workers t (record { stage = q; local_read_buffer = buffer' });
        })

  -- The threads when they are started: the server socket is listened to.
  abbrev pub started : Server → (ℕ → Session) → Workers
  started server session = record {
    shared = record {
      server = server;
      enabled = λ fd. if fd == listening then some (epollin ∷ epollet ∷ []) else none;
      alive = λ fd. fd == listening;
      session = session;
    };
    workers = λ t. new_worker;
  }

  pub data Arises (n : ℕ) (server : Server) (session : ℕ → Session) : Workers → Type 0 where
    at_start : Arises n server session (started server session)
    after : {s s' : Workers} → Arises n server session s → Turn n s s' → Arises n server session s'
