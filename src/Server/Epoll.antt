-- ===== src/Server/Epoll.antt =====
-- src/server/Epoll.h and Epoll.cpp, and how Events.cpp registers a listener. The pointer that
-- goes with a registration is the listener of its descriptor.
use cs_network_proj.Base.{ℕ, Bool, true, false, List}
use cs_network_proj.Base.Int.{ℤ, pos, negsuc}
use cs_network_proj.Base.Outcome.{done, Cmd}
use cs_network_proj.Os.{Os, EpollFlag}
use cs_network_proj.Server.Instance.{Epoll}

abbrev pub new_epoll : Epoll
new_epoll = record { fd = negsuc 0; max_events = 64 }

-- The test `>= 0` of a result.
abbrev pub succeeded : ℤ → Bool
succeeded (pos n) = true
succeeded (negsuc n) = false

module _ (os : Os) where
  open os use {World}

  unfoldable pub init : Epoll → Cmd World (Bool × Epoll)
  init e w = let (fd, w') = os.epoll_create w in done (succeeded fd, record e { fd = fd }) w'

  unfoldable pub add_fd : Epoll → ℕ → List EpollFlag → Cmd World Bool
  add_fd e fd events w = let (code, w') = os.epoll_add w e.fd fd events in done (succeeded code) w'

  unfoldable pub modify_fd : Epoll → ℕ → List EpollFlag → Cmd World Bool
  modify_fd e fd events w =
      let (code, w') = os.epoll_modify w e.fd fd events in done (succeeded code) w'

  unfoldable pub wait : Epoll → Cmd World (List ℕ)
  wait e w = let (events, w') = os.epoll_wait w e.fd e.max_events in done events w'
