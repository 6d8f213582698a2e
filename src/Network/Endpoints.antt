-- ===== src/Network/Endpoints.antt =====
-- src/network/Socket.cpp: the making of a listening socket, and of one that is connected.
use cs_network_proj.Base.{ℕ, Option, none, some, List, ◌==◌, if◌then◌else◌}
use cs_network_proj.Base.Int.{ℤ, pos, negsuc}
use cs_network_proj.Base.Outcome.{done, Cmd}
use cs_network_proj.Os.{Os}
use cs_network_proj.Network.Socket.{Socket}

-- A socket, if a call that is made on it has not failed: `bind` with anything but 0, the others
-- with a negative number.
abbrev pub unless_negative : ℤ → Socket → Option Socket
unless_negative (pos n) socket = some socket
unless_negative (negsuc n) socket = none

module _ (os : Os) where
  open os use {World}

  abbrev pub listen_bound : ℕ → ℕ → ℤ → Cmd World (Option Socket)
  listen_bound fd queue (pos n) w =
      let (code, w') = os.listen w fd queue in
      if n == 0 then done (unless_negative code (record { fd = fd })) w' else done none w
  listen_bound fd queue (negsuc n) w = done none w

  abbrev pub listen_opened : ℕ → ℕ → ℤ → Cmd World (Option Socket)
  listen_opened port queue (pos fd) w =
      let (code, w') = os.bind w fd port in listen_bound fd queue code w'
  listen_opened port queue (negsuc n) w = done none w

  -- Socket::listen. A descriptor that is not used in the end is not closed.
  unfoldable pub listen : ℕ → ℕ → Cmd World (Option Socket)
  listen port queue w = let (fd, w') = os.socket w in listen_opened port queue fd w'

  abbrev pub connect_opened : List ℕ → ℕ → ℤ → Cmd World (Option Socket)
  connect_opened address port (pos fd) w =
      let (code, w') = os.connect w fd address port in
      done (unless_negative code (record { fd = fd })) w'
  connect_opened address port (negsuc n) w = done none w

  -- Socket::connect
  unfoldable pub connect : List ℕ → ℕ → Cmd World (Option Socket)
  connect address port w =
      let (fd, w') = os.socket w in
      if os.inet_aton address then connect_opened address port fd w' else done none w
