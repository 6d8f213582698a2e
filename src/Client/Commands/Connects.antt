-- ===== src/Client/Commands/Connects.antt =====
-- What the client does about a connection that cannot be made.
use cs_network_proj.Base.{ℕ, ◌≡◌, refl, Bool-cases, inl, inr, Option, none, some, List}
use cs_network_proj.Base.Int.{ℤ, pos, negsuc}
use cs_network_proj.Base.Outcome.{Ensures, Settles, Settles-next}
use cs_network_proj.Os.{Os}
use cs_network_proj.Network.Socket.{Socket}
use cs_network_proj.Network.Endpoints.{connect_opened, connect}
use cs_network_proj.Client.Commands.{Client, with_socket, connect_server}

module _ (os : Os) where
  open os use {World}

  -- The client with a socket, and else as it was.
  abbrev pub IsConnected : Client → Client → World → Type 0
  IsConnected client client' w =
      (socket : Socket) × (client' ≡ record client { socket = some socket })

  connect_opened-returns :
      (address : List ℕ) (port : ℕ) (fd : ℤ) (w : World)
      → Ensures (λ _ _. Unit) (connect_opened os address port fd w)
  connect_opened-returns address port (pos fd) w = tt
  connect_opened-returns address port (negsuc n) w = tt

  connect-returns :
      (address : List ℕ) (port : ℕ) (w : World) → Ensures (λ _ _. Unit) (connect os address port w)
  unfolding connect
  connect-returns address port w = elim (Bool-cases (os.inet_aton address)) [
    | inl e ↦ rw e (connect_opened-returns address port _ _)
    | inr e ↦ rw e tt
  ]

  with_socket-IsConnected :
      (client : Client) (socket : Option Socket) (w : World)
      → Settles (IsConnected client) (with_socket os client socket w)
  with_socket-IsConnected client none w = refl
  with_socket-IsConnected client (some socket) w = (socket, refl)

  -- `connect` returns with a connected client, or it aborts the process.
  pub connect_server-IsConnected :
      (client : Client) (w : World) → Settles (IsConnected client) (connect_server os client w)
  unfolding connect_server
  connect_server-IsConnected client w =
      Settles-next (λ _ _. Unit) (IsConnected client)
        (connect os client.srv_address client.srv_port w) (with_socket os client)
        (connect-returns client.srv_address client.srv_port w)
        λ socket v _. with_socket-IsConnected client socket v
