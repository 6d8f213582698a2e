-- ===== src/Server/Startup.antt =====
-- Server.cpp: `init` and `start` of the server.
pub mod Ready
use cs_network_proj.Base.{
  ℕ, Bool, true, false, Option, none, some, List, [], ◌∷◌, get_elem?, codes, if◌then◌else◌,
}
use cs_network_proj.Base.Outcome.{aborted, done, exited, Cmd, pure, deref, ◌>>=◌, ◌>>◌}
use cs_network_proj.Os.{Os, epollin, epollet}
use cs_network_proj.Network.Socket.{Socket}
use cs_network_proj.Network.Endpoints.{listen}
use cs_network_proj.Server.Instance.{Epoll, Server}
use cs_network_proj.Server.Epoll.{new_epoll, init, add_fd}
use cs_network_proj.Server.ThreadPool.{Thread, pool_size, new_pool, start_all, join_thread}
use cs_network_proj.Server.Listeners.{set_non_blocking}

module _ (os : Os) where
  open os use {World}

  abbrev pub with_pool : Server → Epoll → Cmd World Server
  with_pool s epoll = do
    n ← pool_size s.thread_num
    pure (record s { epoll = epoll; threads = new_pool (codes "SeverThread") n })

  abbrev pub watch_socket : Server → Socket → Bool × Epoll → Cmd World Server
  watch_socket s socket (false, epoll) w = exited aborted
  watch_socket s socket (true, epoll) w =
      (do
        added ← add_fd os epoll socket.fd (epollin ∷ epollet ∷ [])
        if added then with_pool s epoll else (λ w'. exited aborted))
        w

  abbrev pub init_listening : Server → Option Socket → Cmd World Server
  init_listening s none w = exited 1
  init_listening s (some socket) w =
      (do set_non_blocking os socket; made ← init os new_epoll; watch_socket s socket made) w

  -- Server::init
  unfoldable pub init_server : Server → Cmd World Server
  unfolding listen set_non_blocking init add_fd new_pool
  init_server s = do socket ← listen os s.port s.max_listen_queue; init_listening s socket

  abbrev pub join_first : Server → Bool × List Thread → Cmd World Server
  join_first s (false, threads) w = exited 1
  join_first s (true, threads) w =
      (do
        first ← deref (get_elem? threads 0)
        _ ← join_thread os first
        pure (record s { threads = threads }))
        w

  -- Server::start: start every thread of the pool, and wait for the first of them.
  unfoldable pub start_server : Server → Cmd World Server
  unfolding start_all join_thread
  start_server s = do started ← start_all os s.threads; join_first s started
