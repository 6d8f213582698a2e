-- ===== src/Server/Startup/Ready.antt =====
-- What `init` leaves, or how it ends the process.
use cs_network_proj.Base.{
  ◌==◌, ℕ, zero, suc, ◌+◌, ◌≡◌, refl, sym, ap, ◌∙◌, ◌⊎◌, inl, inr, Option, none, some, List, [],
  ◌∷◌, length, All, Bool-cases, codes,
}
use cs_network_proj.Base.Int.{ℤ, pos, negsuc}
use cs_network_proj.Base.Outcome.{aborted, Outcome, done, fault, exited, stuck, and_then, pure}
use cs_network_proj.Os.{Os, epollin, epollet}
use cs_network_proj.Network.Socket.{Socket}
use cs_network_proj.Network.Endpoints.{listen, listen_opened, listen_bound, unless_negative}
use cs_network_proj.Server.Instance.{Epoll, Server}
use cs_network_proj.Server.Epoll.{init, add_fd, succeeded}
use cs_network_proj.Server.ThreadPool.{pool_from, new_pool, pool_size}
use cs_network_proj.Server.Listeners.{set_non_blocking}
use cs_network_proj.Server.Startup.{watch_socket, init_listening, init_server}

-- A pool of so many threads, none of which has started; an epoll; the rest as it was.
abbrev pub IsReady : Server → Server → Type 0
IsReady s s' =
    (s.thread_num ≡ pos (length s'.threads))
    × All (λ t. t.handle ≡ 0) s'.threads
    × ((fd : ℕ) × (s'.epoll.fd ≡ pos fd))
    × (s'.active ≡ s.active)
    × (s'.port ≡ s.port)

-- The server is ready, or the process has ended; nothing is undefined, and no loop is left.
abbrev pub ReadyOrExited : {W : Type 0} → Server → Outcome W Server → Type 0
ReadyOrExited s (done s' w) = IsReady s s'
ReadyOrExited s fault = ⊥
ReadyOrExited s (exited n) = (n ≡ 1) ⊎ (n ≡ aborted)
ReadyOrExited s stuck = ⊥

pool_from-All :
    (name : List ℕ) (i n : ℕ)
    → (length (pool_from name i n) ≡ n) × All (λ t. t.handle ≡ 0) (pool_from name i n)
unfolding pool_from
pool_from-All name i zero = (refl, tt)
pool_from-All name i (suc n) =
    let (e, all) = pool_from-All name (i + 1) n in (ap suc e, (refl, all))

module _ (os : Os) where
  open os use {World}

  with_pool-Ready :
      (s : Server) (count : ℤ) (e : Epoll) (w : World) (fd : ℕ)
      → s.thread_num ≡ count
      → e.fd ≡ pos fd
      → ReadyOrExited s (
          and_then
            (pool_size count w)
            (λ n. pure (record s { epoll = e; threads = new_pool (codes "SeverThread") n })))
  unfolding new_pool
  with_pool-Ready s (negsuc n) e w fd h k = inr refl
  with_pool-Ready s (pos n) e w fd h k =
      let (count, all) = pool_from-All (codes "SeverThread") 0 n in
      (h ∙ ap pos (sym count), all, (fd, k), refl, refl)

  watch_socket-Ready :
      (s : Server) (socket : Socket) (fd : ℤ) (e : Epoll) (w : World)
      → e.fd ≡ fd
      → ReadyOrExited s (watch_socket os s socket (succeeded fd, e) w)
  unfolding add_fd new_pool
  watch_socket-Ready s socket (negsuc n) e w h = inr refl
  watch_socket-Ready s socket (pos fd) e w h =
      elim (Bool-cases (succeeded (os.epoll_add w e.fd socket.fd (epollin ∷ epollet ∷ [])).0)) [
        | inl good ↦ rw good (with_pool-Ready s s.thread_num e _ fd refl h)
        | inr bad ↦ rw bad (inr refl)
      ]

  init_listening-Ready :
      (s : Server) (socket : Option Socket) (w : World)
      → ReadyOrExited s (init_listening os s socket w)
  unfolding set_non_blocking init
  init_listening-Ready s none w = inl refl
  init_listening-Ready s (some socket) w = watch_socket-Ready s socket _ _ _ refl

  -- `listen` always returns.
  Returns : Outcome World (Option Socket) → Type 0
  Returns r = (socket : Option Socket) × (w : World) × (r ≡ done socket w)

  listen_bound-Returns :
      (fd queue : ℕ) (code : ℤ) (w : World) → Returns (listen_bound os fd queue code w)
  unfolding Returns
  listen_bound-Returns fd queue (negsuc n) w = (none, w, refl)
  listen_bound-Returns fd queue (pos n) w =
      let (code, w') = os.listen w fd queue in
      elim (Bool-cases (n == 0)) [
        | inl good ↦ rw good (unless_negative code (record { fd = fd }), w', refl)
        | inr bad ↦ rw bad (none, w, refl)
      ]

  listen_opened-Returns :
      (port queue : ℕ) (fd : ℤ) (w : World) → Returns (listen_opened os port queue fd w)
  unfolding Returns
  listen_opened-Returns port queue (negsuc n) w = (none, w, refl)
  listen_opened-Returns port queue (pos fd) w =
      let (code, w') = os.bind w fd port in listen_bound-Returns fd queue code w'

  -- `Server::init` comes to an end. If it returns, the server has an epoll and a pool of the
  -- configured size whose threads have not started; else it has ended the process.
  pub init_server-ReadyOrExited : (s : Server) (w : World) → ReadyOrExited s (init_server os s w)
  unfolding init_server listen Returns
  init_server-ReadyOrExited s w =
      let (fd, v) = os.socket w in
      let (socket, w', ran) = listen_opened-Returns s.port s.max_listen_queue fd v in
      rw ran (init_listening-Ready s socket w')
