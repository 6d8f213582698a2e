-- ===== src/Server/Listeners/Accepting.antt =====
-- The loop over the connections that wait on the server socket.
use cs_network_proj.Base.{
  ℕ, zero, suc, ◌+◌, ◌≤◌, ◌<◌, ◌≡◌, ◌≢◌, refl, sym, ◌∙◌, ◌⊎◌, inl, inr, Bool, true, false, List, [],
  ◌∷◌, ◌++◌, arith, length, append-nil, append_assoc, if◌then◌else◌,
}
use cs_network_proj.Base.Outcome.{Cmd, Ensures, Ensures-mono}
use cs_network_proj.Os.{
  Os, Errno, again, no_entry, other, AcceptResult, accepted, accept_failed, epollin, AcceptsQueue,
}
use cs_network_proj.Network.Socket.{Socket}
use cs_network_proj.Server.Instance.{Epoll}
use cs_network_proj.Server.Epoll.{add_fd, succeeded}
use cs_network_proj.Server.Listeners.{
  one_shot, socket_of, after_accept, accept_loop, set_non_blocking,
}

module _ (os : Os) (queue : AcceptsQueue os) where
  open os use {World}
  open queue use {waiting, takes_one, none_left, fails, unblocked, added}

  -- No connection waits, or `accept` failed for another reason.
  abbrev pub IsDrained : ℕ → World → Type 0
  IsDrained fd w =
      (waiting w fd ≡ 0)
      ⊎ ((v : World) × (e : Errno) × (e ≢ again) × (os.accept v fd ≡ (accept_failed e, w)))

  -- The sockets that joined, at most as many as were taken off the queue.
  abbrev pub IsAccepted : ℕ → World → List Socket → List Socket → World → Type 0
  IsAccepted fd w sockets sockets' w' =
      ((more : List Socket) × (sockets' ≡ sockets ++ more)
        × (length more + waiting w' fd ≤ waiting w fd))
      × IsDrained fd w'

  IsAccepted-none :
      (fd : ℕ) (w w' : World) (sockets : List Socket)
      → waiting w' fd ≤ waiting w fd
      → IsDrained fd w'
      → IsAccepted fd w sockets sockets w'
  IsAccepted-none fd w w' sockets fewer drained =
      (([], sym (append-nil sockets), omega arith), drained)

  -- A round that took a connection, and those behind it.
  IsAccepted-next :
      (fd : ℕ) (w v w' : World) (sockets sockets' : List Socket) (socket : Socket) (joins : Bool)
      → waiting w fd ≡ 1 + waiting v fd
      → IsAccepted fd v (if joins then sockets ++ socket ∷ [] else sockets) sockets' w'
      → IsAccepted fd w sockets sockets' w'
  IsAccepted-next fd w v w' sockets sockets' socket true e ((more, parts, fewer), drained) =
      ((socket ∷ more, parts ∙ append_assoc sockets (socket ∷ []) more, omega arith), drained)
  IsAccepted-next fd w v w' sockets sockets' socket false e ((more, parts, fewer), drained) =
      ((more, parts, omega arith), drained)

  after_accept-IsAccepted :
      (fd : ℕ) (next : List Socket → Cmd World (List Socket)) (epoll : Epoll)
      (sockets : List Socket) (w w' : World) (r : AcceptResult)
      → os.accept w fd ≡ (r, w')
      → ((v : World) (sockets' : List Socket)
          → waiting w fd ≡ 1 + waiting v fd
          → Ensures (IsAccepted fd v sockets') (next sockets' v))
      → Ensures (IsAccepted fd w sockets) (after_accept os next epoll sockets (socket_of os r) w')
  unfolding add_fd set_non_blocking
  after_accept-IsAccepted fd next epoll sockets w w' (accept_failed again) q goes_on =
      let fewer = fails w w' fd again q in
      let empty = none_left w w' fd q in IsAccepted-none fd w w' sockets fewer (inl (omega arith))
  after_accept-IsAccepted fd next epoll sockets w w' (accept_failed no_entry) q goes_on =
      IsAccepted-none fd w w' sockets (fails w w' fd no_entry q) (inr (w, no_entry, cc, q))
  after_accept-IsAccepted fd next epoll sockets w w' (accept_failed other) q goes_on =
      IsAccepted-none fd w w' sockets (fails w w' fd other q) (inr (w, other, cc, q))
  after_accept-IsAccepted fd next epoll sockets w w' (accepted c) q goes_on =
      let socket : Socket = record { fd = c } in
      let v = os.set_non_blocking w' c in
      let (code, u) = os.epoll_add v epoll.fd c (one_shot epollin) in
      let e : waiting w fd ≡ 1 + waiting u fd = omega (
        arith,
        takes_one w w' fd c q,
        unblocked w' fd c,
        added v u fd c epoll.fd code (one_shot epollin) refl,
      ) in
      Ensures-mono (IsAccepted fd u (if succeeded code then sockets ++ socket ∷ [] else sockets))
        (IsAccepted fd w sockets) _
        (goes_on u (if succeeded code then sockets ++ socket ∷ [] else sockets) e)
        (λ sockets' w'' done_so.
          IsAccepted-next fd w u w'' sockets sockets' socket (succeeded code) e done_so)

  -- With more rounds than connections wait, the loop returns. It has then taken every connection
  -- that waited, unless `accept` failed for another reason than that there is none, and it has
  -- added to those that are listened to, behind the others, no more than it took.
  pub accept_loop-IsAccepted :
      (fuel : ℕ) (server : Socket) (epoll : Epoll) (sockets : List Socket) (w : World)
      → waiting w server.fd < fuel
      → Ensures (IsAccepted server.fd w sockets) (accept_loop os fuel server epoll sockets w)
  unfolding accept_loop
  accept_loop-IsAccepted zero server epoll sockets w h = absurd (omega arith)
  accept_loop-IsAccepted (suc fuel) server epoll sockets w h =
      after_accept-IsAccepted server.fd (accept_loop os fuel server epoll) epoll sockets w _ _ refl
        λ v sockets' e. accept_loop-IsAccepted fuel server epoll sockets' v (omega arith)
