-- ===== src/Server/Session/Writing/Progress.antt =====
-- What one call of `handleWriting` sends, and the state that it leaves.
use cs_network_proj.Base.{
  ℕ, zero, suc, ◌+◌, ◌-◌, ◌≤◌, ◌<◌, ◌≡◌, refl, sym, ap, ◌∙◌, ◌⊎◌, inl, inr, ◌++◌, none, some, arith,
  take, drop, append_assoc, append-nil, take-add, drop-drop, subst, ltb, ltb→lt, Bool-cases,
}
use cs_network_proj.Base.Outcome.{pure, Cmd, Ensures, Ensures-bind, Ensures-mono, and_then}
use cs_network_proj.Os.{Os, again, no_entry, other, WriteResult, wrote, write_failed, SendsFile}
use cs_network_proj.Util.File.{File}
use cs_network_proj.Network.Socket.{Socket}
use cs_network_proj.Server.Session.State.{
  reading, ended, FileProcess, State, then_status, with_session,
}
use cs_network_proj.Server.Session.Writing.{
  Sending, after_sendfile, send_loop, after_sending, handle_writing,
}

-- An answer of `sendfile` that ends a session: an error, or a connection that is closed.
abbrev pub IsBroken : WriteResult → Type 0
IsBroken (wrote zero) = Unit
IsBroken (wrote (suc n)) = ⊥
IsBroken (write_failed again) = ⊥
IsBroken (write_failed no_entry) = Unit
IsBroken (write_failed other) = Unit

-- The session with so many bytes of its file left.
abbrev pub with_rest : State → FileProcess → ℕ → State
with_rest s process left =
    with_session s (record s.session { file_process = some (record process { rest = left }) })

module _ (os : Os) (contract : SendsFile os) where
  open os use {World}
  open contract use {sent, unsent, moves, stays}

  -- Between two states `n` bytes of the file went to the socket.
  pub record HasMoved (out file : ℕ) (w : World) (n : ℕ) (w' : World) : Type 0 where
    pub grown : sent w' out ≡ sent w out ++ take n (unsent w file)
    pub eaten : unsent w' file ≡ drop n (unsent w file)

  HasMoved-zero :
      (out file : ℕ) (w w' : World)
      → sent w' out ≡ sent w out
      → unsent w' file ≡ unsent w file
      → HasMoved out file w 0 w'
  HasMoved-zero out file w w' e f = record { grown = e ∙ sym (append-nil (sent w out)); eaten = f }

  HasMoved-add :
      (out file m n : ℕ) (w v u : World)
      → HasMoved out file w m v
      → HasMoved out file v n u
      → HasMoved out file w (m + n) u
  HasMoved-add out file m n w v u first second = record {
    grown =
        second.grown
        ∙ ap (λ l. l ++ take n (unsent v file)) first.grown
        ∙ append_assoc (sent w out) (take m (unsent w file)) (take n (unsent v file))
        ∙ ap (λ l. sent w out ++ (take m (unsent w file) ++ take n l)) first.eaten
        ∙ ap (λ l. sent w out ++ l) (take-add m n (unsent w file));
    eaten = second.eaten ∙ ap (drop n) first.eaten ∙ drop-drop m n (unsent w file);
  }

  -- The last call of `sendfile` was for `count` bytes, and gave `r`.
  abbrev pub LastCall : ℕ → ℕ → ℕ → WriteResult → World → Type 0
  LastCall out file count r w' = (v : World) × (os.sendfile v out file count ≡ (r, w'))

  -- How much of `rest` the loop sent: all but what it says is left, or less if it was cut off.
  abbrev Amount : ℕ → ℕ → ℕ → Sending → ℕ → World → Type 0
  Amount out file rest none n w' =
      (n < rest) × ((r : WriteResult) × IsBroken r × LastCall out file (rest - n) r w')
  Amount out file rest (some zero) n w' = n ≡ rest
  Amount out file rest (some (suc left)) n w' =
      (suc left + n ≡ rest) × LastCall out file (suc left) (write_failed again) w'

  abbrev IsSent : ℕ → ℕ → World → ℕ → Sending → World → Type 0
  IsSent out file w rest sending w' =
      (n : ℕ) × Amount out file rest sending n w' × HasMoved out file w n w'

  Amount-add :
      (out file rest m n : ℕ) (sending : Sending) (w' : World)
      → m ≤ rest
      → Amount out file (rest - m) sending n w'
      → Amount out file rest sending (m + n) w'
  Amount-add out file rest m n none w' h (less, (r, broken, last)) =
      let e : rest - m - n ≡ rest - (m + n) = omega arith in
      (omega arith, (r, broken, subst (λ k. LastCall out file k r w') e last))
  Amount-add out file rest m n (some zero) w' h a = omega arith
  Amount-add out file rest m n (some (suc left)) w' h (e, last) = (omega arith, last)

  -- A call that ends the loop with nothing more sent.
  broken_call :
      (out file rest : ℕ) (w w' : World) (r : WriteResult)
      → os.sendfile w out file (suc rest) ≡ (r, w')
      → IsBroken r
      → (sent w' out ≡ sent w out) × (unsent w' file ≡ unsent w file)
      → IsSent out file w (suc rest) none w'
  broken_call out file rest w w' r q broken (e, f) =
      let all : suc rest ≡ suc rest - 0 = omega arith in
      let last = subst (λ k. LastCall out file k r w') all (w, q) in
      (0, (omega arith, (r, broken, last)), HasMoved-zero out file w w' e f)

  after_sendfile-IsSent :
      (out file rest : ℕ) (next : ℕ → Cmd World Sending) (w w' : World) (r : WriteResult)
      → os.sendfile w out file (suc rest) ≡ (r, w')
      → ((rest' : ℕ) → rest' < suc rest → Ensures (IsSent out file w' rest') (next rest' w'))
      → Ensures (IsSent out file w (suc rest)) (after_sendfile os next (suc rest) r w')
  after_sendfile-IsSent out file rest next w w' (write_failed again) q goes_on =
      let (e, f) = stays w w' out file (suc rest) again q in
      (0, (omega arith, (w, q)), HasMoved-zero out file w w' e f)
  after_sendfile-IsSent out file rest next w w' (write_failed no_entry) q goes_on =
      broken_call out file rest w w' _ q tt (stays w w' out file (suc rest) no_entry q)
  after_sendfile-IsSent out file rest next w w' (write_failed other) q goes_on =
      broken_call out file rest w w' _ q tt (stays w w' out file (suc rest) other q)
  after_sendfile-IsSent out file rest next w w' (wrote zero) q goes_on =
      let (most, e, f) = moves w w' out file (suc rest) 0 q in
      broken_call out file rest w w' _ q tt (e ∙ append-nil (sent w out), f)
  after_sendfile-IsSent out file rest next w w' (wrote (suc m)) q goes_on =
      let (most, e, f) = moves w w' out file (suc rest) (suc m) q in
      let first : HasMoved out file w (suc m) w' = record { grown = e; eaten = f } in
      elim (Bool-cases (ltb (suc rest) (suc m))) [
        | inl over ↦ absurd (omega (arith, ltb→lt (suc rest) (suc m) over))
        | inr fits ↦ rw fits (
            Ensures-mono (IsSent out file w' (suc rest - suc m)) (IsSent out file w (suc rest)) _
              (goes_on (suc rest - suc m) (omega arith))
              λ sending v (n, amount, second). (
                suc m + n,
                Amount-add out file (suc rest) (suc m) n sending v most amount,
                HasMoved-add out file (suc m) n w w' v first second,
              ))
      ]

  send_loop-IsSent :
      (fuel : ℕ) (socket : Socket) (file : File) (rest : ℕ) (w : World)
      → rest < fuel
      → Ensures (IsSent socket.fd file.file w rest) (send_loop os fuel socket file rest w)
  unfolding send_loop
  send_loop-IsSent zero socket file rest w h = absurd (omega arith)
  send_loop-IsSent (suc fuel) socket file zero w h =
      (0, omega arith, HasMoved-zero socket.fd file.file w w refl refl)
  send_loop-IsSent (suc fuel) socket file (suc rest) w h =
      after_sendfile-IsSent socket.fd file.file rest (send_loop os fuel socket file) w _ _ refl
        (λ rest' less. send_loop-IsSent fuel socket file rest' _ (omega arith))

  -- The state that a call leaves, of a session that sends `process`, once `n` bytes are sent. The
  -- last call of `sendfile` says why the others are not.
  abbrev pub Left : State → FileProcess → ℕ → State → World → Type 0
  Left s process n s' w' =
      ((n ≡ process.rest) × (s' ≡ then_status reading s))
      ⊎ ((n < process.rest)
          × (s' ≡ with_rest s process (process.rest - n))
          × LastCall s.conn_socket.fd process.file.file (process.rest - n) (write_failed again) w')
      ⊎ ((n < process.rest)
          × (s' ≡ then_status ended s)
          × ((r : WriteResult) × IsBroken r
              × LastCall s.conn_socket.fd process.file.file (process.rest - n) r w'))

  after_sending-Left :
      (s : State) (process : FileProcess) (n : ℕ) (sending : Sending) (w' : World)
      → Amount s.conn_socket.fd process.file.file process.rest sending n w'
      → Left s process n (after_sending process s sending) w'
  after_sending-Left s process n none w' (less, why) = inr (inr (less, refl, why))
  after_sending-Left s process n (some zero) w' a = inl (omega arith, refl)
  after_sending-Left s process n (some (suc left)) w' (a, last) =
      let e : suc left ≡ process.rest - n = omega arith in
      inr (
        inl (
          omega arith,
          ap (with_rest s process) e,
          subst (λ k. LastCall s.conn_socket.fd process.file.file k (write_failed again) w') e last,
        ))

  handle_writing-send_loop :
      (s : State) (process : FileProcess) (w : World)
      → s.file_process ≡ some process
      → handle_writing os s w
        ≡ and_then
            (send_loop os (suc process.rest) s.conn_socket process.file process.rest w)
            (λ sending. pure (after_sending process s sending))
  unfolding handle_writing
  handle_writing-send_loop s process w e = simp e

  -- `handleWriting` of a session with a file returns, and moves the next bytes of the file to the
  -- socket. It turns to reading when the last of them is sent, notes how many are left when the
  -- last call of `sendfile` said that the socket is full, and ends the session when that call
  -- failed in another way or found the connection closed.
  pub handle_writing-Left :
      (s : State) (process : FileProcess) (w : World)
      → s.file_process ≡ some process
      → Ensures
          (λ s' w'.
            (n : ℕ) × Left s process n s' w' × HasMoved s.conn_socket.fd process.file.file w n w')
          (handle_writing os s w)
  handle_writing-Left s process w e = rw (handle_writing-send_loop s process w e) (
      Ensures-bind (IsSent s.conn_socket.fd process.file.file w process.rest) _ _ _
        (send_loop-IsSent (suc process.rest) s.conn_socket process.file process.rest w
          (omega arith))
        λ sending w' (n, amount, moved).
          (n, after_sending-Left s process n sending w' amount, moved))
