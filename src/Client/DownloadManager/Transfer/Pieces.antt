-- ===== src/Client/DownloadManager/Transfer/Pieces.antt =====
-- What one write of the destination, and one round of a transfer, leave behind.
use cs_network_proj.Base.{
  ℕ, ◌+◌, ◌-◌, ◌^◌, ◌≤◌, ◌<◌, ◌≡◌, ◌≢◌, refl, sym, ap, ◌∙◌, ◌⊎◌, inl, Option, none, some, ◌++◌,
  arith, length, take, drop, take-add, append_assoc, append-nil, u64,
}
use cs_network_proj.Os.{Os, WriteResult, wrote, write_failed, ReadsStream, WritesStream}
use cs_network_proj.Util.ByteBuffer.{ByteBuffer}
use cs_network_proj.Util.File.{File}
use cs_network_proj.Network.Socket.{Socket}
use cs_network_proj.Client.DownloadManager.Transfer.{Transfer, close_connection, received}

-- The resume file is another file than the destination.
abbrev pub AreApart : File → Option File → Type 0
AreApart dest none = Unit
AreApart dest (some part_file) = part_file.file ≢ dest.file

module _ (os : Os) (reads : ReadsStream os) (writes : WritesStream os) where
  open os use {World}
  open reads use {pending}
  open writes use {sent}

  -- Neither the stream of the connection nor the destination has moved.
  abbrev pub IsQuiet : ℕ → ℕ → World → World → Type 0
  IsQuiet conn dest w w' = (pending w' conn ≡ pending w conn) × (sent w' dest ≡ sent w dest)

  -- What one write put behind the destination; the connection has not moved.
  abbrev pub IsPut : ℕ → ℕ → ℕ → ByteBuffer → World → WriteResult → World → Type 0
  IsPut conn dest n buffer w (wrote m) w' =
      (pending w' conn ≡ pending w conn) × (sent w' dest ≡ sent w dest ++ take m (take n buffer))
  IsPut conn dest n buffer w (write_failed e) w' = Unit

  -- From one state to another, `k` bytes of the connection went behind the destination. What is
  -- left of the part is less by as many, the progress is more by as many, and the connection is
  -- closed, or it is kept and nothing of the part is left.
  pub record IsMoved (conn dest : ℕ) (t : Transfer) (w : World) (k : ℕ) (t' : Transfer) (w' : World)
      : Type 0 where
    pub within : k ≤ t.part.rest
    pub left : t'.part ≡ record t.part { rest = t.part.rest - k }
    pub progress : t'.total_progress ≡ t.total_progress + k
    pub stored : sent w' dest ≡ sent w dest ++ take k (pending w conn)
    pub capacity : length t'.read_buffer ≡ length t.read_buffer
    pub ends : (t'.conn_socket ≡ none) ⊎ ((t'.conn_socket ≡ t.conn_socket) × (t'.part.rest ≡ 0))

  abbrev pub IsTransferred : ℕ → ℕ → Transfer → World → Transfer → World → Type 0
  IsTransferred conn dest t w t' w' = (k : ℕ) × IsMoved conn dest t w k t' w'

  -- What a transfer wants: a connection whose stream is at most the rest of the part, a buffer that
  -- can take it, and a progress that does not wrap round.
  pub record IsReady (socket : Socket) (t : Transfer) (w : World) : Type 0 where
    pub connected : t.conn_socket ≡ some socket
    pub bounded : length (pending w socket.fd) ≤ t.part.rest
    pub room : t.part.rest ≤ length t.read_buffer
    pub small : t.total_progress + t.part.rest < 2 ^ 64

  pub closed-IsMoved :
      (conn dest : ℕ) (t : Transfer) (buffer : ByteBuffer) (w w' : World)
      → length buffer ≡ length t.read_buffer
      → sent w' dest ≡ sent w dest
      → IsMoved conn dest t w 0 (close_connection t buffer) w'
  closed-IsMoved conn dest t buffer w w' same e = record {
    within = omega arith;
    left = ap (λ n. record t.part { rest = n }) (omega arith);
    progress = omega arith;
    stored = e ∙ sym (append-nil (sent w dest));
    capacity = same;
    ends = inl refl;
  }

  -- The first `n` bytes that a read left in the buffer, when it was written and recorded.
  abbrev pub received_lem : Transfer → ByteBuffer → ℕ → Transfer
  received_lem t buffer n = record t {
    part = record t.part { rest = t.part.rest - n };
    total_progress = t.total_progress + n;
    read_buffer = buffer;
  }

  pub received-exact :
      (t : Transfer) (buffer : ByteBuffer) (n : ℕ)
      → n ≤ t.part.rest
      → t.total_progress + t.part.rest < 2 ^ 64
      → received t buffer n ≡ received_lem t buffer n
  received-exact t buffer n h k =
      let rest : u64 (t.part.rest + 2 ^ 64 - n) ≡ t.part.rest - n = omega arith in
      let progress : u64 (t.total_progress + n) ≡ t.total_progress + n = omega arith in
      rw (rest, progress) refl

  pub IsMoved-add :
      (conn dest : ℕ) (t : Transfer) (buffer : ByteBuffer) (n k : ℕ) (w v : World) (t' : Transfer)
      (w' : World)
      → n ≤ t.part.rest
      → length buffer ≡ length t.read_buffer
      → sent v dest ≡ sent w dest ++ take n (pending w conn)
      → pending v conn ≡ drop n (pending w conn)
      → IsMoved conn dest (received_lem t buffer n) v k t' w'
      → IsMoved conn dest t w (n + k) t' w'
  IsMoved-add conn dest t buffer n k w v t' w' h same put eaten m =
      let rest : t.part.rest - n - k ≡ t.part.rest - (n + k) = omega arith in
      record {
        within = omega (arith, m.within);
        left = m.left ∙ ap (λ x. record t.part { rest = x }) rest;
        progress = omega (arith, m.progress);
        stored =
            m.stored
            ∙ ap (λ l. l ++ take k (pending v conn)) put
            ∙ append_assoc (sent w dest) (take n (pending w conn)) (take k (pending v conn))
            ∙ ap (λ l. sent w dest ++ (take n (pending w conn) ++ take k l)) eaten
            ∙ ap (λ l. sent w dest ++ l) (take-add n k (pending w conn));
        capacity = m.capacity ∙ same;
        ends = m.ends;
      }
