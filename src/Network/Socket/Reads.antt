-- ===== src/Network/Socket/Reads.antt =====
-- What `Socket::read` returns and stores.
use cs_network_proj.Base.{
  ℕ, zero, suc, ◌+◌, ◌-◌, ◌≤◌, ◌<◌, ◌≡◌, ◌≢◌, refl, sym, ap, subst, ◌⊎◌, inl, inr, ◌∙◌, List, [],
  ◌∷◌, ◌++◌, arith, length, take, drop, min, length-append, length-take, length-drop,
  take-append_length, append_assoc,
}
use cs_network_proj.Base.Int.{ℤ, pos, negsuc}
use cs_network_proj.Base.Outcome.{stuck, Cmd, Ensures}
use cs_network_proj.Os.{Os, ReadResult, got, read_failed, ReadsAtMost, ReadsStream}
use cs_network_proj.Util.ByteBuffer.{ByteBuffer}
use cs_network_proj.Network.Memory.{overlay}
use cs_network_proj.Network.Socket.{Socket, read_unit, after_read, read_loop, read, effective_limit}

pub length-overlay :
    (buffer : ByteBuffer) (at : ℕ) (block : List ℕ)
    → at + length block ≤ length buffer
    → length (overlay buffer at block) ≡ length buffer
length-overlay buffer at block fits = omega (
  arith,
  length-append (take at buffer) (block ++ drop (at + length block) buffer),
  length-append block (drop (at + length block) buffer),
  length-take at buffer,
  length-drop (at + length block) buffer,
)

pub take-overlay :
    (buffer : ByteBuffer) (at : ℕ) (block : List ℕ)
    → at + length block ≤ length buffer
    → take (at + length block) (overlay buffer at block) ≡ take at buffer ++ block
take-overlay buffer at block fits = rw (← append_assoc) (
    take-append_length _ (take at buffer ++ block) _
      (omega (arith, length-append (take at buffer) block, length-take at buffer)))

module _ (os : Os) where
  open os use {World}

  after_read-ne-stuck :
      (limit : ℕ) (next : ByteBuffer → ℕ → Cmd World (ℤ × ByteBuffer)) (buffer : ByteBuffer) (n : ℕ)
      (r : ReadResult) (w : World)
      → ((buffer' : ByteBuffer) (n' : ℕ) → n < n' → n' < limit → next buffer' n' w ≢ stuck)
      → after_read os limit next buffer n r w ≢ stuck
  after_read-ne-stuck limit next buffer n (read_failed e) w goes_on q = cc
  after_read-ne-stuck limit next buffer n (got []) w goes_on q = cc
  after_read-ne-stuck limit next buffer n (got (b ∷ bs)) w goes_on q =
      ground (arith, goes_on (overlay buffer n (b ∷ bs)) (n + length (b ∷ bs)))

  -- Each round that goes on has stored a byte, and there are enough rounds.
  read_loop-ne-stuck :
      (fuel : ℕ) (socket : Socket) (limit : ℕ) (buffer : ByteBuffer) (n : ℕ) (w : World)
      → limit < fuel + n
      → n ≤ limit
      → read_loop os fuel socket limit buffer n w ≢ stuck
  unfolding read_loop
  read_loop-ne-stuck zero socket limit buffer n w h k = absurd (omega arith)
  read_loop-ne-stuck (suc fuel) socket limit buffer n w h k =
      after_read-ne-stuck limit (read_loop os fuel socket limit) buffer n _ _
        λ buffer' n' grows below.
          read_loop-ne-stuck fuel socket limit buffer' n' _ (omega arith) (omega arith)

  -- `Socket::read` ends on every answer of the system.
  pub read-ne-stuck :
      (socket : Socket) (buffer : ByteBuffer) (limit : ℕ) (w : World)
      → read os socket buffer limit w ≢ stuck
  unfolding read
  read-ne-stuck socket buffer limit w =
      let limit' = effective_limit buffer limit in
      read_loop-ne-stuck (suc limit') socket limit' buffer 0 w (omega arith) (omega arith)

module _ (os : Os) (short : ReadsAtMost os) (stream : ReadsStream os) where
  open os use {World}
  open short use {at_most}
  open stream use {pending, takes, keeps}

  -- Of a count `n`: it is within the buffer, which starts with the next `n` bytes of the stream. The loop asks for
  -- up to `min limit read_unit` bytes in its last round too, and so may pass `limit`.
  abbrev pub Stored : List ℕ → ℕ → ℕ → ByteBuffer → World → ℤ → Type 0
  Stored before fd limit buffer w (pos n) =
      (n ≤ limit + min limit read_unit - 1)
      × (n ≤ length buffer)
      × (before ≡ take n buffer ++ pending w fd)
  Stored before fd limit buffer w (negsuc k) = k ≡ 0

  -- The outcome of a read into a buffer of `capacity` bytes.
  abbrev pub IsRead : List ℕ → ℕ → ℕ → ℕ → ℤ × ByteBuffer → World → Type 0
  IsRead before fd limit capacity result w =
      (length result.1 ≡ capacity) × Stored before fd limit result.1 w result.0

  Stored-next :
      (before : List ℕ) (fd n : ℕ) (buffer : ByteBuffer) (w w' : World) (block : List ℕ)
      → before ≡ take n buffer ++ pending w fd
      → pending w fd ≡ block ++ pending w' fd
      → n + length block ≤ length buffer
      → before ≡ take (n + length block) (overlay buffer n block) ++ pending w' fd
  Stored-next before fd n buffer w w' block h e fits =
      h ∙ rw (take-overlay buffer n block fits, e) (sym (append_assoc (take n buffer) block _))

  -- The limit is within the buffer, and the next block is: there is room for one more unit behind
  -- the limit, or all of the stream fits.
  abbrev pub HasRoom : List ℕ → ℕ → ℕ → Type 0
  HasRoom before limit capacity =
      (limit ≤ capacity)
      × ((limit + min limit read_unit ≤ capacity + 1) ⊎ (length before ≤ capacity))

  block_fits :
      (before rest block : List ℕ) (limit n : ℕ) (buffer : ByteBuffer)
      → HasRoom before limit (length buffer)
      → length block ≤ min limit read_unit
      → 0 < length block
      → n ≤ limit - 1
      → before ≡ take n buffer ++ (block ++ rest)
      → n + length block ≤ length buffer
  block_fits before rest block limit n buffer (below, inl room) few some_left k e = omega arith
  block_fits before rest block limit n buffer (below, inr room) few some_left k e = omega (
    arith,
    ap length e,
    length-append (take n buffer) (block ++ rest),
    length-append block rest,
    length-take n buffer,
  )

  after_read-IsRead :
      (before : List ℕ) (fd limit capacity : ℕ) (next : ByteBuffer → ℕ → Cmd World (ℤ × ByteBuffer))
      (buffer : ByteBuffer) (n : ℕ) (w w' : World) (r : ReadResult)
      → os.read w fd (min limit read_unit) ≡ (r, w')
      → length buffer ≡ capacity
      → n ≤ limit - 1
      → HasRoom before limit capacity
      → before ≡ take n buffer ++ pending w fd
      → ((buffer' : ByteBuffer) (n' : ℕ)
          → length buffer' ≡ capacity
          → n < n'
          → n' < limit
          → before ≡ take n' buffer' ++ pending w' fd
          → Ensures (IsRead before fd limit capacity) (next buffer' n' w'))
      → Ensures (IsRead before fd limit capacity) (after_read os limit next buffer n r w')
  after_read-IsRead before fd limit capacity next buffer n w w' (read_failed x) q cap k room e
        goes_on =
      (cap, (omega arith, omega arith, e ∙ ap (λ l. take n buffer ++ l) (keeps w w' fd _ x q)))
  after_read-IsRead before fd limit capacity next buffer n w w' (got []) q cap k room e goes_on =
      (cap, refl)
  after_read-IsRead before fd limit capacity next buffer n w w' (got (b ∷ bs)) q cap k room e
        goes_on =
      let block : List ℕ = b ∷ bs in
      let few = at_most w w' fd (min limit read_unit) block q in
      let taken = takes w w' fd _ block q in
      let room' = subst (HasRoom before limit) (sym cap) room in
      let fits : n + length block ≤ length buffer =
        block_fits before (pending w' fd) block limit n buffer room' few (omega arith) k
          (e ∙ ap (λ l. take n buffer ++ l) taken) in
      let same = length-overlay buffer n block fits in
      let holds = Stored-next before fd n buffer w w' block e taken fits in
      ground (arith, same, holds, goes_on (overlay buffer n block) (n + length block))

  read_loop-IsRead :
      (fuel : ℕ) (before : List ℕ) (socket : Socket) (limit capacity : ℕ) (buffer : ByteBuffer)
      (n : ℕ) (w : World)
      → limit < fuel + n
      → length buffer ≡ capacity
      → n ≤ limit - 1
      → HasRoom before limit capacity
      → before ≡ take n buffer ++ pending w socket.fd
      → Ensures (IsRead before socket.fd limit capacity) (read_loop os fuel socket limit buffer n w)
  unfolding read_loop
  read_loop-IsRead zero before socket limit capacity buffer n w h cap k room e =
      absurd (omega arith)
  read_loop-IsRead (suc fuel) before socket limit capacity buffer n w h cap k room e =
      after_read-IsRead before socket.fd limit capacity (read_loop os fuel socket limit) buffer n w
        _ _ refl cap k room e
        λ buffer' n' same grows below e'.
          read_loop-IsRead fuel before socket limit capacity buffer' n' _ (omega arith) same
            (omega arith) room e'

  -- If the buffer has room for one more unit behind the limit, `Socket::read` writes within it. A
  -- count says that the buffer starts with as many bytes off the front of the stream; it can pass
  -- the limit, by less than `min limit read_unit`.
  pub read-IsRead :
      (socket : Socket) (buffer : ByteBuffer) (limit : ℕ) (w : World)
      → let limit' = effective_limit buffer limit in
        limit' + min limit' read_unit ≤ length buffer + 1
        → Ensures
            (IsRead (pending w socket.fd) socket.fd limit' (length buffer))
            (read os socket buffer limit w)
  unfolding read
  read-IsRead socket buffer limit w room =
      let limit' = effective_limit buffer limit in
      read_loop-IsRead (suc limit') _ socket limit' _ buffer 0 w (omega arith) refl (omega arith)
        (omega arith, inl room) refl

  -- The same, where instead all of the stream fits the buffer.
  pub read-IsRead_all :
      (socket : Socket) (buffer : ByteBuffer) (limit : ℕ) (w : World)
      → length (pending w socket.fd) ≤ length buffer
      → Ensures
          (IsRead (pending w socket.fd) socket.fd (effective_limit buffer limit) (length buffer))
          (read os socket buffer limit w)
  unfolding read
  read-IsRead_all socket buffer limit w room =
      let limit' = effective_limit buffer limit in
      read_loop-IsRead (suc limit') _ socket limit' _ buffer 0 w (omega arith) refl (omega arith)
        (omega arith, inr room) refl
