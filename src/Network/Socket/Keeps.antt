-- ===== src/Network/Socket/Keeps.antt =====
-- What `Socket::read` leaves as it was, and that a read that waits returns with something.
use cs_network_proj.Base.{
  ℕ, zero, suc, ◌+◌, ◌<◌, ◌≡◌, Bool-cases, ltb, leb, refl, inl, inr, ◌∙◌, [], ◌∷◌, arith, length,
  min,
}
use cs_network_proj.Base.Int.{ℤ, pos, negsuc}
use cs_network_proj.Base.Outcome.{Cmd, Holds, Holds-mono}
use cs_network_proj.Os.{Os, ReadResult, got, read_failed, ReadsBlocking}
use cs_network_proj.Util.ByteBuffer.{size, ByteBuffer}
use cs_network_proj.Network.Memory.{overlay}
use cs_network_proj.Network.Socket.{Socket, read_unit, after_read, read_loop, read, effective_limit}

module _ (os : Os) where
  open os use {World}

  -- What no call of the system's `read` changes, `Socket::read` does not change.
  after_read-keeps :
      {A : Type 0} (f : World → A) (limit : ℕ) (next : ByteBuffer → ℕ → Cmd World (ℤ × ByteBuffer))
      (buffer : ByteBuffer) (n : ℕ) (r : ReadResult) (w : World)
      → ((buffer' : ByteBuffer) (n' : ℕ) → Holds (λ _ w'. f w' ≡ f w) (next buffer' n' w))
      → Holds (λ _ w'. f w' ≡ f w) (after_read os limit next buffer n r w)
  after_read-keeps f limit next buffer n (read_failed e) w goes_on = refl
  after_read-keeps f limit next buffer n (got []) w goes_on = refl
  after_read-keeps f limit next buffer n (got (b ∷ bs)) w goes_on =
      let n' = n + length (b ∷ bs) in
      let buffer' = overlay buffer n (b ∷ bs) in
      elim (Bool-cases (ltb (size buffer) n')) [
        | inl over ↦ rw over tt
        | inr fits ↦ elim (Bool-cases (leb limit n')) [
          | inl full ↦ rw (fits, full) refl
          | inr more ↦ rw (fits, more) (goes_on buffer' n')
        ]
      ]

  read_loop-keeps :
      {A : Type 0} (f : World → A)
      → ((w : World) (fd count : ℕ) → f (os.read w fd count).1 ≡ f w)
      → (fuel : ℕ) (socket : Socket) (limit : ℕ) (buffer : ByteBuffer) (n : ℕ) (w : World)
      → Holds (λ _ w'. f w' ≡ f w) (read_loop os fuel socket limit buffer n w)
  unfolding read_loop
  read_loop-keeps f h zero socket limit buffer n w = tt
  read_loop-keeps f h (suc fuel) socket limit buffer n w =
      let (r, v) = os.read w socket.fd (min limit read_unit) in
      let same = h w socket.fd (min limit read_unit) in
      Holds-mono (λ _ w'. f w' ≡ f v) (λ _ w'. f w' ≡ f w)
        (after_read os limit (read_loop os fuel socket limit) buffer n r v)
        (after_read-keeps f limit (read_loop os fuel socket limit) buffer n r v
          λ buffer' n'. read_loop-keeps f h fuel socket limit buffer' n' v)
        λ _ w' e. e ∙ same

  pub read-keeps :
      {A : Type 0} (f : World → A)
      → ((w : World) (fd count : ℕ) → f (os.read w fd count).1 ≡ f w)
      → (socket : Socket) (buffer : ByteBuffer) (limit : ℕ) (w : World)
      → Holds (λ _ w'. f w' ≡ f w) (read os socket buffer limit w)
  unfolding read
  read-keeps f h socket buffer limit w =
      read_loop-keeps f h (suc (effective_limit buffer limit)) socket (effective_limit buffer limit)
        buffer 0 w

module _ (os : Os) (blocking : ReadsBlocking os) where
  open os use {World}
  open blocking use {unfailing}

  -- A count that is not 0.
  abbrev pub IsSome : ℤ → Type 0
  IsSome (pos n) = 0 < n
  IsSome (negsuc n) = Unit

  after_read-IsSome :
      (limit : ℕ) (next : ByteBuffer → ℕ → Cmd World (ℤ × ByteBuffer)) (buffer : ByteBuffer)
      (n fd count : ℕ) (r : ReadResult) (w w' : World)
      → os.read w fd count ≡ (r, w')
      → ((buffer' : ByteBuffer) (n' : ℕ) → Holds (λ answer _. IsSome answer.0) (next buffer' n' w'))
      → Holds (λ answer _. IsSome answer.0) (after_read os limit next buffer n r w')
  after_read-IsSome limit next buffer n fd count (read_failed e) w w' q goes_on =
      absurd (unfailing w w' fd count e q)
  after_read-IsSome limit next buffer n fd count (got []) w w' q goes_on = tt
  after_read-IsSome limit next buffer n fd count (got (b ∷ bs)) w w' q goes_on =
      let n' = n + length (b ∷ bs) in
      let buffer' = overlay buffer n (b ∷ bs) in
      elim (Bool-cases (ltb (size buffer) n')) [
        | inl over ↦ rw over tt
        | inr fits ↦ elim (Bool-cases (leb limit n')) [
          | inl full ↦ rw (fits, full) (omega arith)
          | inr more ↦ rw (fits, more) (goes_on buffer' n')
        ]
      ]

  read_loop-IsSome :
      (fuel : ℕ) (socket : Socket) (limit : ℕ) (buffer : ByteBuffer) (n : ℕ) (w : World)
      → Holds (λ answer _. IsSome answer.0) (read_loop os fuel socket limit buffer n w)
  unfolding read_loop
  read_loop-IsSome zero socket limit buffer n w = tt
  read_loop-IsSome (suc fuel) socket limit buffer n w =
      let (r, v) = os.read w socket.fd (min limit read_unit) in
      after_read-IsSome limit (read_loop os fuel socket limit) buffer n socket.fd
        (min limit read_unit) r w v refl
        λ buffer' n'. read_loop-IsSome fuel socket limit buffer' n' v

  -- A read that waits does not return with nothing.
  pub read-IsSome :
      (socket : Socket) (buffer : ByteBuffer) (limit : ℕ) (w : World)
      → Holds (λ answer _. IsSome answer.0) (read os socket buffer limit w)
  unfolding read
  read-IsSome socket buffer limit w =
      let limit' = effective_limit buffer limit in
      read_loop-IsSome (suc limit') socket limit' buffer 0 w
