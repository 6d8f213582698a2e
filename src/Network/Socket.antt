-- ===== src/Network/Socket.antt =====
-- src/network/Socket.cpp, the transfers of a connected socket. A socket is its descriptor.
pub mod Reads
pub mod Keeps
pub mod Arrivals
use cs_network_proj.Base.{
  ℕ, zero, suc, ◌+◌, List, [], ◌∷◌, ◌++◌, length, take, drop, min, ltb, leb, ◌==◌, if◌then◌else◌,
}
use cs_network_proj.Base.Int.{ℤ, pos, negsuc}
use cs_network_proj.Base.Outcome.{Outcome, done, fault, stuck, Cmd}
use cs_network_proj.Os.{Os, ReadResult, got, read_failed}
use cs_network_proj.Util.ByteBuffer.{ByteBuffer, size}
use cs_network_proj.Util.Rio.{rio_writen}
use cs_network_proj.Network.Memory.{overlay}

pub record Socket : Type 0 where
  pub fd : ℕ

abbrev pub read_unit : ℕ
read_unit = 256

-- No limit means the size of the buffer, which also bounds every limit.
abbrev pub effective_limit : ByteBuffer → ℕ → ℕ
effective_limit buffer limit = min (if limit == 0 then size buffer else limit) (size buffer)

module _ (os : Os) where
  open os use {World}

  -- What one round of the loop does with the system's answer. A block that does not fit behind
  -- the offset runs over the end of the buffer.
  abbrev pub after_read :
      (limit : ℕ)
      → (ByteBuffer → ℕ → Cmd World (ℤ × ByteBuffer))
      → ByteBuffer
      → ℕ
      → ReadResult
      → Cmd World (ℤ × ByteBuffer)
  after_read limit next buffer size_read (read_failed e) w = done (pos size_read, buffer) w
  after_read limit next buffer size_read (got []) w = done (negsuc 0, buffer) w
  after_read limit next buffer size_read (got (b ∷ bs)) w =
      let size_read' = size_read + length (b ∷ bs) in
      let buffer' = overlay buffer size_read (b ∷ bs) in
      let rest = next buffer' size_read' w in
      if ltb (size buffer) size_read'
      then fault
      else (if leb limit size_read' then done (pos size_read', buffer') w else rest)

  unfoldable pub read_loop : ℕ → Socket → ℕ → ByteBuffer → ℕ → Cmd World (ℤ × ByteBuffer)
  read_loop zero socket limit buffer size_read w = stuck
  read_loop (suc fuel) socket limit buffer size_read w =
      let (r, w') = os.read w socket.fd (min limit read_unit) in
      after_read limit (read_loop fuel socket limit) buffer size_read r w'

  -- Every round that goes on has received a byte, and there is none after `limit` bytes.
  unfoldable pub read : Socket → ByteBuffer → ℕ → Cmd World (ℤ × ByteBuffer)
  unfolding read_loop
  read socket buffer limit =
      let limit' = effective_limit buffer limit in read_loop (suc limit') socket limit' buffer 0

  unfoldable pub write : Socket → List ℕ → Cmd World ℕ
  write socket block = rio_writen os socket.fd block
