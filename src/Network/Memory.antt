-- ===== src/Network/Memory.antt =====
-- The memory of a buffer that a system call writes into.
use cs_network_proj.Base.{ℕ, ◌+◌, List, ◌++◌, length, take, drop}
use cs_network_proj.Util.ByteBuffer.{ByteBuffer}

-- The buffer after a block was copied to the offset `at`.
abbrev pub overlay : ByteBuffer → ℕ → List ℕ → ByteBuffer
overlay buffer at block = take at buffer ++ (block ++ drop (at + length block) buffer)
