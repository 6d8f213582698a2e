-- ===== src/RawSocket/Receiving.antt =====
-- raw_socket.cpp: the socket and the receiving loop, with the reports on the packets in their order.
pub mod Reports
use cs_network_proj.Base.{
  ℕ, zero, suc, Option, none, some, List, [], ◌∷◌, ◌++◌, length, drop, ◌≡◌, ◌≤◌,
}
use cs_network_proj.Base.Outcome.{exited, stuck, Cmd, pure, deref, ◌>>=◌}
use cs_network_proj.Util.ByteBuffer.{ByteBuffer}
use cs_network_proj.RawSocket.{Report, dissect}

-- What the program calls of the system.
pub record RawOs : Type 1 where
  pub World : Type 0
  -- socket(PF_INET, SOCK_RAW, IPPROTO_TCP): a descriptor, or none for -1
  pub socket : World → Option ℕ × World
  -- recvfrom(fd, memory, count, 0, nullptr, nullptr): the packet, or none for -1
  pub recvfrom : World → ℕ → ℕ → Option (List ℕ) × World

-- The packets that come on a descriptor before a call fails; each fits the count.
pub record Brings (os : RawOs) : Type 0 where
  pub packets : os.World → ℕ → List (List ℕ)
  pub brings :
      (w : os.World) (fd count : ℕ) (packet : List ℕ) (others : List (List ℕ))
      → packets w fd ≡ packet ∷ others
      → length packet ≤ count
      → (w' : os.World) × (os.recvfrom w fd count ≡ (some packet, w')) × (packets w' fd ≡ others)
  pub fails :
      (w : os.World) (fd count : ℕ)
      → packets w fd ≡ []
      → (w' : os.World) × (os.recvfrom w fd count ≡ (none, w'))

-- The size of the buffer.
abbrev pub packet_size : ℕ
packet_size = 65536

-- The buffer with a packet at its front. What stood behind that stays.
abbrev pub with_packet : ByteBuffer → List ℕ → ByteBuffer
with_packet buffer packet = packet ++ drop (length packet) buffer

module _ (os : RawOs) where
  open os use {World}

  abbrev pub after_packet :
      (ByteBuffer → List Report → Cmd World (ℕ × List Report))
      → ByteBuffer
      → List Report
      → Option (List ℕ)
      → Cmd World (ℕ × List Report)
  after_packet next buffer reports none = pure (1, reports)
  after_packet next buffer reports (some packet) =
      let buffer' = with_packet buffer packet in
      do report ← deref (dissect buffer'); next buffer' (reports ++ report ∷ [])

  unfoldable pub receive_packets : ℕ → ℕ → ByteBuffer → List Report → Cmd World (ℕ × List Report)
  unfolding dissect
  receive_packets zero sock buffer reports w = stuck
  receive_packets (suc fuel) sock buffer reports w =
      let (received, w') = os.recvfrom w sock packet_size in
      after_packet (receive_packets fuel sock) buffer reports received w'

  abbrev pub with_raw_socket : ℕ → ByteBuffer → Option ℕ → Cmd World (ℕ × List Report)
  with_raw_socket fuel memory none = λ w. exited 1
  with_raw_socket fuel memory (some sock) = receive_packets fuel sock memory []

  -- main, with what stands in the new buffer, which is not initialized. It has the code that is
  -- returned and what was printed.
  unfoldable pub raw_main : ℕ → ByteBuffer → Cmd World (ℕ × List Report)
  unfolding receive_packets
  raw_main fuel memory w = let (sock, w') = os.socket w in with_raw_socket fuel memory sock w'
