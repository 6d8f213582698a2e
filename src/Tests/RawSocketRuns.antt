-- ===== src/Tests/RawSocketRuns.antt =====
-- A packet with ten bytes of data, which comes twice.
use cs_network_proj.Base.{◌≡◌, refl, Option, none, some, List, ℕ, [], ◌∷◌, arith, codes, replicate}
use cs_network_proj.Base.Outcome.{Ensures}
use cs_network_proj.RawSocket.{load_net}
use cs_network_proj.RawSocket.Payload.{IsPacket}
use cs_network_proj.RawSocket.Receiving.{RawOs, Brings, raw_main}
use cs_network_proj.RawSocket.Receiving.Reports.{Packet, bytes_of, IsReported, raw_main-IsReported}

abbrev ip_part : List ℕ
ip_part =
    0x45 ∷ 0 ∷ 0 ∷ 50 ∷ 0 ∷ 7 ∷ 0x40 ∷ 0 ∷ 64 ∷ 6 ∷ 0 ∷ 0 ∷ 127 ∷ 0 ∷ 0 ∷ 1 ∷ 127 ∷ 0 ∷ 0 ∷ 2 ∷ []

abbrev tcp_part : List ℕ
tcp_part =
    0x1f ∷ 0x40 ∷ 0xc0 ∷ 1 ∷ 0 ∷ 0 ∷ 0 ∷ 5 ∷ 0 ∷ 0 ∷ 0 ∷ 9 ∷ 0x50 ∷ 0x18 ∷ 1 ∷ 0 ∷ 0 ∷ 0 ∷ 0 ∷ 0
    ∷ []

abbrev payload : List ℕ
payload = codes "0123456789"

packet_lem : IsPacket ip_part tcp_part payload
unfolding load_net
packet_lem = record {
  first = 0x45;
  off = 0x50;
  first_at = refl;
  off_at = refl;
  len_at = refl;
  ip_length = refl;
  tcp_length = refl;
  ip_whole = omega arith;
  tcp_whole = omega arith;
  small = omega arith;
}

-- A system on which packets wait.
abbrev take_packet : List (List ℕ) → Option (List ℕ) × List (List ℕ)
take_packet [] = (none, [])
take_packet (p ∷ ps) = (some p, ps)

abbrev queue : RawOs
queue = record {
  World = List (List ℕ);
  socket = λ w. (some 3, w);
  recvfrom = λ w fd count. take_packet w;
}

take_packet-some :
    (w : List (List ℕ)) (packet : List ℕ) (others : List (List ℕ))
    → w ≡ packet ∷ others
    → (w' : List (List ℕ)) × (take_packet w ≡ (some packet, w')) × (w' ≡ others)
take_packet-some w packet others e = (others, rw e refl, refl)

take_packet-none :
    (w : List (List ℕ)) → w ≡ [] → (w' : List (List ℕ)) × (take_packet w ≡ (none, w'))
take_packet-none w e = ([], rw e refl)

abbrev queue-Brings : Brings queue
queue-Brings = record {
  packets = λ w fd. w;
  brings = λ w fd count packet others e h. take_packet-some w packet others e;
  fails = λ w fd count e. take_packet-none w e;
}

abbrev greeting : Packet
greeting = record { ip_part = ip_part; tcp_part = tcp_part; payload = payload; whole = packet_lem }

abbrev traffic : List (List ℕ)
traffic = bytes_of greeting ∷ bytes_of greeting ∷ []

raw_main-IsReported_example :
    Ensures
      (IsReported queue queue-Brings (greeting ∷ greeting ∷ []) [])
      (raw_main queue 3 (replicate 60 7) traffic)
raw_main-IsReported_example =
    raw_main-IsReported queue queue-Brings 3 3 (greeting ∷ greeting ∷ []) (replicate 60 7) traffic
      traffic refl (omega arith) refl
