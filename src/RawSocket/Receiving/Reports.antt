-- ===== src/RawSocket/Receiving/Reports.antt =====
-- What is reported of the packets that come.
use cs_network_proj.Base.{
  ℕ, zero, suc, ◌<◌, ◌≤◌, ◌≡◌, refl, sym, ap, ◌∙◌, some, List, [], ◌∷◌, ◌++◌, map, arith, length,
  take, drop, append-nil, append_assoc, length-append,
}
use cs_network_proj.Base.Outcome.{Ensures, Ensures-mono}
use cs_network_proj.Util.ByteBuffer.{ByteBuffer}
use cs_network_proj.RawSocket.{Report, dissect}
use cs_network_proj.RawSocket.Payload.{IsPacket, dissect-payload}
use cs_network_proj.RawSocket.Receiving.{
  RawOs, Brings, packet_size, with_packet, receive_packets, raw_main,
}

-- A packet with its headers and its data.
pub record Packet : Type 0 where
  pub ip_part : ByteBuffer
  pub tcp_part : ByteBuffer
  pub payload : ByteBuffer
  pub whole : IsPacket ip_part tcp_part payload

abbrev pub bytes_of : Packet → List ℕ
bytes_of p = p.ip_part ++ (p.tcp_part ++ p.payload)

-- One report for each packet, in order, with the length of its data and its first eight bytes.
abbrev pub AreReported : List Packet → List Report → Type 0
AreReported [] [] = Unit {0}
AreReported [] (r ∷ rs) = ⊥
AreReported (p ∷ ps) [] = ⊥
AreReported (p ∷ ps) (r ∷ rs) =
    ((r.app_len ≡ length p.payload) × (r.first_bytes ≡ take 8 p.payload)) × AreReported ps rs

-- A packet is within the buffer.
bytes_of-le : (p : Packet) → length (bytes_of p) ≤ packet_size
bytes_of-le p =
    let small = p.whole.small in
    omega
      (arith, length-append p.ip_part (p.tcp_part ++ p.payload), length-append p.tcp_part p.payload)

dissect-with_packet :
    (buffer : ByteBuffer) (p : Packet)
    → (r : Report) × (dissect (with_packet buffer (bytes_of p)) ≡ some r)
      × (r.app_len ≡ length p.payload)
      × (r.first_bytes ≡ take 8 p.payload)
dissect-with_packet buffer p =
    let behind = drop (length (bytes_of p)) buffer in
    let (r, e, len, first) = dissect-payload p.ip_part p.tcp_part p.payload behind p.whole in
    let parts : bytes_of p ++ behind ≡ p.ip_part ++ (p.tcp_part ++ (p.payload ++ behind)) =
      append_assoc p.ip_part (p.tcp_part ++ p.payload) behind
      ∙ ap (λ b. p.ip_part ++ b) (append_assoc p.tcp_part p.payload behind) in
    (r, ap dissect parts ∙ e, len, first)

module _ (os : RawOs) (arrivals : Brings os) where
  open os use {World}
  open arrivals use {packets, brings, fails}

  abbrev pub IsReported : List Packet → List Report → ℕ × List Report → World → Type 0
  IsReported ps reports (code, reports') w =
      (code ≡ 1) × ((more : List Report) × (reports' ≡ reports ++ more) × AreReported ps more)

  IsReported-next :
      (p : Packet) (ps : List Packet) (r : Report) (reports : List Report)
      (result : ℕ × List Report) (w : World)
      → (r.app_len ≡ length p.payload) × (r.first_bytes ≡ take 8 p.payload)
      → IsReported ps (reports ++ r ∷ []) result w
      → IsReported (p ∷ ps) reports result w
  IsReported-next p ps r reports (code, reports') w right (e, (more, parts, others)) =
      (e, (r ∷ more, parts ∙ append_assoc reports (r ∷ []) more, (right, others)))

  receive_packets-IsReported :
      (fuel sock : ℕ) (ps : List Packet) (buffer : ByteBuffer) (reports : List Report) (w : World)
      → length ps < fuel
      → packets w sock ≡ map bytes_of ps
      → Ensures (IsReported ps reports) (receive_packets os fuel sock buffer reports w)
  unfolding receive_packets
  receive_packets-IsReported zero sock ps buffer reports w h e = absurd (omega arith)
  receive_packets-IsReported (suc fuel) sock [] buffer reports w h e =
      let (w', ran) = fails w sock packet_size e in
      rw ran (refl, ([], sym (append-nil reports), tt))
  receive_packets-IsReported (suc fuel) sock (p ∷ ps) buffer reports w h e =
      let (w', ran, left) =
        brings w sock packet_size (bytes_of p) (map bytes_of ps) e (bytes_of-le p) in
      let (r, found, len, first) = dissect-with_packet buffer p in
      let buffer' = with_packet buffer (bytes_of p) in
      rw (ran, found)
        (Ensures-mono (IsReported ps (reports ++ r ∷ [])) (IsReported (p ∷ ps) reports)
          (receive_packets os fuel sock buffer' (reports ++ r ∷ []) w')
          (receive_packets-IsReported fuel sock ps buffer' (reports ++ r ∷ []) w' (omega arith)
            left)
          λ result v reported. IsReported-next p ps r reports result v (len, first) reported)

  -- If the raw socket is made, and whole packets come on it until receiving fails, then the program
  -- returns 1, with more rounds than there are packets, and has printed one report for each packet,
  -- in order, which has the length of its data and its first eight bytes, whatever stood in the
  -- buffer.
  pub raw_main-IsReported :
      (fuel sock : ℕ) (ps : List Packet) (memory : ByteBuffer) (w w' : World)
      → os.socket w ≡ (some sock, w')
      → length ps < fuel
      → packets w' sock ≡ map bytes_of ps
      → Ensures (IsReported ps []) (raw_main os fuel memory w)
  unfolding raw_main
  raw_main-IsReported fuel sock ps memory w w' made h e =
      rw made (receive_packets-IsReported fuel sock ps memory [] w' h e)
