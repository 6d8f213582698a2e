-- ===== src/RawSocket/Payload.antt =====
-- Where the data of a packet is found.
use cs_network_proj.Base.{
  ℕ, zero, suc, ◌+◌, ◌*◌, ◌/◌, ◌%◌, ◌^◌, ◌≤◌, ◌<◌, ◌≡◌, refl, sym, ap, ◌∙◌, some, List, [], ◌∷◌,
  ◌++◌, arith, length, get_elem?, take, drop, min, leb, length-append, drop-append_length,
  take-append_le, take_all, append_assoc, Bool-cases, inl, inr,
}
use cs_network_proj.Util.ByteBuffer.{ByteBuffer}
use cs_network_proj.Util.ByteBuffer.Integers.{get_elem?-append_length}
use cs_network_proj.RawSocket.{
  load_net, load_bytes, IpHeader, ip_header, TcpHeader, tcp_header, header_len, payload_len, Report,
  report, dissect,
}

get_elem?-some : (b : ByteBuffer) (at : ℕ) → at < length b → (v : ℕ) × (get_elem? b at ≡ some v)
get_elem?-some [] at h = absurd (omega arith)
get_elem?-some (x ∷ xs) zero h = (x, refl)
get_elem?-some (x ∷ xs) (suc at) h = get_elem?-some xs at (omega arith)

-- An integer within the buffer is read.
load_net-some :
    (b : ByteBuffer) (at n : ℕ) → at + n ≤ length b → (v : ℕ) × (load_net b at n ≡ some v)
unfolding load_net
load_net-some b at zero h = (0, refl)
load_net-some b at (suc n) h =
    let (x, e) = get_elem?-some b at (omega arith) in
    let (v, f) = load_net-some b (at + 1) n (omega arith) in (x * 256 ^ n + v, rw (e, f) refl)

load_bytes-some :
    (b : ByteBuffer) (at n : ℕ) → at + n ≤ length b → load_bytes b at n ≡ some (take n (drop at b))
unfolding load_bytes
load_bytes-some b at n h = ground arith

-- The header fields are read if the buffer is long enough, and the lengths are what stands there.
ip_header-some :
    (b : ByteBuffer) (first len : ℕ)
    → 20 ≤ length b
    → load_net b 0 1 ≡ some first
    → load_net b 2 2 ≡ some len
    → (ip : IpHeader) × (ip_header b ≡ some ip) × (ip.ip_hl ≡ first % 16) × (ip.ip_len ≡ len)
unfolding ip_header
ip_header-some b first len h e f =
    let (id, e1) = load_net-some b 4 2 (omega arith) in
    let (off, e2) = load_net-some b 6 2 (omega arith) in
    let (ttl, e3) = load_net-some b 8 1 (omega arith) in
    let e4 = load_bytes-some b 12 4 (omega arith) in
    let e5 = load_bytes-some b 16 4 (omega arith) in
    let ip : IpHeader = record {
      ip_hl = first % 16;
      ip_len = len;
      ip_id = id;
      ip_off = off;
      ip_ttl = ttl;
      ip_src = take 4 (drop 12 b);
      ip_dst = take 4 (drop 16 b);
    } in
    (ip, rw (e, f, e1, e2, e3, e4, e5) refl, refl, refl)

tcp_header-some :
    (b : ByteBuffer) (at off : ℕ)
    → at + 20 ≤ length b
    → load_net b (at + 12) 1 ≡ some off
    → (tcp : TcpHeader) × (tcp_header b at ≡ some tcp) × (tcp.th_off ≡ off / 16)
unfolding tcp_header
tcp_header-some b at off h e =
    let (sport, e1) = load_net-some b at 2 (omega arith) in
    let (dport, e2) = load_net-some b (at + 2) 2 (omega arith) in
    let (seq, e3) = load_net-some b (at + 4) 4 (omega arith) in
    let (ack, e4) = load_net-some b (at + 8) 4 (omega arith) in
    let (flags, e5) = load_net-some b (at + 13) 1 (omega arith) in
    let tcp : TcpHeader = record {
      th_sport = sport;
      th_dport = dport;
      th_seq = seq;
      th_ack = ack;
      th_off = off / 16;
      flags = flags;
    } in
    (tcp, rw (e1, e2, e3, e4, e, e5) refl, refl)

get_elem?-front :
    (b behind : ByteBuffer) (at : ℕ) → at < length b → get_elem? (b ++ behind) at ≡ get_elem? b at
get_elem?-front [] behind at h = absurd (omega arith)
get_elem?-front (x ∷ xs) behind zero h = refl
get_elem?-front (x ∷ xs) behind (suc at) h = get_elem?-front xs behind at (omega arith)

-- What stands in front of other bytes, and behind others.
load_net-front :
    (b behind : ByteBuffer) (at n : ℕ)
    → at + n ≤ length b
    → load_net (b ++ behind) at n ≡ load_net b at n
unfolding load_net
load_net-front b behind at zero h = refl
load_net-front b behind at (suc n) h =
    rw (get_elem?-front b behind at (omega arith), load_net-front b behind (at + 1) n (omega arith))
      refl

load_net-behind :
    (pre b : ByteBuffer) (at n : ℕ) → load_net (pre ++ b) (length pre + at) n ≡ load_net b at n
unfolding load_net
load_net-behind pre b at zero = refl
load_net-behind pre b at (suc n) =
    let next : length pre + at + 1 ≡ length pre + (at + 1) = omega arith in
    rw (get_elem?-append_length pre b at, next, load_net-behind pre b (at + 1) n) refl

dissect_lem :
    (b : ByteBuffer) (ip : IpHeader) (tcp : TcpHeader) (first_bytes : List ℕ)
    → ip_header b ≡ some ip
    → tcp_header b (ip.ip_hl * 4) ≡ some tcp
    → load_bytes b (header_len ip tcp) (min 8 (payload_len ip tcp)) ≡ some first_bytes
    → dissect b ≡ some (report ip tcp first_bytes)
unfolding dissect
dissect_lem b ip tcp first_bytes e f g = rw (e, f, g) refl

take-min-length : (n : ℕ) (xs : ByteBuffer) → take (min n (length xs)) xs ≡ take n xs
take-min-length n xs = elim (Bool-cases (leb n (length xs))) [
  | inl h ↦ let least : min n (length xs) ≡ n = ground arith in ap (λ k. take k xs) least
  | inr h ↦
      let least : min n (length xs) ≡ length xs = ground arith in
      let short : length xs ≤ n = ground arith in
      ap (λ k. take k xs) least ∙ take_all (length xs) xs (omega arith) ∙ sym (take_all n xs short)
]

first_eight :
    (ip_part tcp_part payload behind : ByteBuffer)
    → take
        (min 8 (length payload))
        (drop (length ip_part + length tcp_part) (ip_part ++ (tcp_part ++ (payload ++ behind))))
      ≡ take 8 payload
first_eight ip_part tcp_part payload behind =
    let there : drop (length ip_part + length tcp_part)
          (ip_part ++ (tcp_part ++ (payload ++ behind)))
        ≡ payload ++ behind =
      ap (drop (length ip_part + length tcp_part))
        (sym (append_assoc ip_part tcp_part (payload ++ behind)))
      ∙ drop-append_length (length ip_part + length tcp_part) (ip_part ++ tcp_part)
          (payload ++ behind) (sym (length-append ip_part tcp_part)) in
    ap (take (min 8 (length payload))) there
    ∙ take-append_le (min 8 (length payload)) payload behind (omega arith)
    ∙ take-min-length 8 payload

-- A whole packet: the headers have the lengths that they say, and the packet has that of the first.
pub record IsPacket (ip_part tcp_part payload : ByteBuffer) : Type 0 where
  pub first : ℕ
  pub off : ℕ
  pub first_at : load_net ip_part 0 1 ≡ some first
  pub off_at : load_net tcp_part 12 1 ≡ some off
  pub len_at : load_net ip_part 2 2 ≡ some (length ip_part + length tcp_part + length payload)
  pub ip_length : length ip_part ≡ first % 16 * 4
  pub tcp_length : length tcp_part ≡ off / 16 * 4
  pub ip_whole : 20 ≤ length ip_part
  pub tcp_whole : 20 ≤ length tcp_part
  pub small : length ip_part + length tcp_part + length payload < 2 ^ 16

-- Of a whole packet, whatever follows it in the buffer, the report says how long the data behind
-- the headers is, and has its first eight bytes.
pub dissect-payload :
    (ip_part tcp_part payload behind : ByteBuffer)
    → IsPacket ip_part tcp_part payload
    → (r : Report) × (dissect (ip_part ++ (tcp_part ++ (payload ++ behind))) ≡ some r)
      × (r.app_len ≡ length payload)
      × (r.first_bytes ≡ take 8 payload)
dissect-payload ip_part tcp_part payload behind h =
    let b = ip_part ++ (tcp_part ++ (payload ++ behind)) in
    let whole : length b ≡ length ip_part + (length tcp_part + (length payload + length behind)) =
      omega (
        arith,
        length-append ip_part (tcp_part ++ (payload ++ behind)),
        length-append tcp_part (payload ++ behind),
        length-append payload behind,
      ) in
    let tail = tcp_part ++ (payload ++ behind) in
    let (ip, e, hl, len) =
      ip_header-some b h.first (length ip_part + length tcp_part + length payload)
        (omega (arith, h.ip_whole))
        (load_net-front ip_part tail 0 1 (omega (arith, h.ip_whole)) ∙ h.first_at)
        (load_net-front ip_part tail 2 2 (omega (arith, h.ip_whole)) ∙ h.len_at) in
    let at : ip.ip_hl * 4 ≡ length ip_part = omega (arith, h.ip_length) in
    let (tcp, f, off) = tcp_header-some b (length ip_part) h.off (omega (arith, h.tcp_whole)) (
      load_net-behind ip_part tail 12 1
      ∙ load_net-front tcp_part (payload ++ behind) 12 1 (omega (arith, h.tcp_whole))
      ∙ h.off_at) in
    let n : payload_len ip tcp ≡ length payload = omega (arith, h.tcp_length, h.small) in
    let start : header_len ip tcp ≡ length ip_part + length tcp_part =
      omega (arith, h.tcp_length) in
    let bytes =
      load_bytes-some b (length ip_part + length tcp_part) (min 8 (length payload)) (omega arith) in
    let found : load_bytes b (header_len ip tcp) (min 8 (payload_len ip tcp))
        ≡ some (take 8 payload) =
      ap (load_bytes b (header_len ip tcp)) (ap (min 8) n)
      ∙ ap (λ k. load_bytes b k (min 8 (length payload))) start
      ∙ bytes
      ∙ ap some (first_eight ip_part tcp_part payload behind) in
    (
      report ip tcp (take 8 payload),
      dissect_lem b ip tcp (take 8 payload) e (ap (tcp_header b) at ∙ f) found,
      n,
      refl,
    )
