-- ===== src/RawSocket.antt =====
-- raw_socket.cpp: what is printed of a packet that was received. Addresses are kept as bytes; the
-- layout of the text is left out.
pub mod Payload
pub mod Receiving
use cs_network_proj.Base.{
  ℕ, zero, suc, ◌+◌, ◌-◌, ◌*◌, ◌/◌, ◌%◌, ◌^◌, Bool, Option, none, some, List, length, get_elem?,
  take, drop, min, leb, ◌==◌, if◌then◌else◌, u32,
}
use cs_network_proj.Util.ByteBuffer.{ByteBuffer, ◌>>=◌ as ◌>>=?◌}

-- An integer in network order, of so many bytes.
unfoldable pub load_net : ByteBuffer → ℕ → ℕ → Option ℕ
load_net b at zero = some 0
load_net b at (suc n) =
    get_elem? b at >>=? λ byte. load_net b (at + 1) n >>=? λ v. some (byte * 256 ^ n + v)

-- Bytes of the buffer; none if they run over its end.
unfoldable pub load_bytes : ByteBuffer → ℕ → ℕ → Option (List ℕ)
load_bytes b at n = if leb (at + n) (length b) then some (take n (drop at b)) else none

-- Whether a bit is set.
abbrev pub has_bit : ℕ → ℕ → Bool
has_bit v i = v / 2 ^ i % 2 == 1

-- The fields of `ip` that are printed, and the length of the header in words.
pub record IpHeader : Type 0 where
  pub ip_hl : ℕ
  pub ip_len : ℕ
  pub ip_id : ℕ
  pub ip_off : ℕ
  pub ip_ttl : ℕ
  pub ip_src : List ℕ
  pub ip_dst : List ℕ

unfoldable pub ip_header : ByteBuffer → Option IpHeader
unfolding load_net load_bytes
ip_header b = load_net b 0 1 >>=? λ first. load_net b 2 2 >>=? λ len. load_net b 4 2 >>=? λ id.
    load_net b 6 2 >>=? λ off. load_net b 8 1 >>=? λ ttl. load_bytes b 12 4 >>=? λ src.
    load_bytes b 16 4 >>=? λ dst. some (record {
      ip_hl = first % 16;
      ip_len = len;
      ip_id = id;
      ip_off = off;
      ip_ttl = ttl;
      ip_src = src;
      ip_dst = dst;
    })

-- The fields of `tcphdr` that are printed, and the length of the header in words.
pub record TcpHeader : Type 0 where
  pub th_sport : ℕ
  pub th_dport : ℕ
  pub th_seq : ℕ
  pub th_ack : ℕ
  pub th_off : ℕ
  pub flags : ℕ

unfoldable pub tcp_header : ByteBuffer → ℕ → Option TcpHeader
unfolding load_net
tcp_header b at = load_net b at 2 >>=? λ sport. load_net b (at + 2) 2 >>=? λ dport.
    load_net b (at + 4) 4 >>=? λ seq. load_net b (at + 8) 4 >>=? λ ack.
    load_net b (at + 12) 1 >>=? λ off. load_net b (at + 13) 1 >>=? λ flags. some (record {
      th_sport = sport;
      th_dport = dport;
      th_seq = seq;
      th_ack = ack;
      th_off = off / 16;
      flags = flags;
    })

-- What is printed of a packet.
pub record Report : Type 0 where
  pub ip : IpHeader
  pub reserved_mark : Bool
  pub dont_fragment : Bool
  pub more_fragments : Bool
  pub fragment_offset : ℕ
  pub tcp : TcpHeader
  pub syn : Bool
  pub ack : Bool
  pub fin : Bool
  pub rst : Bool
  pub app_len : ℕ
  pub first_bytes : List ℕ

abbrev pub header_len : IpHeader → TcpHeader → ℕ
header_len ip tcp = ip.ip_hl * 4 + tcp.th_off * 4

-- The length of the data. The difference has 32 bits and wraps round.
abbrev pub payload_len : IpHeader → TcpHeader → ℕ
payload_len ip tcp = u32 (ip.ip_len + 2 ^ 32 - header_len ip tcp)

abbrev pub report : IpHeader → TcpHeader → List ℕ → Report
report ip tcp first_bytes = record {
  ip = ip;
  reserved_mark = has_bit ip.ip_off 15;
  dont_fragment = has_bit ip.ip_off 14;
  more_fragments = has_bit ip.ip_off 13;
  fragment_offset = ip.ip_off % 2 ^ 13;
  tcp = tcp;
  syn = has_bit tcp.flags 1;
  ack = has_bit tcp.flags 4;
  fin = has_bit tcp.flags 0;
  rst = has_bit tcp.flags 2;
  app_len = payload_len ip tcp;
  first_bytes = first_bytes;
}

-- The report on the packet at the front of the buffer.
unfoldable pub dissect : ByteBuffer → Option Report
unfolding ip_header tcp_header load_bytes
dissect b = ip_header b >>=? λ ip. tcp_header b (ip.ip_hl * 4) >>=? λ tcp.
    load_bytes b (header_len ip tcp) (min 8 (payload_len ip tcp)) >>=? λ first_bytes.
    some (report ip tcp first_bytes)
