-- ===== src/Net/Tcp/Sent.antt =====
-- The packets that a socket generates: what a receiver reads from them, and their checksum.
use wasabi.Base.{ℕ, ◌+◌, ◌%◌, ◌^◌, ◌≤◌, ◌<◌, ◌≡◌, refl, length}
use wasabi.Base.{List, ◌++◌, Option, none, some, Bool, true, false, if◌then◌else◌}
use wasabi.Net.Wire.{Bytes4, list4, be16, be32}
use wasabi.Net.Ip.{IpV4Addr, unset_ip, total_size}
use wasabi.Net.Ip
use wasabi.Net.Checksum.Feed.{AreBytes}
use wasabi.Net.Tcp.Packet.{TcpPacket, Segment, is_fin, is_syn, tcp_as_slice, read_tcp}
use wasabi.Net.Tcp.Packet.{gen_header}

-- What is written is read back, with the bytes behind it.
pub read_tcp-tcp_as_slice :
    (p : TcpPacket) (rest : List ℕ) → read_tcp (tcp_as_slice p ++ rest) ≡ some (p, rest)
read_tcp-tcp_as_slice p rest = refl

-- Ports and sequence numbers that fit, bytes for the rest, and a payload that fits one packet.
pub record Fits (g : Segment) : Type 0 where
  pub addresses : AreBytes (list4 g.to_ip ++ list4 g.from_ip)
  pub ports : (g.to_port < 2 ^ 16) × (g.from_port < 2 ^ 16)
  pub number : g.seq < 2 ^ 32
  pub payload_bytes : AreBytes g.payload
  pub short : length g.payload ≤ 65495

-- The header that is generated, in closed form.
abbrev pub flag_bits : Option ℕ → Bool → Bool → ℕ
flag_bits seq_to_ack syn fin =
    elim seq_to_ack [ none ↦ 0 | some a ↦ 16 ] + (if syn then 2 else 0) + (if fin then 1 else 0)

abbrev pub ack_field : Option ℕ → Bytes4
ack_field none = unset_ip
ack_field (some a) = be32 a

abbrev pub header : Segment → TcpPacket
header g = record {
  ip = record {
    eth = record { dst = Ip.zero_addr; src = Ip.zero_addr; eth_type = Ip.ip_v4 };
    version_and_ihl = 0x45;
    dscp_and_ecn = 0;
    total_length = be16 ((20 + length g.payload + 20) % 2 ^ 16);
    ident = Ip.no_bytes;
    flags = Ip.no_bytes;
    ttl = 0xff;
    protocol = 6;
    csum = Ip.no_bytes;
    src = g.from_ip;
    dst = g.to_ip;
  };
  src_port = be16 g.from_port;
  dst_port = be16 g.to_port;
  seq_num = be32 g.seq;
  ack_num = ack_field g.seq_to_ack;
  flags = record { b0 = 0x50; b1 = flag_bits g.seq_to_ack g.syn g.fin };
  window = record { b0 = 0xff; b1 = 0xff };
  csum = Ip.no_bytes;
  urgent_ptr = Ip.no_bytes;
}

module _ (to_ip from_ip : IpV4Addr) (to_port from_port seq : ℕ) (payload : List ℕ) where
  abbrev segment : Option ℕ → Bool → Bool → Segment
  segment seq_to_ack syn fin = record {
    to_ip = to_ip;
    to_port = to_port;
    from_ip = from_ip;
    from_port = from_port;
    seq = seq;
    seq_to_ack = seq_to_ack;
    syn = syn;
    fin = fin;
    payload = payload;
  }

  gen_header-segment :
      (seq_to_ack : Option ℕ) (syn fin : Bool)
      → gen_header (segment seq_to_ack syn fin) ≡ header (segment seq_to_ack syn fin)
  unfolding gen_header Ip.new Ip.set_data_length be16
  gen_header-segment none true true = refl
  gen_header-segment none true false = refl
  gen_header-segment none false true = refl
  gen_header-segment none false false = refl
  gen_header-segment (some a) true true = refl
  gen_header-segment (some a) true false = refl
  gen_header-segment (some a) false true = refl
  gen_header-segment (some a) false false = refl

pub gen_header_lem : (g : Segment) → gen_header g ≡ header g
gen_header_lem g =
    gen_header-segment g.to_ip g.from_ip g.to_port g.from_port g.seq g.payload g.seq_to_ack g.syn
      g.fin

-- The header's flags say what was asked for.
pub header_flags : (g : Segment) → (is_syn (header g) ≡ g.syn) × (is_fin (header g) ≡ g.fin)
header_flags g = cases g.seq_to_ack g.syn g.fin
  where
    bits : Option ℕ → Bool → Bool → TcpPacket
    bits a s f = record (header g) { flags = record { b0 = 0x50; b1 = flag_bits a s f } }

    cases : (a : Option ℕ) (s f : Bool) → (is_syn (bits a s f) ≡ s) × (is_fin (bits a s f) ≡ f)
    cases none true true = (refl, refl)
    cases none true false = (refl, refl)
    cases none false true = (refl, refl)
    cases none false false = (refl, refl)
    cases (some a) true true = (refl, refl)
    cases (some a) true false = (refl, refl)
    cases (some a) false true = (refl, refl)
    cases (some a) false false = (refl, refl)
