-- ===== src/Net/Tcp/Packet.antt =====
-- `TcpPacket` of os/src/net/tcp.rs, and the packets that a socket generates.
use wasabi.Base.{
  ℕ, ◌+◌, ◌-◌, ◌*◌, ◌/◌, ◌%◌, ◌^◌, bit_and, bit_or, List, [], ◌∷◌, ◌++◌, Option, none, some,
}
use wasabi.Base.{Bool, if◌then◌else◌, ◌/=◌, length, Result, ok, err, panic, failed}
use wasabi.Net.Wire.{Bytes2, Bytes4, list2, list4, be16, be32, Reader, ◌>>=◌, return, read2, read4}
use wasabi.Net.Ip.{
  IpV4Packet, IpV4Addr, EthernetHeader, zero_addr, unset_ip, ip_v4, tcp, no_bytes, ip_size,
  set_data_length, as_slice, read_ip,
}
use wasabi.Net.Ip
use wasabi.Net.Checksum.{InternetChecksumGenerator, start, feed, checksum}

pub record TcpPacket : Type 0 where
  pub ip : IpV4Packet
  pub src_port : Bytes2
  pub dst_port : Bytes2
  pub seq_num : Bytes4
  pub ack_num : Bytes4
  pub flags : Bytes2
  pub window : Bytes2
  pub csum : Bytes2
  pub urgent_ptr : Bytes2

abbrev pub tcp_size : ℕ
tcp_size = 54

abbrev pub header_len : TcpPacket → ℕ
header_len p = 4 * (p.flags.b0 / 2 ^ 4)

abbrev pub set_header_len_nibble : TcpPacket → ℕ → TcpPacket
set_header_len_nibble p nibble = record p {
  flags = record {
    b0 = bit_or (nibble * 2 ^ 4 % 2 ^ 8) (bit_and p.flags.b0 0x0f);
    b1 = p.flags.b1;
  };
}

abbrev pub is_fin : TcpPacket → Bool
is_fin p = bit_and p.flags.b1 1 /= 0

abbrev pub is_syn : TcpPacket → Bool
is_syn p = bit_and p.flags.b1 2 /= 0

abbrev pub is_rst : TcpPacket → Bool
is_rst p = bit_and p.flags.b1 4 /= 0

abbrev pub is_ack : TcpPacket → Bool
is_ack p = bit_and p.flags.b1 16 /= 0

abbrev pub set_flag : TcpPacket → ℕ → TcpPacket
set_flag p mask = record p { flags = record { b0 = p.flags.b0; b1 = bit_or p.flags.b1 mask } }

abbrev pub set_fin : TcpPacket → TcpPacket
set_fin p = set_flag p 1

abbrev pub set_syn : TcpPacket → TcpPacket
set_syn p = set_flag p 2

abbrev pub set_ack : TcpPacket → TcpPacket
set_ack p = set_flag p 16

-- The 20 bytes of the header, and the whole packed struct.
abbrev pub tcp_bytes : TcpPacket → List ℕ
tcp_bytes p =
    p.src_port.b0
    ∷ p.src_port.b1
    ∷ p.dst_port.b0
    ∷ p.dst_port.b1
    ∷ (list4 p.seq_num
        ++ (list4 p.ack_num
            ++ (list2 p.flags ++ (list2 p.window ++ (list2 p.csum ++ list2 p.urgent_ptr)))))

abbrev pub tcp_as_slice : TcpPacket → List ℕ
tcp_as_slice p = as_slice p.ip ++ tcp_bytes p

abbrev pub read_tcp : Reader TcpPacket
read_tcp = do
  ip ← read_ip
  src_port ← read2
  dst_port ← read2
  seq_num ← read4
  ack_num ← read4
  flags ← read2
  window ← read2
  csum ← read2
  urgent_ptr ← read2
  return (record {
    ip = ip;
    src_port = src_port;
    dst_port = dst_port;
    seq_num = seq_num;
    ack_num = ack_num;
    flags = flags;
    window = window;
    csum = csum;
    urgent_ptr = urgent_ptr;
  })

-- `TcpPacket::default()` with the header length that every generated packet has.
abbrev pub default_ip : IpV4Packet
default_ip = record {
  eth = record { dst = zero_addr; src = zero_addr; eth_type = no_bytes };
  version_and_ihl = 0;
  dscp_and_ecn = 0;
  total_length = no_bytes;
  ident = no_bytes;
  flags = no_bytes;
  ttl = 0;
  protocol = 0;
  csum = no_bytes;
  src = unset_ip;
  dst = unset_ip;
}

abbrev pub default_tcp : TcpPacket
default_tcp = record {
  ip = default_ip;
  src_port = no_bytes;
  dst_port = no_bytes;
  seq_num = unset_ip;
  ack_num = unset_ip;
  flags = no_bytes;
  window = no_bytes;
  csum = no_bytes;
  urgent_ptr = no_bytes;
}

-- What `gen_tcp_packet` is told to send.
pub record Segment : Type 0 where
  pub to_ip : IpV4Addr
  pub to_port : ℕ
  pub from_ip : IpV4Addr
  pub from_port : ℕ
  pub seq : ℕ
  pub seq_to_ack : Option ℕ
  pub syn : Bool
  pub fin : Bool
  pub payload : List ℕ

with_ack : Option ℕ → TcpPacket → TcpPacket
with_ack none p = p
with_ack (some seq_to_ack) p = record (set_ack p) { ack_num = be32 seq_to_ack }

-- The header that `gen_tcp_packet` fills in, still without its checksum.
unfoldable pub gen_header : Segment → TcpPacket
unfolding with_ack
gen_header g =
    let eth : EthernetHeader = record { dst = zero_addr; src = zero_addr; eth_type = ip_v4 } in
    let ip = Ip.new eth g.to_ip g.from_ip tcp (tcp_size - ip_size) in
    let ports = record (set_header_len_nibble default_tcp 5) {
      ip = record ip { src = g.from_ip; dst = g.to_ip };
      src_port = be16 g.from_port;
      dst_port = be16 g.to_port;
      seq_num = be32 g.seq;
      window = be16 0xffff;
    } in
    let acked = with_ack g.seq_to_ack ports in
    let synced = if g.syn then set_syn acked else acked in
    let out = if g.fin then set_fin synced else synced in
    record out { ip = set_data_length out.ip (header_len out + length g.payload) }

-- The padding up to an even number of bytes: `next_multiple_of(2)`
abbrev pub padding : List ℕ → List ℕ
padding payload = if length payload % 2 /= 0 then 0 ∷ [] else []

-- The sum that the checksum covers: the segment, the addresses, the protocol, and its size.
unfoldable pub tcp_sum : TcpPacket → List ℕ → InternetChecksumGenerator
tcp_sum p payload =
    let ip_data_size = header_len p + length payload in
    let segment = feed start (tcp_bytes p ++ payload) in
    let addresses = feed (feed segment (list4 p.ip.src)) (list4 p.ip.dst) in
    feed (feed addresses (0x00 ∷ p.ip.protocol ∷ [])) (list2 (be16 (ip_data_size % 2 ^ 16)))

-- The checksum is put into the packet that stands at the front of the bytes. There is always one
-- (`Net.Checksum.Fold.fold_sum_total`).
unfoldable pub gen_tcp_packet : Segment → Result (List ℕ)
unfolding gen_header tcp_sum
gen_tcp_packet g =
    let out = gen_header g in
    elim (read_tcp (tcp_as_slice out ++ (g.payload ++ padding g.payload))) [
      | none ↦ err (failed "Sliceable::from_slice_mut: Too small")
      | some (p, rest) ↦ elim (checksum (tcp_sum p g.payload)) [
        | none ↦ panic
        | some c ↦ ok (tcp_as_slice (record p { csum = c }) ++ rest)
      ]
    ]
