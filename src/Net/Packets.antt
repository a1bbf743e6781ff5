-- ===== src/Net/Packets.antt =====
-- os/src/net/arp.rs, os/src/net/udp.rs, os/src/net/icmp.rs and os/src/net/dhcp.rs: the packets
-- besides TCP, as records of their fields.
use wasabi.Base.{ℕ, zero, suc, ◌-◌, ◌^◌, List, [], ◌∷◌, ◌++◌, none, some, Bool, ◌==◌, ltb}
use wasabi.Base.{Result, ok, err, panic, try_from_int_error, if◌then◌else◌, replicate}
use wasabi.Net.Wire.{
  Bytes2, Bytes4, list2, list4, list6, be16, eq2, Reader, ◌>>=◌, return, read1, read2, read4, read6,
}
use wasabi.Net.Ip.{
  IpV4Packet, IpV4Addr, EthernetAddr, EthernetHeader, ip_v4, icmp, broardcast, zero_addr, unset_ip,
  ip_size, udp, as_slice, ip_bytes, eth_bytes, read_eth, read_ip, clear_checksum, no_bytes,
}
use wasabi.Net.Ip
use wasabi.Net.Checksum.{calc}
use wasabi.Net.Tcp.Packet.{default_ip}

pub record ArpPacket : Type 0 where
  pub eth_header : EthernetHeader
  pub hw_type : Bytes2
  pub proto_type : Bytes2
  pub hw_addr_size : ℕ
  pub proto_addr_size : ℕ
  pub op : Bytes2
  pub sender_mac : EthernetAddr
  pub sender_ip : IpV4Addr
  pub target_mac : EthernetAddr
  pub target_ip : IpV4Addr

abbrev pub is_response : ArpPacket → Bool
is_response p = eq2 p.op (record { b0 = 0x00; b1 = 0x02 })

abbrev pub arp_request : EthernetAddr → IpV4Addr → IpV4Addr → ArpPacket
arp_request src_eth src_ip dst_ip = record {
  eth_header = record { dst = broardcast; src = src_eth; eth_type = Ip.arp };
  hw_type = record { b0 = 0x00; b1 = 0x01 };
  proto_type = record { b0 = 0x08; b1 = 0x00 };
  hw_addr_size = 6;
  proto_addr_size = 4;
  op = record { b0 = 0x00; b1 = 0x01 };
  sender_mac = src_eth;
  sender_ip = src_ip;
  target_mac = zero_addr;
  target_ip = dst_ip;
}

abbrev pub arp_bytes : ArpPacket → List ℕ
arp_bytes p =
    eth_bytes p.eth_header
    ++ (list2 p.hw_type
        ++ (list2 p.proto_type
            ++ (p.hw_addr_size
                ∷ p.proto_addr_size
                ∷ (list2 p.op
                    ++ (list6 p.sender_mac
                        ++ (list4 p.sender_ip ++ (list6 p.target_mac ++ list4 p.target_ip)))))))

abbrev pub read_arp : Reader ArpPacket
read_arp = do
  eth_header ← read_eth
  hw_type ← read2
  proto_type ← read2
  hw_addr_size ← read1
  proto_addr_size ← read1
  op ← read2
  sender_mac ← read6
  sender_ip ← read4
  target_mac ← read6
  target_ip ← read4
  return (record {
    eth_header = eth_header;
    hw_type = hw_type;
    proto_type = proto_type;
    hw_addr_size = hw_addr_size;
    proto_addr_size = proto_addr_size;
    op = op;
    sender_mac = sender_mac;
    sender_ip = sender_ip;
    target_mac = target_mac;
    target_ip = target_ip;
  })

pub record UdpPacket : Type 0 where
  pub ip : IpV4Packet
  pub src_port : Bytes2
  pub dst_port : Bytes2
  pub data_size : Bytes2
  pub csum : Bytes2

abbrev pub udp_size : ℕ
udp_size = 42

abbrev pub default_udp : UdpPacket
default_udp = record {
  ip = default_ip;
  src_port = no_bytes;
  dst_port = no_bytes;
  data_size = no_bytes;
  csum = no_bytes;
}

-- `u16::try_from(data_size)?.to_be_bytes()`
abbrev pub set_data_size : UdpPacket → ℕ → Result UdpPacket
set_data_size p size =
    if ltb size (2 ^ 16) then ok (record p { data_size = be16 size }) else err try_from_int_error

abbrev pub udp_bytes : UdpPacket → List ℕ
udp_bytes p =
    as_slice p.ip ++ (list2 p.src_port ++ (list2 p.dst_port ++ (list2 p.data_size ++ list2 p.csum)))

abbrev pub read_udp : Reader UdpPacket
read_udp = do
  ip ← read_ip
  src_port ← read2
  dst_port ← read2
  data_size ← read2
  csum ← read2
  return (record {
    ip = ip;
    src_port = src_port;
    dst_port = dst_port;
    data_size = data_size;
    csum = csum;
  })

pub record IcmpPacket : Type 0 where
  pub ip : IpV4Packet
  pub icmp_type : ℕ
  pub code : ℕ
  pub csum : Bytes2
  pub identifier : Bytes2
  pub sequence : Bytes2

abbrev pub icmp_bytes : IcmpPacket → List ℕ
icmp_bytes p = p.icmp_type ∷ p.code ∷ (list2 p.csum ++ (list2 p.identifier ++ list2 p.sequence))

-- `IcmpType::request`
abbrev pub icmp_echo : ℕ
icmp_echo = 8

-- `IcmpPacket::new_request`; the checksum covers the 8 bytes behind the IPv4 header.
unfoldable pub icmp_request : IpV4Addr → Result IcmpPacket
icmp_request dst =
    let request : IcmpPacket = record {
      ip =
          Ip.new (record { dst = zero_addr; src = zero_addr; eth_type = no_bytes }) dst unset_ip
            icmp 8;
      icmp_type = icmp_echo;
      code = 0;
      csum = no_bytes;
      identifier = no_bytes;
      sequence = no_bytes;
    } in
    elim (calc (icmp_bytes request)) [ none ↦ panic | some c ↦ ok (record request { csum = c }) ]

abbrev pub read_icmp : Reader IcmpPacket
read_icmp = do
  ip ← read_ip
  icmp_type ← read1
  code ← read1
  csum ← read2
  identifier ← read2
  sequence ← read2
  return (record {
    ip = ip;
    icmp_type = icmp_type;
    code = code;
    csum = csum;
    identifier = identifier;
    sequence = sequence;
  })

-- A byte array of a given length.
unfoldable pub read_array : ℕ → Reader (List ℕ)
read_array zero bytes = some ([], bytes)
read_array (suc n) [] = none
read_array (suc n) (b ∷ rest) = elim (read_array n rest) [
  | none ↦ none
  | some (bs, behind) ↦ some (b ∷ bs, behind)
]

-- The multi-byte integers `xid`, `secs` and `flags` are their bytes in memory.
pub record DhcpPacket : Type 0 where
  pub udp : UdpPacket
  pub op : ℕ
  pub htype : ℕ
  pub hlen : ℕ
  pub hops : ℕ
  pub xid : Bytes4
  pub secs : Bytes2
  pub flags : Bytes2
  pub ciaddr : IpV4Addr
  pub yiaddr : IpV4Addr
  pub siaddr : IpV4Addr
  pub giaddr : IpV4Addr
  pub chaddr : EthernetAddr
  pub chaddr_padding : List ℕ
  pub sname : List ℕ
  pub file : List ℕ
  pub cookie : Bytes4

abbrev pub dhcp_size : ℕ
dhcp_size = 282

abbrev pub is_boot_reply : DhcpPacket → Bool
is_boot_reply p = p.op == 2

unfoldable pub read_dhcp : Reader DhcpPacket
read_dhcp = do
  udp ← read_udp
  op ← read1
  htype ← read1
  hlen ← read1
  hops ← read1
  xid ← read4
  secs ← read2
  flags ← read2
  ciaddr ← read4
  yiaddr ← read4
  siaddr ← read4
  giaddr ← read4
  chaddr ← read6
  chaddr_padding ← read_array 10
  sname ← read_array 64
  file ← read_array 128
  cookie ← read4
  return (record {
    udp = udp;
    op = op;
    htype = htype;
    hlen = hlen;
    hops = hops;
    xid = xid;
    secs = secs;
    flags = flags;
    ciaddr = ciaddr;
    yiaddr = yiaddr;
    siaddr = siaddr;
    giaddr = giaddr;
    chaddr = chaddr;
    chaddr_padding = chaddr_padding;
    sname = sname;
    file = file;
    cookie = cookie;
  })

unfoldable pub dhcp_bytes : DhcpPacket → List ℕ
dhcp_bytes p =
    udp_bytes p.udp
    ++ (p.op
        ∷ p.htype
        ∷ p.hlen
        ∷ p.hops
        ∷ (list4 p.xid
            ++ (list2 p.secs
                ++ (list2 p.flags
                    ++ (list4 p.ciaddr
                        ++ (list4 p.yiaddr
                            ++ (list4 p.siaddr
                                ++ (list4 p.giaddr
                                    ++ (list6 p.chaddr
                                        ++ (p.chaddr_padding
                                            ++ (p.sname ++ (p.file ++ list4 p.cookie))))))))))))

-- The UDP header of a request, complete but for the checksum of its IP header.
abbrev request_udp : EthernetAddr → UdpPacket
request_udp src_eth = record {
  ip =
      Ip.new (record { dst = broardcast; src = src_eth; eth_type = ip_v4 })
        (record { b0 = 255; b1 = 255; b2 = 255; b3 = 255 }) unset_ip udp (dhcp_size - ip_size);
  src_port = be16 68;
  dst_port = be16 67;
  data_size = be16 (dhcp_size - ip_size);
  csum = no_bytes;
}

-- `DhcpPacket::request`; the conversion of the size into a `u16` cannot fail.
unfoldable pub dhcp_request : EthernetAddr → Result DhcpPacket
dhcp_request src_eth =
    let udp = request_udp src_eth in
    elim (calc (ip_bytes (clear_checksum udp.ip))) [
      | none ↦ panic
      | some c ↦ ok (record {
        udp = record udp { ip = record udp.ip { csum = c } };
        op = 1;
        htype = 1;
        hlen = 6;
        hops = 0;
        xid = record { b0 = 0x34; b1 = 0x12; b2 = 0; b3 = 0 };
        secs = no_bytes;
        flags = no_bytes;
        ciaddr = unset_ip;
        yiaddr = unset_ip;
        siaddr = unset_ip;
        giaddr = unset_ip;
        chaddr = src_eth;
        chaddr_padding = replicate 10 0;
        sname = replicate 64 0;
        file = replicate 128 0;
        cookie = record { b0 = 99; b1 = 130; b2 = 83; b3 = 99 };
      })
    ]
