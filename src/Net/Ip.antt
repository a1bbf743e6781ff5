-- ===== src/Net/Ip.antt =====
-- os/src/net/eth.rs, os/src/net/ip.rs and `IpV4Addr` of noli/src/net.rs. A packed struct is the
-- record of its fields; `as_slice` lists its bytes in order, and a reader takes it from the front
-- of a byte string, as `Sliceable::from_slice` (noli/src/mem.rs) does when there are enough bytes.
use wasabi.Base.{ℕ, ◌+◌, ◌-◌, ◌%◌, ◌^◌, bit_and, List, ◌∷◌, ◌++◌, none, some}
use wasabi.Base.{Result, ok, err, failed}
use wasabi.Net.Wire.{Bytes2, Bytes4, Bytes6, list2, list4, list6, be16, from_be16, be32, from_be32}
use wasabi.Net.Wire.{Reader, ◌>>=◌, return, read1, read2, read4, read6}

abbrev pub EthernetType : Type 0
EthernetType = Bytes2

abbrev pub ip_v4 : EthernetType
ip_v4 = record { b0 = 0x08; b1 = 0x00 }

abbrev pub arp : EthernetType
arp = record { b0 = 0x08; b1 = 0x06 }

abbrev pub EthernetAddr : Type 0
EthernetAddr = Bytes6

abbrev pub broardcast : EthernetAddr
broardcast = record { b0 = 0xff; b1 = 0xff; b2 = 0xff; b3 = 0xff; b4 = 0xff; b5 = 0xff }

abbrev pub zero_addr : EthernetAddr
zero_addr = record { b0 = 0; b1 = 0; b2 = 0; b3 = 0; b4 = 0; b5 = 0 }

abbrev pub IpV4Addr : Type 0
IpV4Addr = Bytes4

abbrev pub unset_ip : IpV4Addr
unset_ip = record { b0 = 0; b1 = 0; b2 = 0; b3 = 0 }

-- `(u32::from_be_bytes(self.0) & u32::from_be_bytes(mask.0)).to_be_bytes()`
unfoldable pub network_prefix : IpV4Addr → IpV4Addr → IpV4Addr
network_prefix addr mask = be32 (bit_and (from_be32 addr) (from_be32 mask))

pub record EthernetHeader : Type 0 where
  pub dst : EthernetAddr
  pub src : EthernetAddr
  pub eth_type : EthernetType

-- `ident` and `flags`, of type `u16`, are their two bytes in memory.
pub record IpV4Packet : Type 0 where
  pub eth : EthernetHeader
  pub version_and_ihl : ℕ
  pub dscp_and_ecn : ℕ
  pub total_length : Bytes2
  pub ident : Bytes2
  pub flags : Bytes2
  pub ttl : ℕ
  pub protocol : ℕ
  pub csum : Bytes2
  pub src : IpV4Addr
  pub dst : IpV4Addr

abbrev pub eth_size : ℕ
eth_size = 14

abbrev pub ip_size : ℕ
ip_size = 34

-- `IpV4Protocol`
abbrev pub icmp : ℕ
icmp = 1

abbrev pub tcp : ℕ
tcp = 6

abbrev pub udp : ℕ
udp = 17

abbrev pub no_bytes : Bytes2
no_bytes = record { b0 = 0; b1 = 0 }

-- `set_data_length`, which adds the header of 20 bytes and keeps 16 bits
unfoldable pub set_data_length : IpV4Packet → ℕ → IpV4Packet
set_data_length p size = record p { total_length = be16 ((size + (ip_size - eth_size)) % 2 ^ 16) }

-- `IpV4Packet::new`
unfoldable pub new : EthernetHeader → IpV4Addr → IpV4Addr → ℕ → ℕ → IpV4Packet
unfolding set_data_length
new eth dst src protocol data_length =
    set_data_length
      (record {
        eth = eth;
        version_and_ihl = 0x45;
        dscp_and_ecn = 0;
        total_length = no_bytes;
        ident = no_bytes;
        flags = no_bytes;
        ttl = 0xff;
        protocol = protocol;
        csum = no_bytes;
        src = src;
        dst = dst;
      })
      data_length

abbrev pub total_size : IpV4Packet → ℕ
total_size p = from_be16 p.total_length

-- A `usize` difference, which wraps.
abbrev pub data_length : IpV4Packet → ℕ
data_length p = (total_size p + 2 ^ 64 - (ip_size - eth_size)) % 2 ^ 64

abbrev pub clear_checksum : IpV4Packet → IpV4Packet
clear_checksum p = record p { csum = no_bytes }

abbrev pub eth_bytes : EthernetHeader → List ℕ
eth_bytes h = list6 h.dst ++ (list6 h.src ++ list2 h.eth_type)

-- The bytes of the IPv4 header alone, which its checksum covers.
abbrev pub ip_bytes : IpV4Packet → List ℕ
ip_bytes p =
    p.version_and_ihl
    ∷ p.dscp_and_ecn
    ∷ p.total_length.b0
    ∷ p.total_length.b1
    ∷ p.ident.b0
    ∷ p.ident.b1
    ∷ p.flags.b0
    ∷ p.flags.b1
    ∷ p.ttl
    ∷ p.protocol
    ∷ p.csum.b0
    ∷ p.csum.b1
    ∷ (list4 p.src ++ list4 p.dst)

abbrev pub as_slice : IpV4Packet → List ℕ
as_slice p = eth_bytes p.eth ++ ip_bytes p

abbrev pub read_eth : Reader EthernetHeader
read_eth = do
  dst ← read6
  src ← read6
  eth_type ← read2
  return (record { dst = dst; src = src; eth_type = eth_type })

abbrev pub read_ip : Reader IpV4Packet
read_ip = do
  eth ← read_eth
  version_and_ihl ← read1
  dscp_and_ecn ← read1
  total_length ← read2
  ident ← read2
  flags ← read2
  ttl ← read1
  protocol ← read1
  csum ← read2
  src ← read4
  dst ← read4
  return (record {
    eth = eth;
    version_and_ihl = version_and_ihl;
    dscp_and_ecn = dscp_and_ecn;
    total_length = total_length;
    ident = ident;
    flags = flags;
    ttl = ttl;
    protocol = protocol;
    csum = csum;
    src = src;
    dst = dst;
  })

-- `Sliceable::from_slice`
abbrev pub from_slice : {A : Type 0} → Reader A → List ℕ → Result A
from_slice reader bytes = elim (reader bytes) [
  | none ↦ err (failed "Sliceable::from_slice: Too small")
  | some (a, rest) ↦ ok a
]
