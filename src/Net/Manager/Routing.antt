-- ===== src/Net/Manager/Routing.antt =====
-- `process_tx`: where a packet goes, and what the frame holds that is sent.
use wasabi.Net.Wire.{Bytes2}
use wasabi.Net.Ip.{IpV4Addr, IpV4Packet, EthernetAddr, ip_v4}

-- The IPv4 header that is sent.
abbrev pub routed : IpV4Packet → IpV4Addr → EthernetAddr → EthernetAddr → Bytes2 → IpV4Packet
routed p src_ip next_hop mac c = record p {
  src = src_ip;
  eth = record { dst = next_hop; src = mac; eth_type = ip_v4 };
  csum = c;
}
