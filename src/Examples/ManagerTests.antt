-- ===== src/Examples/ManagerTests.antt =====
-- os/src/net/manager.rs at concrete inputs.
use wasabi.Base.{
  ℕ, ◌≤◌, ◌<◌, ◌≡◌, List, [], ◌∷◌, ◌++◌, none, some, true, false, ok, err, failed, ◌⊎◌,
}
use wasabi.Net.Ip.{IpV4Addr, IpV4Packet, EthernetAddr, zero_addr, as_slice, ip_v4}
use wasabi.Net.Tcp.Socket.{new_server}
use wasabi.Net.Manager.{Network, Interface, ArpEntry, contains_key, pick_unused_dynamic_tcp_port}
use wasabi.Net.Manager.Ports.{pick_unused_dynamic_tcp_port_lem}

abbrev own_ip : IpV4Addr
own_ip = record { b0 = 10; b1 = 0; b2 = 2; b3 = 15 }

abbrev router_ip : IpV4Addr
router_ip = record { b0 = 10; b1 = 0; b2 = 2; b3 = 2 }

abbrev far_ip : IpV4Addr
far_ip = record { b0 = 8; b1 = 8; b2 = 8; b3 = 8 }

abbrev mask : IpV4Addr
mask = record { b0 = 255; b1 = 255; b2 = 255; b3 = 0 }

abbrev own_mac : EthernetAddr
own_mac = record { b0 = 2; b1 = 0; b2 = 0; b3 = 0; b4 = 0; b5 = 1 }

abbrev router_mac : EthernetAddr
router_mac = record { b0 = 2; b1 = 0; b2 = 0; b3 = 0; b4 = 0; b5 = 2 }

abbrev ping : IpV4Packet
ping = record {
  eth = record { dst = zero_addr; src = zero_addr; eth_type = ip_v4 };
  version_and_ihl = 0x45;
  dscp_and_ecn = 0;
  total_length = record { b0 = 0; b1 = 28 };
  ident = record { b0 = 0; b1 = 0 };
  flags = record { b0 = 0; b1 = 0 };
  ttl = 0xff;
  protocol = 1;
  csum = record { b0 = 0; b1 = 0 };
  src = own_ip;
  dst = far_ip;
}

abbrev payload : List ℕ
payload = 8 ∷ 0 ∷ 0 ∷ 0 ∷ 0 ∷ 0 ∷ 0 ∷ 0 ∷ []

abbrev iface : Interface
iface = record { ethernet_addr = own_mac; tx = []; rx = [] }

abbrev hop : ArpEntry
hop = record { eth = router_mac; iface = 0 }

abbrev network : Network
network = record {
  interfaces = iface ∷ [];
  interface_has_added = false;
  netmask = some mask;
  router = some router_ip;
  dns = none;
  self_ip = some own_ip;
  ip_tx_queue = (as_slice ping ++ payload) ∷ [];
  tcp_dynamic_port_hint = 0;
  tcp_socket_table = (49152, new_server 49152) ∷ [];
  udp_socket_table = [];
  arp_table = (router_ip, hop) ∷ [];
}

pick_unused_dynamic_tcp_port_lem_example :
    ((port : ℕ) × (pick_unused_dynamic_tcp_port network ≡ ok port)
      × (49152 ≤ port)
      × (port < 65535)
      × (contains_key network.tcp_socket_table port ≡ false))
    ⊎ ((pick_unused_dynamic_tcp_port network ≡ err (failed "No more available TCP port"))
        × ((port : ℕ)
            → 49152 ≤ port
            → port < 65535
            → contains_key network.tcp_socket_table port ≡ true))
pick_unused_dynamic_tcp_port_lem_example = pick_unused_dynamic_tcp_port_lem network
