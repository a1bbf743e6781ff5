-- ===== src/Net/Manager.antt =====
-- os/src/net/manager.rs: the state of the network, what it does with each received packet, and
-- how it routes the packets that are sent. The mutexes are taken and released within each
-- function, and nothing else runs meanwhile. The interfaces are those of os/src/rtl8139.rs, whose
-- `push_packet` queues and whose `pop_packet` dequeues; none is dropped.
pub mod Ports
pub mod Receive
pub mod Transmit
pub mod Routing
use wasabi.Base.{
  ℕ, zero, suc, ◌+◌, ◌-◌, ◌%◌, ◌^◌, List, [], ◌∷◌, ◌++◌, map, Option, none, some, take, length,
}
use wasabi.Base.{
  Bool, true, false, not, ◌&&◌, ◌==◌, ltb, leb, if◌then◌else◌, Result, ok, err, panic, failed,
}
use wasabi.Net.Wire.{from_be16, eq2, eq4}
use wasabi.Net.Packets.{read_udp}
use wasabi.Net.Ip.{
  IpV4Addr, IpV4Packet, EthernetAddr, EthernetHeader, ip_v4, arp, icmp, tcp, udp, network_prefix,
  as_slice, ip_bytes, read_eth, read_ip, from_slice, clear_checksum,
}
use wasabi.Net.Wire.{read4}
use wasabi.Net.Checksum.{calc}
use wasabi.Net.Packets.{
  read_arp, is_response, arp_request, arp_bytes, read_udp, read_icmp, read_dhcp, dhcp_request,
  dhcp_bytes, is_boot_reply, dhcp_size,
}
use wasabi.Net.Tcp.Packet.{read_tcp}
use wasabi.Net.Tcp.Socket.{TcpSocket, new_client, handle_rx, open_socket}

-- `UdpSocket`
pub record UdpSocket : Type 0 where
  pub tx_queue : List (List ℕ)
  pub rx_queue : List (List ℕ)

-- `UdpSocket::handle_rx`
unfoldable pub udp_handle_rx : UdpSocket → List ℕ → UdpSocket × Result (Unit {0})
udp_handle_rx s in_bytes = elim (read_udp in_bytes) [
  | none ↦ (s, err (failed "Sliceable::from_slice: Too small"))
  | some (in_udp, rest) ↦ (record s { rx_queue = s.rx_queue ++ (in_bytes ∷ []) }, ok tt)
]

unfoldable pub push_tx_packet : UdpSocket → List ℕ → UdpSocket
push_tx_packet s packet = record s { tx_queue = s.tx_queue ++ (packet ∷ []) }

-- One poll of `UdpSocketRecvFuture`: the oldest packet, if there is one.
unfoldable pub poll_recv : UdpSocket → UdpSocket × Option (List ℕ)
poll_recv s = elim s.rx_queue [
  | [] ↦ (s, none)
  | packet ∷ packets ↦ (record s { rx_queue = packets }, some packet)
]

-- A `NetworkInterface`: its address, and the packets that wait to be sent and to be received.
pub record Interface : Type 0 where
  pub ethernet_addr : EthernetAddr
  pub tx : List (List ℕ)
  pub rx : List (List ℕ)

-- An entry of the ARP table: the address and the number of the interface.
pub record ArpEntry : Type 0 where
  pub eth : EthernetAddr
  pub iface : ℕ

-- A `BTreeMap` is the list of its insertions, the newest first.
pub record Network : Type 0 where
  pub interfaces : List Interface
  pub interface_has_added : Bool
  pub netmask : Option IpV4Addr
  pub router : Option IpV4Addr
  pub dns : Option IpV4Addr
  pub self_ip : Option IpV4Addr
  pub ip_tx_queue : List (List ℕ)
  pub tcp_dynamic_port_hint : ℕ
  pub tcp_socket_table : List (ℕ × TcpSocket)
  pub udp_socket_table : List (ℕ × UdpSocket)
  pub arp_table : List (IpV4Addr × ArpEntry)

abbrev pub lookup : {V : Type 0} → List (ℕ × V) → ℕ → Option V
lookup [] k = none
lookup ((j, v) ∷ t) k = if j == k then some v else lookup t k

abbrev pub contains_key : {V : Type 0} → List (ℕ × V) → ℕ → Bool
contains_key [] k = false
contains_key ((j, v) ∷ t) k = if j == k then true else contains_key t k

abbrev pub arp_lookup : List (IpV4Addr × ArpEntry) → IpV4Addr → Option ArpEntry
arp_lookup [] ip = none
arp_lookup ((a, e) ∷ t) ip = if eq4 a ip then some e else arp_lookup t ip

abbrev pub register_interface : Network → Interface → Network
register_interface n iface = record n {
  interfaces = n.interfaces ++ (iface ∷ []);
  interface_has_added = true;
}

-- `PORT_RANGE`
abbrev pub in_range : ℕ → Bool
in_range port = leb 49152 port && ltb port 65535

-- `while PORT_RANGE.contains(&port) && locked_table.contains_key(&port) { port += 1; }`; the
-- ports up to 65535 are fuel enough.
unfoldable pub scan : {V : Type 0} → List (ℕ × V) → ℕ → ℕ → ℕ
scan table zero port = port
scan table (suc fuel) port =
    let rest = scan table fuel (port + 1) in
    if in_range port && contains_key table port then rest else port

unfoldable pub pick_unused_dynamic_tcp_port : Network → Result ℕ
pick_unused_dynamic_tcp_port n =
    let from = if not (in_range n.tcp_dynamic_port_hint) then 49152 else n.tcp_dynamic_port_hint in
    let port = scan n.tcp_socket_table (65535 - from) from in
    let again = scan n.tcp_socket_table (65535 - 49152) 49152 in
    if in_range port
    then ok port
    else if in_range again
    then ok again
    else err (failed "No more available TCP port")

-- `register_tcp_socket`, less the spawning of the task that polls the socket.
unfoldable pub register_tcp_socket : Network → TcpSocket → Network × Result ℕ
register_tcp_socket n sock = elim sock.self_port [
  | some self_port ↦
      if contains_key n.tcp_socket_table self_port
      then (n, err (failed "TCP port is already in use"))
      else (record n { tcp_socket_table = (self_port, sock) ∷ n.tcp_socket_table }, ok self_port)
  | none ↦ elim (pick_unused_dynamic_tcp_port n) [
    | err e ↦ (n, err e)
    | panic ↦ (n, panic)
    | ok port ↦ (
      record n {
        tcp_socket_table = (port, record sock { self_port = some port }) ∷ n.tcp_socket_table;
      },
      ok port,
    )
  ]
]

unfoldable pub register_udp_socket : Network → ℕ → UdpSocket → Network
register_udp_socket n port s = record n { udp_socket_table = (port, s) ∷ n.udp_socket_table }

abbrev pub send_ip_packets : Network → List (List ℕ) → Network
send_ip_packets n packets = record n { ip_tx_queue = n.ip_tx_queue ++ packets }

-- A shared socket of the table, after one of its methods: the packets that it sends are queued.
abbrev pub update_tcp :
    Network → ℕ → TcpSocket × Result (List (List ℕ)) → Network × Result (Unit {0})
update_tcp n port (sock, packets) =
    let n' = record n { tcp_socket_table = (port, sock) ∷ n.tcp_socket_table } in
    elim packets [
      | ok out ↦ (send_ip_packets n' out, ok tt)
      | err e ↦ (n', err e)
      | panic ↦ (n', panic)
    ]

-- `open_tcp_socket`
unfoldable pub open_tcp_socket : Network → IpV4Addr → ℕ → Network × Result (Unit {0})
open_tcp_socket n ip port =
    let (n', registered) = register_tcp_socket n (new_client ip port) in
    elim registered [
      | err e ↦ (n', err e)
      | panic ↦ (n', panic)
      | ok self_port ↦ update_tcp n' self_port (
          open_socket
            (record (new_client ip port) { self_port = some self_port; self_ip = n'.self_ip }))
    ]

-- `iface.push_packet(..)`, for the interface of that number
abbrev pub push_at : ℕ → List ℕ → List Interface → List Interface
push_at i packet [] = []
push_at zero packet (x ∷ xs) = record x { tx = x.tx ++ (packet ∷ []) } ∷ xs
push_at (suc i) packet (x ∷ xs) = x ∷ push_at i packet xs

abbrev pub push_packet : Network → ℕ → List ℕ → Network
push_packet n i packet = record n { interfaces = push_at i packet n.interfaces }
