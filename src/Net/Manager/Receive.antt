-- ===== src/Net/Manager/Receive.antt =====
-- os/src/net/manager.rs: what the network does with each packet that it receives.
use wasabi.Base.{ℕ, zero, suc, List, [], ◌∷◌, Option, none, some, take, length}
use wasabi.Base.{not, ◌&&◌, ◌==◌, ltb, if◌then◌else◌, Result, ok, err, panic, failed}
use wasabi.Net.Wire.{from_be16, eq2}
use wasabi.Net.Ip.{IpV4Addr, EthernetAddr, ip_v4, arp, icmp, tcp, udp, read_eth, read_ip}
use wasabi.Net.Wire.{read4}
use wasabi.Net.Packets.{
  read_arp, is_response, arp_request, arp_bytes, read_udp, read_icmp, read_dhcp, is_boot_reply,
}
use wasabi.Net.Tcp.Packet.{read_tcp}
use wasabi.Net.Tcp.Socket.{handle_rx}
use wasabi.Net.Manager.{
  Network, lookup, register_udp_socket, udp_handle_rx, update_tcp, push_packet,
}

-- The interface that a packet has been received from: its number and its address.
abbrev pub Source : Type 0
Source = ℕ × EthernetAddr

-- What `IpV4Addr::from_slice(&content)` finds.
abbrev addr_of : List ℕ → Option IpV4Addr
addr_of content = elim (read4 content) [ none ↦ none | some (a, rest) ↦ some a ]

-- One option of a DHCP reply, of at least one byte as its length says.
unfoldable pub handle_option :
    Network → Source → IpV4Addr → ℕ → List ℕ → Network × Result (Unit {0})
handle_option n (i, mac) new_self_ip op content =
    if op == 53
    then (n, elim content [ [] ↦ panic | t ∷ ts ↦ ok tt ])
    else if op == 1
    then (
      elim (addr_of content) [ none ↦ n | some netmask ↦ record n { netmask = some netmask } ],
      ok tt,
    )
    else if op == 3
    then (
      elim (addr_of content) [
        | none ↦ n
        | some router ↦
            push_packet (record n { router = some router }) i
              (arp_bytes (arp_request mac new_self_ip router))
      ],
      ok tt,
    )
    else if op == 6
    then (
      elim (addr_of content) [
        | none ↦ n
        | some dns ↦
            push_packet (record n { dns = some (record { b0 = 8; b1 = 8; b2 = 8; b3 = 8 }) }) i
              (arp_bytes (arp_request mac new_self_ip dns))
      ],
      ok tt,
    )
    else (n, ok tt)

-- The loop over the options; `skip` bytes are passed by first, which `advance_by` has checked.
unfoldable pub walk_options : Source → IpV4Addr → ℕ → Network → List ℕ → Network × Result (Unit {0})
walk_options src ip skip n [] = (n, ok tt)
walk_options src ip (suc skip) n (b ∷ rest) = walk_options src ip skip n rest
walk_options src ip zero n (op ∷ []) = (n, ok tt)
walk_options src ip zero n (op ∷ len ∷ rest) =
    let padded = walk_options src ip zero n (len ∷ rest) in
    if op == 0
    then padded
    else if op == 255
    then (n, ok tt)
    else if len == 0
    then (n, ok tt)
    else let (n', handled) = handle_option n src ip op (take len rest) in
      elim handled [
        | err e ↦ (n', err e)
        | panic ↦ (n', panic)
        | ok u ↦
            if ltb (length rest) len
            then (n', err (failed "Invalid op content len"))
            else walk_options src ip len n' rest
      ]

-- `handle_rx_dhcp_client`
unfoldable pub handle_rx_dhcp_client : Network → List ℕ → Source → Network × Result (Unit {0})
handle_rx_dhcp_client n packet src = elim (read_dhcp packet) [
  | none ↦ (n, err (failed "Sliceable::from_slice: Too small"))
  | some (dhcp, options) ↦
      if not (is_boot_reply dhcp)
      then (n, ok tt)
      else walk_options src dhcp.yiaddr 0 (record n { self_ip = some dhcp.yiaddr }) options
]

-- `handle_rx_udp`
unfoldable pub handle_rx_udp : Network → List ℕ → Source → Network × Result (Unit {0})
handle_rx_udp n packet src = elim (read_udp packet) [
  | none ↦ (n, err (failed "Sliceable::from_slice: Too small"))
  | some (p, rest) ↦
      if from_be16 p.src_port == 67 && from_be16 p.dst_port == 68
      then handle_rx_dhcp_client n packet src
      else elim (lookup n.udp_socket_table (from_be16 p.dst_port)) [
        | none ↦ (n, ok tt)
        | some sock ↦
            let (sock', handled) = udp_handle_rx sock packet in
            (register_udp_socket n (from_be16 p.dst_port) sock', handled)
      ]
]

-- `handle_rx_tcp`
unfoldable pub handle_rx_tcp : Network → List ℕ → Network × Result (Unit {0})
handle_rx_tcp n in_bytes = elim (read_tcp in_bytes) [
  | none ↦ (n, err (failed "Sliceable::from_slice: Too small"))
  | some (p, rest) ↦ elim (lookup n.tcp_socket_table (from_be16 p.dst_port)) [
    | none ↦ (n, ok tt)
    | some sock ↦ update_tcp n (from_be16 p.dst_port) (handle_rx sock in_bytes)
  ]
]

unfoldable pub handle_rx_icmp : Network → List ℕ → Network × Result (Unit {0})
handle_rx_icmp n packet = elim (read_icmp packet) [
  | none ↦ (n, err (failed "Sliceable::from_slice: Too small"))
  | some (p, rest) ↦ (n, ok tt)
]

-- `handle_rx_arp`, which learns from responses alone
unfoldable pub handle_rx_arp : Network → List ℕ → Source → Network × Result (Unit {0})
handle_rx_arp n packet (i, mac) = elim (read_arp packet) [
  | none ↦ (n, err (failed "handle_rx_arp: Not a valid ARP Packet"))
  | some (p, rest) ↦
      if is_response p
      then (
        record n {
          arp_table = (p.sender_ip, record { eth = p.sender_mac; iface = i }) ∷ n.arp_table;
        },
        ok tt,
      )
      else (n, ok tt)
]

-- `handle_receive`: by the type of the frame, then by the protocol of the packet
unfoldable pub handle_receive : Network → List ℕ → Source → Network × Result (Unit {0})
handle_receive n packet src = elim (read_eth packet) [
  | none ↦ (n, err (failed "Sliceable::from_slice: Too small"))
  | some (eth, r) ↦
      if eq2 eth.eth_type ip_v4
      then elim (read_ip packet) [
        | none ↦ (n, err (failed "Sliceable::from_slice: Too small"))
        | some (ip, s) ↦
            if ip.protocol == udp
            then handle_rx_udp n packet src
            else if ip.protocol == tcp
            then handle_rx_tcp n packet
            else if ip.protocol == icmp
            then handle_rx_icmp n packet
            else (n, ok tt)
      ]
      else if eq2 eth.eth_type arp
      then handle_rx_arp n packet src
      else (n, ok tt)
]
