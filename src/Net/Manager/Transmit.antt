-- ===== src/Net/Manager/Transmit.antt =====
-- os/src/net/manager.rs: how the network probes its interfaces, and routes what it sends.
use wasabi.Base.{ℕ, zero, suc, ◌+◌, List, [], ◌∷◌, ◌++◌, map, Option, none, some, drop}
use wasabi.Base.{false, if◌then◌else◌, Result, ok, err, panic}
use wasabi.Net.Wire.{eq4}
use wasabi.Net.Ip.{
  IpV4Addr, IpV4Packet, EthernetAddr, ip_v4, network_prefix, as_slice, ip_bytes, read_ip,
  clear_checksum,
}
use wasabi.Net.Checksum.{calc}
use wasabi.Net.Packets.{arp_request, arp_bytes, dhcp_request, dhcp_bytes}
use wasabi.Net.Manager.{Interface, ArpEntry, Network, push_packet, arp_lookup}
use wasabi.Net.Manager.Receive.{handle_receive}

abbrev pub interface_at : List Interface → ℕ → Option Interface
interface_at [] i = none
interface_at (x ∷ xs) zero = some x
interface_at (x ∷ xs) (suc i) = interface_at xs i

-- An ARP request from every interface.
abbrev pub broadcast_arp : IpV4Addr → IpV4Addr → List Interface → List Interface
broadcast_arp src_ip dst_ip ifaces =
    map {A = Interface} {B = Interface}
      (λ x. record x { tx = x.tx ++ (arp_bytes (arp_request x.ethernet_addr src_ip dst_ip) ∷ []) })
      ifaces

-- The frame for a packet: from the own address, to the next hop, with the checksum of its header.
-- The checksum that is calculated always exists (`Net.Checksum.Fold.fold_sum_total`).
unfoldable pub frame :
    IpV4Packet → List ℕ → IpV4Addr → EthernetAddr → EthernetAddr → Result (List ℕ)
frame p rest src_ip next_hop mac =
    let out =
      clear_checksum
        (record p { src = src_ip; eth = record { dst = next_hop; src = mac; eth_type = ip_v4 } }) in
    elim (calc (ip_bytes out)) [
      | none ↦ panic
      | some c ↦ ok (as_slice (record out { csum = c }) ++ rest)
    ]

-- The next hop: the destination itself in the own network, otherwise the router.
unfoldable pub next_hop_info : Network → IpV4Addr → IpV4Addr → IpV4Addr → Option ArpEntry
next_hop_info n src_ip mask dst_ip =
    if eq4 (network_prefix src_ip mask) (network_prefix dst_ip mask)
    then arp_lookup n.arp_table dst_ip
    else elim n.router [ none ↦ none | some router_ip ↦ arp_lookup n.arp_table router_ip ]

-- A packet whose own address and mask are known: it leaves by the interface of its next hop, and
-- is dropped while that is being asked for.
unfoldable pub route :
    Network → IpV4Packet → List ℕ → IpV4Addr → IpV4Addr → Network × Result (Unit {0})
route n p rest src_ip mask = elim (next_hop_info n src_ip mask p.dst) [
  | none ↦ (record n { interfaces = broadcast_arp src_ip p.dst n.interfaces }, ok tt)
  | some e ↦ elim (interface_at n.interfaces e.iface) [
    | none ↦ (n, ok tt)
    | some iface ↦ elim (frame p rest src_ip e.eth iface.ethernet_addr) [
      | err x ↦ (n, err x)
      | panic ↦ (n, panic)
      | ok out ↦ (push_packet n e.iface out, ok tt)
    ]
  ]
]

-- `process_tx`: one packet is taken from the queue; it is dropped when it is too short, or while
-- the own address or the mask is not known.
unfoldable pub process_tx : Network → Network × Result (Unit {0})
process_tx n = elim n.ip_tx_queue [
  | [] ↦ (n, ok tt)
  | org_packet ∷ queue ↦
      let n' = record n { ip_tx_queue = queue } in
      elim (read_ip org_packet) [
        | none ↦ (n', ok tt)
        | some (p, rest) ↦ elim n.self_ip [
          | none ↦ (n', ok tt)
          | some src_ip ↦ elim n.netmask [
            | none ↦ (n', ok tt)
            | some mask ↦ route n' p rest src_ip mask
          ]
        ]
      ]
]

-- The interfaces, in order: one packet is taken from each that has one. An error ends the round.
unfoldable pub receive_from : List Interface → ℕ → Network → Network × Result (Unit {0})
receive_from [] i n = (n, ok tt)
receive_from (iface ∷ rest) i n =
    let skipped = receive_from rest (i + 1) n in
    elim iface.rx [
      | [] ↦ skipped
      | packet ∷ packets ↦
          let popped = record n { interfaces = pop_at i n.interfaces } in
          let (n', handled) = handle_receive popped packet (i, iface.ethernet_addr) in
          elim handled [
            | ok u ↦ receive_from rest (i + 1) n'
            | err e ↦ (n', err e)
            | panic ↦ (n', panic)
          ]
    ]
  where
    pop_at : ℕ → List Interface → List Interface
    pop_at i [] = []
    pop_at zero (x ∷ xs) = record x { rx = drop 1 x.rx } ∷ xs
    pop_at (suc i) (x ∷ xs) = x ∷ pop_at i xs

unfoldable pub process_rx : Network → Network × Result (Unit {0})
unfolding receive_from
process_rx n = receive_from n.interfaces 0 n

-- `probe_interfaces`: a DHCP request from each interface, when one has been added.
unfoldable pub request_addresses : List Interface → Result (List Interface)
request_addresses [] = ok []
request_addresses (x ∷ xs) = elim (dhcp_request x.ethernet_addr) [
  | err e ↦ err e
  | panic ↦ panic
  | ok p ↦ elim (request_addresses xs) [
    | err e ↦ err e
    | panic ↦ panic
    | ok ys ↦ ok (record x { tx = x.tx ++ (dhcp_bytes p ∷ []) } ∷ ys)
  ]
]

unfoldable pub probe_interfaces : Network → Network × Result (Unit {0})
probe_interfaces n =
    let n' = record n { interface_has_added = false } in
    if n.interface_has_added
    then elim (request_addresses n.interfaces) [
      | ok ifaces ↦ (record n' { interfaces = ifaces }, ok tt)
      | err e ↦ (n', err e)
      | panic ↦ (n', panic)
    ]
    else (n, ok tt)
