-- ===== src/Net/Tcp/Handshake.antt =====
-- The three-way handshake between a client and a server of this stack.
use wasabi.Base.{ap₂, ℕ, ◌^◌, ◌<◌, List, [], ◌∷◌, ◌++◌, none, some, ◌≡◌, refl, ap, ◌∙◌, arith}
use wasabi.Base.{true, false, Result, ok, err, panic}
use wasabi.Net.Wire.{Bytes2, list4, be16, from_be16, be32, from_be32}
use wasabi.Net.Ip.{IpV4Addr}
use wasabi.Net.Checksum.Feed.{AreBytes}
use wasabi.Net.Tcp.Packet.{Segment, gen_tcp_packet}
use wasabi.Net.Tcp.Sent.{Fits, header}
use wasabi.Net.Tcp.Checksummed.{with_csum}
use wasabi.Net.Tcp.Delivery.{handle_rx-gen_tcp_packet}
use wasabi.Net.Tcp.Socket.{TcpSocket, syn_received, established, new_server, new_client}
use wasabi.Net.Tcp.Socket.{open_socket, handle_rx, answer, on_packet, ends}

-- A client that the manager has given its own address and port.
abbrev pub client_of : IpV4Addr → ℕ → IpV4Addr → ℕ → TcpSocket
client_of self_ip self_port another_ip another_port = record (new_client another_ip another_port) {
  self_ip = some self_ip;
  self_port = some self_port;
}

module _ (cip sip : IpV4Addr) (cport sport : ℕ) where
  abbrev through : ℕ → ℕ
  through port = from_be16 (be16 port)

  abbrev pub syn_segment : Segment
  syn_segment = record {
    to_ip = sip;
    to_port = sport;
    from_ip = cip;
    from_port = cport;
    seq = 1234;
    seq_to_ack = none;
    syn = true;
    fin = false;
    payload = [];
  }

  abbrev pub syn_ack_segment : Segment
  syn_ack_segment = record {
    to_ip = cip;
    to_port = through cport;
    from_ip = sip;
    from_port = through sport;
    seq = 0;
    seq_to_ack = some 1235;
    syn = true;
    fin = false;
    payload = [];
  }

  abbrev pub ack_segment : Segment
  ack_segment = record {
    to_ip = sip;
    to_port = through (through sport);
    from_ip = cip;
    from_port = through (through cport);
    seq = 1235;
    seq_to_ack = some 1;
    syn = false;
    fin = false;
    payload = [];
  }

  abbrev pub client_opened : TcpSocket
  client_opened = record (client_of cip cport sip sport) { my_next_seq = 1235 }

  abbrev pub client_done : TcpSocket
  client_done = record client_opened { state = established; last_seq_to_ack = 1 }

  abbrev pub server_asked : TcpSocket
  server_asked = record (new_server sport) {
    my_next_seq = 1;
    state = syn_received;
    last_seq_to_ack = 1235;
  }

  abbrev pub server_done : ℕ → ℕ → TcpSocket
  server_done c s = record server_asked {
    state = established;
    another_ip = some cip;
    another_port = some c;
    self_ip = some sip;
    self_port = some s;
  }

  abbrev replied : TcpSocket → Result (List ℕ) → TcpSocket × Result (List (List ℕ))
  replied s packet =
      (s, elim packet [ ok out_bytes ↦ ok (out_bytes ∷ []) | err e ↦ err e | panic ↦ panic ])

  client_opens :
      (packet : List ℕ)
      → gen_tcp_packet syn_segment ≡ ok packet
      → open_socket (client_of cip cport sip sport) ≡ (client_opened, ok (packet ∷ []))
  unfolding open_socket ends
  client_opens packet e = rw (e, open_socket) refl

  server_answers :
      (c : Bytes2)
      → answer (new_server sport) (with_csum (header syn_segment) c) []
        ≡ replied server_asked (gen_tcp_packet syn_ack_segment)
  unfolding answer on_packet be16 from_be16 be32 from_be32
  server_answers c = refl

  client_answers :
      (c : Bytes2)
      → answer client_opened (with_csum (header syn_ack_segment) c) []
        ≡ replied client_done (gen_tcp_packet ack_segment)
  unfolding answer on_packet be16 from_be16 be32 from_be32
  client_answers c = refl

  server_accepts :
      (c : Bytes2)
      → answer server_asked (with_csum (header ack_segment) c) [] ≡ (
        server_done (through (through (through cport))) (through (through (through sport))),
        ok [],
      )
  unfolding answer on_packet be16 from_be16 be32 from_be32
  server_accepts c = refl

  module _ (h : AreBytes (list4 cip ++ list4 sip)) (cfits : cport < 2 ^ 16)
      (sfits : sport < 2 ^ 16) where
    swapped : AreBytes (list4 sip ++ list4 cip)
    swapped = omega (arith, h)

    syn_Fits : Fits syn_segment
    syn_Fits = record {
      addresses = swapped;
      ports = (sfits, cfits);
      number = omega arith;
      payload_bytes = tt;
      short = omega arith;
    }

    syn_ack_Fits : Fits syn_ack_segment
    unfolding from_be16 be16
    syn_ack_Fits = record {
      addresses = h;
      ports = (omega arith, omega arith);
      number = omega arith;
      payload_bytes = tt;
      short = omega arith;
    }

    ack_Fits : Fits ack_segment
    unfolding from_be16 be16
    ack_Fits = record {
      addresses = swapped;
      ports = (omega arith, omega arith);
      number = omega arith;
      payload_bytes = tt;
      short = omega arith;
    }

    through-through : (port : ℕ) → port < 2 ^ 16 → through (through (through port)) ≡ port
    unfolding from_be16 be16
    through-through port k = omega arith

-- A client that opens a connection to a listening server, each handed the packets of the other in
-- turn: the SYN is answered by one packet, that by one, and that by none; then both are
-- established, the server knows both ends, and each acknowledges what the other has sent.
pub three_way_handshake :
    (cip sip : IpV4Addr) (cport sport : ℕ)
    → AreBytes (list4 cip ++ list4 sip)
    → cport < 2 ^ 16
    → sport < 2 ^ 16
    → (syn : List ℕ) × (syn_ack : List ℕ) × (ack : List ℕ) × (open_socket
          (client_of cip cport sip sport)
        ≡ (client_opened cip sip cport sport, ok (syn ∷ [])))
      × (handle_rx (new_server sport) syn ≡ (server_asked cip sip cport sport, ok (syn_ack ∷ [])))
      × (handle_rx (client_opened cip sip cport sport) syn_ack
          ≡ (client_done cip sip cport sport, ok (ack ∷ [])))
      × (handle_rx (server_asked cip sip cport sport) ack
          ≡ (server_done cip sip cport sport cport sport, ok []))
three_way_handshake cip sip cport sport h cfits sfits =
    let (c1, syn, gen_syn, rx_syn) =
      handle_rx-gen_tcp_packet (new_server sport) (syn_segment cip sip cport sport)
        (syn_Fits cip sip cport sport h cfits sfits) in
    let (c2, syn_ack, gen_syn_ack, rx_syn_ack) =
      handle_rx-gen_tcp_packet (client_opened cip sip cport sport)
        (syn_ack_segment cip sip cport sport) (syn_ack_Fits cip sip cport sport h cfits sfits) in
    let (c3, ack, gen_ack, rx_ack) =
      handle_rx-gen_tcp_packet (server_asked cip sip cport sport) (ack_segment cip sip cport sport)
        (ack_Fits cip sip cport sport h cfits sfits) in
    (
      syn,
      syn_ack,
      ack,
      client_opens cip sip cport sport syn gen_syn,
      rx_syn
          ∙ server_answers cip sip cport sport c1
          ∙ ap (replied cip sip cport sport (server_asked cip sip cport sport)) gen_syn_ack,
      rx_syn_ack
          ∙ client_answers cip sip cport sport c2
          ∙ ap (replied cip sip cport sport (client_done cip sip cport sport)) gen_ack,
      rx_ack
          ∙ server_accepts cip sip cport sport c3
          ∙ ap₂ (λ c s. (server_done cip sip cport sport c s, ok []))
              (through-through cip sip cport sport h cfits sfits cport cfits)
              (through-through cip sip cport sport h cfits sfits sport sfits),
    )
