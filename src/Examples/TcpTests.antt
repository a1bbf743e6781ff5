-- ===== src/Examples/TcpTests.antt =====
-- os/src/net/tcp.rs at concrete inputs.
use wasabi.Base.{
  ℕ, ◌+◌, subst, ◌-◌, ◌%◌, ◌^◌, ◌≡◌, refl, arith, List, [], ◌∷◌, ◌++◌, some, true, false, ok,
  length, ◌⊎◌,
}
use wasabi.Base.Bytes.{slice}
use wasabi.Net.Wire.{Bytes2, be16, be32, from_be16, from_be32}
use wasabi.Net.Ip.{IpV4Addr}
use wasabi.Net.Tcp.Packet.{TcpPacket, Segment, gen_tcp_packet, tcp_as_slice, read_tcp}
use wasabi.Net.Tcp.Sent.{Fits, header}
use wasabi.Net.Tcp.Checksummed.{pseudo_header}
use wasabi.Net.Checksum.Feed.{words}
use wasabi.Net.Tcp.Layout.{tcp_header, packet_bytes, gen_tcp_packet_lem}
use wasabi.Net.Tcp.Socket.{
  TcpSocket, new_server, established, last_ack, handle_rx, poll_tx, open_socket, ends, content_of,
  answer, on_packet,
}
use wasabi.Net.Tcp.States.{Edge, handle_rx-Edge}
use wasabi.Net.Tcp.Reach.{Reachable, here, next, receive, write, data_segment, poll_tx_server}
use wasabi.Net.Tcp.Delivery.{acknowledgement, established_receives}
use wasabi.Net.Tcp.Handshake.{
  client_of, client_opened, client_done, server_asked, server_done, syn_segment, ack_segment,
  three_way_handshake,
}

abbrev here_ip : IpV4Addr
here_ip = record { b0 = 10; b1 = 0; b2 = 2; b3 = 15 }

abbrev there_ip : IpV4Addr
there_ip = record { b0 = 10; b1 = 0; b2 = 2; b3 = 2 }

abbrev hello : Segment
hello = record {
  to_ip = there_ip;
  to_port = 18080;
  from_ip = here_ip;
  from_port = 49152;
  seq = 2 ^ 32 - 1;
  seq_to_ack = some 7;
  syn = false;
  fin = true;
  payload = 104 ∷ 105 ∷ 33 ∷ [];
}

hello-Fits : Fits hello
hello-Fits = record {
  addresses = omega arith;
  ports = (omega arith, omega arith);
  number = omega arith;
  payload_bytes = omega arith;
  short = omega arith;
}

gen_tcp_packet_lem_example :
    (c : Bytes2) × (gen_tcp_packet hello ≡ ok (packet_bytes hello c))
    × (words (pseudo_header hello ++ (tcp_header hello c ++ hello.payload)) % 65535 ≡ 0)
gen_tcp_packet_lem_example = gen_tcp_packet_lem hello hello-Fits

abbrev idle : TcpSocket
idle = record (new_server 80) { state = established }

established_receives_example :
    (c reply : Bytes2) × (gen_tcp_packet hello ≡ ok (packet_bytes hello c))
    × (handle_rx idle (packet_bytes hello c) ≡ (
      record idle { state = last_ack; rx = 104 ∷ 105 ∷ 33 ∷ []; last_seq_to_ack = 3 },
      ok (packet_bytes (acknowledgement idle hello) reply ∷ []),
    ))
established_receives_example = established_receives idle hello hello-Fits refl (omega arith)

handle_rx-Edge_example :
    ((handle_rx idle []).0 ≡ idle)
    ⊎ ((p : TcpPacket) × (rest : List ℕ) × (read_tcp [] ≡ some (p, rest))
        × Edge idle p established (handle_rx idle []).0.state)
handle_rx-Edge_example = handle_rx-Edge idle []

three_way_handshake_example :
    (syn : List ℕ) × (syn_ack : List ℕ) × (ack : List ℕ) × (open_socket
        (client_of here_ip 49152 there_ip 80)
      ≡ (client_opened here_ip there_ip 49152 80, ok (syn ∷ [])))
    × (handle_rx (new_server 80) syn ≡ (server_asked here_ip there_ip 49152 80, ok (syn_ack ∷ [])))
    × (handle_rx (client_opened here_ip there_ip 49152 80) syn_ack
        ≡ (client_done here_ip there_ip 49152 80, ok (ack ∷ [])))
    × (handle_rx (server_asked here_ip there_ip 49152 80) ack
        ≡ (server_done here_ip there_ip 49152 80 49152 80, ok []))
three_way_handshake_example =
    three_way_handshake here_ip there_ip 49152 80 (omega arith) (omega arith) (omega arith)

-- The packets of a client, without their checksums, which the stack does not check.
abbrev syn_packet : List ℕ
syn_packet = tcp_as_slice (header (syn_segment here_ip there_ip 49152 80))

abbrev ack_packet : List ℕ
ack_packet = tcp_as_slice (header (ack_segment here_ip there_ip 49152 80))

abbrev talking : TcpSocket
talking =
    let s = (handle_rx (handle_rx (new_server 80) syn_packet).0 ack_packet).0 in
    record s { tx = s.tx ++ (111 ∷ 107 ∷ []) }

talking-Reachable : Reachable (new_server 80) talking
talking-Reachable =
    next (next (next here (receive syn_packet)) (receive ack_packet)) (write (111 ∷ 107 ∷ []))

talking_established : talking.state ≡ established
unfolding handle_rx content_of answer on_packet be16 from_be16 be32 from_be32 slice
talking_established = refl

talking_queue : talking.tx ≡ 111 ∷ 107 ∷ []
unfolding handle_rx content_of answer on_packet be16 from_be16 be32 from_be32 slice
talking_queue = refl

abbrev talking_ends : IpV4Addr × ℕ × IpV4Addr × ℕ
talking_ends = (here_ip, 49152, there_ip, 80)

ends_known : ends talking ≡ ok talking_ends
unfolding ends handle_rx content_of answer on_packet be16 from_be16 be32 from_be32 slice
ends_known = refl

talking-Fits : Fits (data_segment talking talking_ends)
unfolding handle_rx content_of answer on_packet be16 from_be16 be32 from_be32 slice
talking-Fits = record {
  addresses = omega arith;
  ports = (omega arith, omega arith);
  number = omega arith;
  payload_bytes = omega arith;
  short = omega arith;
}

only-Fits : (e : IpV4Addr × ℕ × IpV4Addr × ℕ) → ends talking ≡ ok e → Fits (data_segment talking e)
only-Fits e h =
    let same : talking_ends ≡ e = cc (ends_known, h) in
    subst (λ x. Fits (data_segment talking x)) same talking-Fits

poll_tx_server_example :
    (e : IpV4Addr × ℕ × IpV4Addr × ℕ) × (c : Bytes2) × (ends talking ≡ ok e)
    × (poll_tx talking ≡ (
      record talking { tx = []; my_next_seq = (talking.my_next_seq + length talking.tx) % 2 ^ 32 },
      ok (packet_bytes (data_segment talking e) c ∷ []),
    ))
poll_tx_server_example =
    poll_tx_server 80 talking 111 (107 ∷ []) talking-Reachable talking_established talking_queue
      only-Fits
