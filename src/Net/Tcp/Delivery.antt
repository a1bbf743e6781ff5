-- ===== src/Net/Tcp/Delivery.antt =====
-- A packet that one socket generates, as another socket receives it.
use wasabi.Base.{
  ℕ, ◌+◌, ◌%◌, ◌^◌, List, ◌++◌, ◌≡◌, refl, ap, ◌∙◌, arith, sym, ◌<◌, [], ◌∷◌, some, false, err,
  panic, Result,
}
use wasabi.Base.{Bool, ok, length, if◌then◌else◌}
use wasabi.Base.Bytes.{slice-append}
use wasabi.Net.Wire.{Bytes2, be16, from_be16, from_be16-be16, be32, from_be32, from_be32-be32}
use wasabi.Net.Tcp.Packet.{TcpPacket, Segment, is_fin, gen_tcp_packet, tcp_as_slice, padding}
use wasabi.Net.Tcp.Sent.{Fits, header, header_flags}
use wasabi.Net.Tcp.Checksummed.{with_csum, gen_tcp_packet_runs}
use wasabi.Net.Tcp.Layout.{packet_bytes, packet_bytes_lem, gen_tcp_packet_lem}
use wasabi.Net.Tcp.Socket.{
  TcpSocket, established, last_ack, content_of, answer, reply_segment, handle_rx, on_packet,
  wrapping_add,
}

module _ (s : TcpSocket) (g : Segment) (h : Fits g) (c : Bytes2) where
  bytes : List ℕ
  bytes = tcp_as_slice (with_csum (header g) c) ++ (g.payload ++ padding g.payload)

  -- The content is the payload, without the padding.
  content_of-bytes : content_of bytes (with_csum (header g) c) ≡ ok g.payload
  unfolding content_of bytes be16 from_be16
  content_of-bytes =
      slice-append (tcp_as_slice (with_csum (header g) c)) g.payload (padding g.payload) _ _ refl
        (omega (arith, h.short))

  handle_rx-bytes : handle_rx s bytes ≡ answer s (with_csum (header g) c) g.payload
  unfolding handle_rx bytes
  handle_rx-bytes = rw (content_of-bytes, handle_rx) refl

-- Every segment that fits is generated, and a socket that receives the packet answers its header
-- and its payload.
pub handle_rx-gen_tcp_packet :
    (s : TcpSocket) (g : Segment)
    → Fits g
    → (c : Bytes2) × (packet : List ℕ) × (gen_tcp_packet g ≡ ok packet)
      × (handle_rx s packet ≡ answer s (with_csum (header g) c) g.payload)
unfolding bytes
handle_rx-gen_tcp_packet s g h =
    let (c, e, v) = gen_tcp_packet_runs g h in (c, bytes s g h c, e, handle_rx-bytes s g h c)

-- The socket that an established one becomes.
abbrev received : TcpSocket → Bool → ℕ → List ℕ → TcpSocket
received s fin number content = record s {
  state = if fin then last_ack else established;
  rx = s.rx ++ content;
  last_seq_to_ack = number;
}

-- What is done with the packet that has been generated in reply.
abbrev replied : Result (List ℕ) → Result (List (List ℕ))
replied packet = elim packet [ ok out_bytes ↦ ok (out_bytes ∷ []) | err e ↦ err e | panic ↦ panic ]

abbrev acked : Bool → ℕ → ℕ → ℕ
acked fin number size = wrapping_add (if fin then wrapping_add number 1 else number) (size % 2 ^ 32)

answer_established :
    (s : TcpSocket) (p : TcpPacket) (content : List ℕ)
    → s.state ≡ established
    → answer s p content ≡ (
      received s (is_fin p) (acked (is_fin p) (from_be32 p.seq_num) (length content)) content,
      replied (
          gen_tcp_packet (
            reply_segment s p (record {
              seq_to_ack = acked (is_fin p) (from_be32 p.seq_num) (length content);
              syn = false;
              fin = is_fin p;
            }))),
    )
unfolding answer on_packet
answer_established s p content e = rw (e, on_packet) refl

-- What an established socket acknowledges of a segment: all its bytes, and the FIN.
abbrev pub acknowledged : Segment → ℕ
acknowledged g = (g.seq + (if g.fin then 1 else 0) + length g.payload) % 2 ^ 32

-- The reply to a segment: an acknowledgement without payload, from the receiver to the sender
abbrev pub acknowledgement : TcpSocket → Segment → Segment
acknowledgement s g = record {
  to_ip = g.from_ip;
  to_port = g.from_port;
  from_ip = g.to_ip;
  from_port = g.to_port;
  seq = s.my_next_seq;
  seq_to_ack = some (acknowledged g);
  syn = false;
  fin = g.fin;
  payload = [];
}

acknowledgement-Fits :
    (s : TcpSocket) (g : Segment) → Fits g → s.my_next_seq < 2 ^ 32 → Fits (acknowledgement s g)
acknowledgement-Fits s g h number = record {
  addresses = omega (arith, h.addresses);
  ports = (h.ports.1, h.ports.0);
  number = number;
  payload_bytes = tt;
  short = omega arith;
}

acked_lem :
    (g : Segment)
    → Fits g
    → acked g.fin (from_be32 (be32 g.seq)) (length g.payload) ≡ acknowledged g
acked_lem g h = rw (from_be32-be32 g.seq h.number) (ground arith)

-- The answer to the header of a segment
answer-header :
    (s : TcpSocket) (g : Segment) (c : Bytes2)
    → Fits g
    → s.state ≡ established
    → answer s (with_csum (header g) c) g.payload ≡ (
      received s g.fin (acknowledged g) g.payload,
      replied (gen_tcp_packet (acknowledgement s g)),
    )
answer-header s g c h e =
    answer_established s (with_csum (header g) c) g.payload e
    ∙ rw
        (
          (header_flags g).1,
          acked_lem g h,
          from_be16-be16 g.from_port h.ports.1,
          from_be16-be16 g.to_port h.ports.0,
        )
        refl

-- An established socket whose next sequence number is below 2 ^ 32, and that receives a generated
-- packet, appends exactly its payload to what it has received, moves to LastAck on a FIN, and sends
-- one packet in reply: without payload, from the receiver to the sender, numbered by my_next_seq,
-- acknowledging every byte and the FIN, modulo 2 ^ 32, and with a FIN if one has been received.
pub established_receives :
    (s : TcpSocket) (g : Segment)
    → Fits g
    → s.state ≡ established
    → s.my_next_seq < 2 ^ 32
    → (c reply : Bytes2) × (gen_tcp_packet g ≡ ok (packet_bytes g c))
      × (handle_rx s (packet_bytes g c) ≡ (
        record s {
          state = if g.fin then last_ack else established;
          rx = s.rx ++ g.payload;
          last_seq_to_ack = (g.seq + (if g.fin then 1 else 0) + length g.payload) % 2 ^ 32;
        },
        ok (packet_bytes (acknowledgement s g) reply ∷ []),
      ))
unfolding bytes
established_receives s g h e number =
    let (c, sends, sum) = gen_tcp_packet_lem g h in
    let (reply, answers, sum') =
      gen_tcp_packet_lem (acknowledgement s g) (acknowledgement-Fits s g h number) in
    (
      c,
      reply,
      sends,
      ap (handle_rx s) (sym (packet_bytes_lem g c))
          ∙ handle_rx-bytes s g h c
          ∙ answer-header s g c h e
          ∙ ap (λ r. (received s g.fin (acknowledged g) g.payload, replied r)) answers,
    )
