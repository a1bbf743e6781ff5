-- ===== src/Net/Tcp/Socket.antt =====
-- `TcpSocket` of os/src/net/tcp.rs. The mutexes of its fields are taken and released within each
-- method; a method returns the new socket, and the packets that it hands to the network.
use wasabi.Base.{ℕ, ◌+◌, ◌-◌, ◌%◌, ◌^◌, List, [], ◌∷◌, ◌++◌, Option, none, some}
use wasabi.Base.{
  Bool, true, false, not, ◌||◌, if◌then◌else◌, ◌/=◌, length, Result, ok, err, panic, failed, ok_or,
}
use wasabi.Base.Bytes.{slice}
use wasabi.Net.Wire.{from_be16, from_be32}
use wasabi.Net.Ip.{IpV4Addr, ip_size, data_length}
use wasabi.Net.Tcp.Packet.{
  TcpPacket, Segment, header_len, is_fin, is_syn, is_ack, read_tcp, gen_tcp_packet,
}

pub data TcpSocketState : Type 0 where
  listen syn_sent syn_received established fin_wait1 fin_wait2 : TcpSocketState
  close_wait closing last_ack time_wait closed : TcpSocketState

pub record TcpSocket : Type 0 where
  pub self_ip : Option IpV4Addr
  pub self_port : Option ℕ
  pub another_ip : Option IpV4Addr
  pub another_port : Option ℕ
  pub my_next_seq : ℕ
  pub last_seq_to_ack : ℕ
  pub state : TcpSocketState
  pub rx : List ℕ
  pub tx : List ℕ
  pub keep_listening : Bool

abbrev pub new_server : ℕ → TcpSocket
new_server src_port = record {
  self_ip = none;
  self_port = some src_port;
  another_ip = none;
  another_port = none;
  my_next_seq = 0;
  last_seq_to_ack = 0;
  state = listen;
  rx = [];
  tx = [];
  keep_listening = true;
}

abbrev pub new_client : IpV4Addr → ℕ → TcpSocket
new_client dst_ip dst_port = record {
  self_ip = none;
  self_port = none;
  another_ip = some dst_ip;
  another_port = some dst_port;
  my_next_seq = 0;
  last_seq_to_ack = 0;
  state = syn_sent;
  rx = [];
  tx = [];
  keep_listening = false;
}

-- `u32::wrapping_add`
abbrev pub wrapping_add : ℕ → ℕ → ℕ
wrapping_add a b = (a + b) % 2 ^ 32

-- What is sent in reply, when something is.
pub record Reply : Type 0 where
  pub seq_to_ack : ℕ
  pub syn : Bool
  pub fin : Bool

-- The `match` of `handle_rx`, by the state that it finds: the socket afterwards, and the reply;
-- `none` is an early `return Ok(())`. `content` is the payload of the packet.
unfoldable pub on_packet :
    TcpSocketState → TcpSocket → TcpPacket → List ℕ → TcpSocket × Option Reply
on_packet listen s p content = if not (is_syn p) then (s, none) else (
  record s { my_next_seq = wrapping_add s.my_next_seq 1; state = syn_received },
  some (record { seq_to_ack = wrapping_add (from_be32 p.seq_num) 1; syn = true; fin = false }),
)
on_packet syn_sent s p content =
    if not (is_syn p) || not (is_ack p)
    then (s, none)
    else if from_be32 p.ack_num /= s.my_next_seq
    then (s, none)
    else (
      record s { state = established },
      some (record { seq_to_ack = wrapping_add (from_be32 p.seq_num) 1; syn = false; fin = false }),
    )
on_packet syn_received s p content =
    if not (is_ack p) || from_be32 p.ack_num /= s.my_next_seq then (s, none) else (
      record s {
        state = established;
        another_ip = some p.ip.src;
        another_port = some (from_be16 p.src_port);
        self_ip = some p.ip.dst;
        self_port = some (from_be16 p.dst_port);
      },
      none,
    )
on_packet established s p content =
    let acked = if is_fin p then wrapping_add (from_be32 p.seq_num) 1 else from_be32 p.seq_num in
    (
      record s { state = if is_fin p then last_ack else established; rx = s.rx ++ content },
      some (record {
        seq_to_ack = wrapping_add acked (length content % 2 ^ 32);
        syn = false;
        fin = is_fin p;
      }),
    )
on_packet last_ack s p content =
    if is_ack p
    then (record s { state = if s.keep_listening then listen else closed }, none)
    else (s, some (record { seq_to_ack = from_be32 p.seq_num; syn = false; fin = false }))
on_packet _ s p content = (s, none)

-- `&in_packet[34 + header_len..][..data_length - header_len]`; the difference wraps, and the
-- slices panic out of range.
unfoldable pub content_of : List ℕ → TcpPacket → Result (List ℕ)
content_of in_packet p =
    let from = ip_size + header_len p in
    let size = (data_length p.ip + 2 ^ 64 - header_len p) % 2 ^ 64 in
    slice in_packet from (from + size)

-- The packet is answered with its addresses and ports exchanged, numbered by `my_next_seq` as it
-- was before.
abbrev pub reply_segment : TcpSocket → TcpPacket → Reply → Segment
reply_segment s p r = record {
  to_ip = p.ip.src;
  to_port = from_be16 p.src_port;
  from_ip = p.ip.dst;
  from_port = from_be16 p.dst_port;
  seq = s.my_next_seq;
  seq_to_ack = some r.seq_to_ack;
  syn = r.syn;
  fin = r.fin;
  payload = [];
}

-- What `handle_rx` does with a packet that has been taken apart.
unfoldable pub answer : TcpSocket → TcpPacket → List ℕ → TcpSocket × Result (List (List ℕ))
unfolding on_packet
answer s p content =
    let (s', reply) = on_packet s.state s p content in
    elim reply [
      | none ↦ (s', ok [])
      | some r ↦ (
        record s' { last_seq_to_ack = r.seq_to_ack },
        elim (gen_tcp_packet (reply_segment s p r)) [
          | ok out_bytes ↦ ok (out_bytes ∷ [])
          | err e ↦ err e
          | panic ↦ panic
        ],
      )
    ]

unfoldable pub handle_rx : TcpSocket → List ℕ → TcpSocket × Result (List (List ℕ))
unfolding answer content_of
handle_rx s in_bytes = elim (read_tcp in_bytes) [
  | none ↦ (s, err (failed "Sliceable::from_slice: Too small"))
  | some (p, rest) ↦ elim (content_of in_bytes p) [
    | ok content ↦ answer s p content
    | err e ↦ (s, err e)
    | panic ↦ (s, panic)
  ]
]

abbrev pub is_established : TcpSocket → Bool
is_established s = elim s.state [ established ↦ true | _ ↦ false ]

abbrev pub is_trying_to_connect : TcpSocket → Bool
is_trying_to_connect s = elim s.state [ syn_sent ↦ true | syn_received ↦ true | _ ↦ false ]

abbrev pub is_empty : List ℕ → Bool
is_empty [] = true
is_empty (b ∷ bs) = false

-- `Err(Error::Failed("another_ip should be populated"))` and its like
infixl 5 ◌>>=◌
abbrev ◌>>=◌ : {A B : Type 0} → Result A → (A → Result B) → Result B
ok a >>= f = f a
err e >>= f = err e
panic >>= f = panic

-- The four ends of the connection, or the first error.
unfoldable pub ends : TcpSocket → Result (IpV4Addr × ℕ × IpV4Addr × ℕ)
ends s = do
  to_ip ← ok_or s.another_ip (failed "another_ip should be populated")
  to_port ← ok_or s.another_port (failed "another_port should be populated")
  from_ip ← ok_or s.self_ip (failed "self_ip should be populated")
  from_port ← ok_or s.self_port (failed "self_port should be populated")
  ok (to_ip, to_port, from_ip, from_port)

unfoldable pub sent : Result (List ℕ) → Result (List (List ℕ))
sent packet = do out_bytes ← packet; ok (out_bytes ∷ [])

-- Everything that waits in `tx_data` is drained into one packet. The second test of the state,
-- between which and the first nothing runs, cannot fail.
unfoldable pub poll_tx : TcpSocket → TcpSocket × Result (List (List ℕ))
unfolding ends sent
poll_tx s = if is_empty s.tx || not (is_established s) then (s, ok []) else elim (ends s) [
  | err e ↦ (s, err e)
  | panic ↦ (s, panic)
  | ok (to_ip, to_port, from_ip, from_port) ↦ (
    record s { tx = []; my_next_seq = wrapping_add s.my_next_seq (length s.tx % 2 ^ 32) },
    sent (
        gen_tcp_packet (record {
          to_ip = to_ip;
          to_port = to_port;
          from_ip = from_ip;
          from_port = from_port;
          seq = s.my_next_seq;
          seq_to_ack = some s.last_seq_to_ack;
          syn = false;
          fin = false;
          payload = s.tx;
        })),
  )
]

abbrev pub gen_syn_packet : IpV4Addr → ℕ → IpV4Addr → ℕ → ℕ → Result (List ℕ)
gen_syn_packet to_ip to_port from_ip from_port seq = gen_tcp_packet (record {
  to_ip = to_ip;
  to_port = to_port;
  from_ip = from_ip;
  from_port = from_port;
  seq = seq;
  seq_to_ack = none;
  syn = true;
  fin = false;
  payload = [];
})

-- `open` sends the SYN that begins a connection; its sequence number is always 1234.
unfoldable pub open_socket : TcpSocket → TcpSocket × Result (List (List ℕ))
unfolding ends
open_socket s = elim (ends s) [
  | err e ↦ (s, err e)
  | panic ↦ (s, panic)
  | ok (to_ip, to_port, from_ip, from_port) ↦
      elim (gen_syn_packet to_ip to_port from_ip from_port 1234) [
        | ok syn_packet ↦ (record s { my_next_seq = wrapping_add 1234 1 }, ok (syn_packet ∷ []))
        | err e ↦ (s, err e)
        | panic ↦ (s, panic)
      ]
]
