-- ===== src/Net/Tcp/States.antt =====
-- The state machine of `handle_rx`: the edges between its states, and what every socket that can
-- be reached has.
use wasabi.Base.{ℕ, List, [], ◌∷◌, Option, none, some, ◌≡◌, refl}
use wasabi.Base.{true, false, ◌/=◌, Bool-cases, inl, inr, Result, ok, err, panic}
use wasabi.Net.Wire.{from_be32}
use wasabi.Net.Tcp.Packet.{TcpPacket, is_fin, is_syn, is_ack, read_tcp}
use wasabi.Net.Tcp.Socket.{
  TcpSocketState, TcpSocket, listen, syn_sent, syn_received, established, fin_wait1, fin_wait2,
}
use wasabi.Net.Tcp.Socket.{
  close_wait, closing, last_ack, time_wait, closed, on_packet, answer, handle_rx, ends, content_of,
}
use wasabi.Base.{arith, subst, sym, ◌⊎◌, Option-cases}
use wasabi.Base.Outcome.{Result-cases}
use wasabi.Net.Tcp.Socket.{Reply, reply_segment}
use wasabi.Net.Tcp.Packet.{gen_tcp_packet}

-- The packet acknowledges what the socket has sent so far.
abbrev pub Acks : TcpSocket → TcpPacket → Type 0
Acks s p = (is_ack p ≡ true) × (from_be32 p.ack_num ≡ s.my_next_seq)

-- The edges: what a packet must carry to move a socket from one state to another.
pub data Edge (s : TcpSocket) (p : TcpPacket) : TcpSocketState → TcpSocketState → Type 0 where
  stay : (st : TcpSocketState) → Edge s p st st
  syn_arrives : is_syn p ≡ true → Edge s p listen syn_received
  syn_ack_arrives : is_syn p ≡ true → Acks s p → Edge s p syn_sent established
  ack_arrives : Acks s p → Edge s p syn_received established
  fin_arrives : is_fin p ≡ true → Edge s p established last_ack
  last_ack_arrives : is_ack p ≡ true → s.keep_listening ≡ true → Edge s p last_ack listen
  last_ack_closes : is_ack p ≡ true → s.keep_listening ≡ false → Edge s p last_ack closed

abbrev at : TcpSocketState → TcpSocket → TcpSocket
at st s = record s { state = st }

/=_false : (a b : ℕ) → (a /= b) ≡ false → a ≡ b
/=_false a b h = ground arith

module _ (s : TcpSocket) (p : TcpPacket) (content : List ℕ) where
  on_packet-Edge :
      (st : TcpSocketState) → Edge (at st s) p st (on_packet st (at st s) p content).0.state
  unfolding on_packet
  on_packet-Edge listen = elim (Bool-cases (is_syn p)) [
    | inl y ↦ rw (y, on_packet) (syn_arrives y)
    | inr n ↦ rw (n, on_packet) (stay listen)
  ]
  on_packet-Edge syn_sent = elim (Bool-cases (is_syn p)) [
    | inr n ↦ rw (n, on_packet) (stay syn_sent)
    | inl y ↦ elim (Bool-cases (is_ack p)) [
      | inr n ↦ rw (y, n, on_packet) (stay syn_sent)
      | inl z ↦ elim (Bool-cases (from_be32 p.ack_num /= s.my_next_seq)) [
        | inl n ↦ rw (y, z, n, on_packet) (stay syn_sent)
        | inr w ↦ rw (y, z, w, on_packet) (syn_ack_arrives y (z, /=_false _ _ w))
      ]
    ]
  ]
  on_packet-Edge syn_received = elim (Bool-cases (is_ack p)) [
    | inr n ↦ rw (n, on_packet) (stay syn_received)
    | inl z ↦ elim (Bool-cases (from_be32 p.ack_num /= s.my_next_seq)) [
      | inl n ↦ rw (z, n, on_packet) (stay syn_received)
      | inr w ↦ rw (z, w, on_packet) (ack_arrives (z, /=_false _ _ w))
    ]
  ]
  on_packet-Edge established = elim (Bool-cases (is_fin p)) [
    | inl y ↦ rw (y, on_packet) (fin_arrives y)
    | inr n ↦ rw (n, on_packet) (stay established)
  ]
  on_packet-Edge last_ack = elim (Bool-cases (is_ack p)) [
    | inr n ↦ rw (n, on_packet) (stay last_ack)
    | inl y ↦ elim (Bool-cases s.keep_listening) [
      | inl k ↦ rw (y, k, on_packet) (last_ack_arrives y refl)
      | inr k ↦ rw (y, k, on_packet) (last_ack_closes y refl)
    ]
  ]
  on_packet-Edge fin_wait1 = stay fin_wait1
  on_packet-Edge fin_wait2 = stay fin_wait2
  on_packet-Edge close_wait = stay close_wait
  on_packet-Edge closing = stay closing
  on_packet-Edge time_wait = stay time_wait
  on_packet-Edge closed = stay closed

  -- What is done with the reply changes neither the state nor the ends of the connection.
  pub answer_kept :
      ((answer s p content).0.state ≡ (on_packet s.state s p content).0.state)
      × (ends (answer s p content).0 ≡ ends (on_packet s.state s p content).0)
  unfolding answer ends
  answer_kept = kept (on_packet s.state s p content)
    where
      finish : TcpSocket × Option Reply → TcpSocket × Result (List (List ℕ))
      finish (s', reply) = elim reply [
        | none ↦ (s', ok [])
        | some r ↦ (
          record s' { last_seq_to_ack = r.seq_to_ack },
          elim (gen_tcp_packet (reply_segment s p r)) [
            | ok out_bytes ↦ ok (out_bytes ∷ [])
            | err e ↦ err e
            | panic ↦ panic
          ],
        )
      ]

      kept :
          (o : TcpSocket × Option Reply)
          → ((finish o).0.state ≡ o.0.state) × (ends (finish o).0 ≡ ends o.0)
      kept (s', none) = (refl, refl)
      kept (s', some r) = (refl, refl)

  answer-Edge : Edge s p s.state (answer s p content).0.state
  answer-Edge = subst (λ st. Edge s p s.state st) (sym answer_kept.0) (on_packet-Edge s.state)

-- Whatever bytes arrive, the socket is left as it is, or answers the packet that they hold.
pub handle_rx-cases :
    (s : TcpSocket) (in_bytes : List ℕ)
    → ((handle_rx s in_bytes).0 ≡ s)
      ⊎ ((p : TcpPacket) × (rest : List ℕ) × (content : List ℕ) × (read_tcp in_bytes
            ≡ some (p, rest))
          × (content_of in_bytes p ≡ ok content)
          × ((handle_rx s in_bytes).0 ≡ (answer s p content).0))
unfolding handle_rx
handle_rx-cases s in_bytes = elim (Option-cases (read_tcp in_bytes)) [
  | inl e ↦ inl (rw (e, handle_rx) refl)
  | inr ((p, rest), e) ↦ elim (Result-cases (content_of in_bytes p)) [
    | inl (content, h) ↦ inr (p, rest, content, e, h, rw (e, handle_rx, h) refl)
    | inr (inl (x, h)) ↦ inl (rw (e, handle_rx, h) refl)
    | inr (inr h) ↦ inl (rw (e, handle_rx, h) refl)
  ]
]

-- A packet moves a socket along an edge, whatever bytes arrive; malformed bytes leave its state.
pub handle_rx-Edge :
    (s : TcpSocket) (in_bytes : List ℕ)
    → ((handle_rx s in_bytes).0 ≡ s)
      ⊎ ((p : TcpPacket) × (rest : List ℕ) × (read_tcp in_bytes ≡ some (p, rest))
          × Edge s p s.state (handle_rx s in_bytes).0.state)
handle_rx-Edge s in_bytes = elim (handle_rx-cases s in_bytes) [
  | inl e ↦ inl e
  | inr (p, rest, content, r, c, e) ↦
      inr (p, rest, r, subst (λ t. Edge s p s.state t.state) (sym e) (answer-Edge s p content))
]
