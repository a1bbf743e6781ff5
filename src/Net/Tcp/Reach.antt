-- ===== src/Net/Tcp/Reach.antt =====
-- The sockets that can be reached, and what `poll_tx` sends from them.
use wasabi.Base.{
  ap, arith, ℕ, ◌+◌, ◌%◌, ◌^◌, List, [], ◌∷◌, ◌++◌, some, ◌≡◌, refl, ◌∙◌, subst, sym, inl, inr,
}
use wasabi.Base.{false, not, Bool-cases, ok, length}
use wasabi.Net.Ip.{IpV4Addr}
use wasabi.Net.Tcp.Packet.{TcpPacket, Segment, gen_tcp_packet, is_syn, is_ack}
use wasabi.Net.Wire.{from_be32, Bytes2}
use wasabi.Net.Tcp.Sent.{Fits}
use wasabi.Net.Tcp.Layout.{packet_bytes, gen_tcp_packet_lem}
use wasabi.Net.Tcp.Socket.{
  TcpSocketState, TcpSocket, listen, syn_sent, syn_received, established, fin_wait1, fin_wait2,
}
use wasabi.Net.Tcp.Socket.{
  close_wait, closing, last_ack, time_wait, closed, on_packet, answer, handle_rx, poll_tx, ends,
  sent,
}
use wasabi.Net.Tcp.Socket.{new_server, wrapping_add, is_empty, is_established}
use wasabi.Base.Outcome.{Result-cases}
use wasabi.Net.Tcp.States.{answer_kept, handle_rx-cases}
use wasabi.Base.{◌/=◌, ◌||◌}

-- Both ends of the connection are known.
abbrev pub HasEnds : TcpSocket → Type 0
HasEnds s = (e : IpV4Addr × ℕ × IpV4Addr × ℕ) × (ends s ≡ ok e)

-- Every state but those before a packet of the peer has been accepted.
abbrev pub NeedsEnds : TcpSocketState → Type 0
NeedsEnds listen = ⊥
NeedsEnds syn_received = ⊥
NeedsEnds _ = Unit {0}

abbrev pub IsConnected : TcpSocket → Type 0
IsConnected s = NeedsEnds s.state → HasEnds s

abbrev at : TcpSocketState → TcpSocket → TcpSocket
at st s = record s { state = st }

module _ (s : TcpSocket) (p : TcpPacket) (content : List ℕ) where
  on_packet-IsConnected :
      (st : TcpSocketState)
      → IsConnected (at st s)
      → IsConnected (on_packet st (at st s) p content).0
  unfolding on_packet ends
  on_packet-IsConnected listen c = elim (Bool-cases (is_syn p)) [
    | inl y ↦ rw (y, on_packet) (λ n. absurd n)
    | inr n ↦ rw (n, on_packet) c
  ]
  on_packet-IsConnected syn_sent c = elim (Bool-cases (not (is_syn p) || not (is_ack p))) [
    | inl y ↦ rw (y, on_packet) c
    | inr n ↦ elim (Bool-cases (from_be32 p.ack_num /= s.my_next_seq)) [
      | inl y ↦ rw (n, y, on_packet) c
      | inr m ↦ rw (n, m, on_packet) (λ u. c tt)
    ]
  ]
  on_packet-IsConnected syn_received c =
      elim (Bool-cases (not (is_ack p) || from_be32 p.ack_num /= s.my_next_seq)) [
        | inl y ↦ rw (y, on_packet) c
        | inr n ↦ rw (n, on_packet) (λ u. (_, refl))
      ]
  on_packet-IsConnected established c = λ u. c tt
  on_packet-IsConnected last_ack c = elim (Bool-cases (is_ack p)) [
    | inl y ↦ rw (y, on_packet) (λ u. c tt)
    | inr n ↦ rw (n, on_packet) c
  ]
  on_packet-IsConnected fin_wait1 c = c
  on_packet-IsConnected fin_wait2 c = c
  on_packet-IsConnected close_wait c = c
  on_packet-IsConnected closing c = c
  on_packet-IsConnected time_wait c = c
  on_packet-IsConnected closed c = c

IsConnected-kept :
    (s t : TcpSocket) → t.state ≡ s.state → ends t ≡ ends s → IsConnected s → IsConnected t
IsConnected-kept s t e f c u = ((c (subst NeedsEnds e u)).0, f ∙ (c (subst NeedsEnds e u)).1)

handle_rx-IsConnected :
    (s : TcpSocket) (in_bytes : List ℕ) → IsConnected s → IsConnected (handle_rx s in_bytes).0
handle_rx-IsConnected s in_bytes c = elim (handle_rx-cases s in_bytes) [
  | inl e ↦ subst IsConnected (sym e) c
  | inr (p, rest, content, r, k, e) ↦ subst IsConnected (sym e) (
      IsConnected-kept (on_packet s.state s p content).0 (answer s p content).0
        (answer_kept s p content).0 (answer_kept s p content).1
        (on_packet-IsConnected s p content s.state c))
]

-- What happens to a socket: a packet arrives, the owner queues or takes bytes, the network polls.
pub data Step (s : TcpSocket) : TcpSocket → Type 0 where
  receive : (in_bytes : List ℕ) → Step s (handle_rx s in_bytes).0
  write : (bytes : List ℕ) → Step s (record s { tx = s.tx ++ bytes })
  read : (left : List ℕ) → Step s (record s { rx = left })
  poll : Step s (poll_tx s).0

pub data Reachable (first : TcpSocket) : TcpSocket → Type 0 where
  here : Reachable first first
  next : {s t : TcpSocket} → Reachable first s → Step s t → Reachable first t

ends_numbered :
    (s : TcpSocket) (bytes : List ℕ) (n : ℕ)
    → ends (record s { tx = bytes; my_next_seq = n }) ≡ ends s
unfolding ends
ends_numbered s bytes n = refl

poll_tx-ends : (s : TcpSocket) → ((poll_tx s).0.state ≡ s.state) × (ends (poll_tx s).0 ≡ ends s)
unfolding poll_tx
poll_tx-ends s = elim (Bool-cases (is_empty s.tx || not (is_established s))) [
  | inl y ↦ rw (y, poll_tx) (refl, refl)
  | inr n ↦ elim (Result-cases (ends s)) [
    | inl (e, h) ↦
        rw (n, poll_tx, h)
          (refl, ends_numbered s [] (wrapping_add s.my_next_seq (length s.tx % 2 ^ 32)) ∙ h)
    | inr (inl (x, h)) ↦ rw (n, poll_tx, h) (refl, h)
    | inr (inr h) ↦ rw (n, poll_tx, h) (refl, h)
  ]
]

Step-IsConnected : {s t : TcpSocket} → Step s t → IsConnected s → IsConnected t
unfolding ends
Step-IsConnected {s = s} (receive in_bytes) c = handle_rx-IsConnected s in_bytes c
Step-IsConnected (write bytes) c = c
Step-IsConnected (read left) c = c
Step-IsConnected {s = s} poll c =
    IsConnected-kept s (poll_tx s).0 (poll_tx-ends s).0 (poll_tx-ends s).1 c

pub Reachable-IsConnected :
    {first s : TcpSocket} → IsConnected first → Reachable first s → IsConnected s
Reachable-IsConnected c here = c
Reachable-IsConnected c (next r step) = Step-IsConnected step (Reachable-IsConnected c r)

-- The packet in which `poll_tx` sends what is queued.
abbrev pub data_segment : TcpSocket → IpV4Addr × ℕ × IpV4Addr × ℕ → Segment
data_segment s (to_ip, to_port, from_ip, from_port) = record {
  to_ip = to_ip;
  to_port = to_port;
  from_ip = from_ip;
  from_port = from_port;
  seq = s.my_next_seq;
  seq_to_ack = some s.last_seq_to_ack;
  syn = false;
  fin = false;
  payload = s.tx;
}

poll_tx_sends :
    (s : TcpSocket) (e : IpV4Addr × ℕ × IpV4Addr × ℕ) (packet : List ℕ)
    → (is_empty s.tx || not (is_established s)) ≡ false
    → ends s ≡ ok e
    → gen_tcp_packet (data_segment s e) ≡ ok packet
    → poll_tx s ≡ (
      record s { tx = []; my_next_seq = (s.my_next_seq + length s.tx) % 2 ^ 32 },
      ok (packet ∷ []),
    )
unfolding poll_tx sent
poll_tx_sends s e packet busy known runs =
    rw (busy, poll_tx, known)
      (ap (λ n. (record s { tx = []; my_next_seq = n }, sent (gen_tcp_packet (data_segment s e))))
          wrapped
        ∙ ap
            (λ r.
              (record s { tx = []; my_next_seq = (s.my_next_seq + length s.tx) % 2 ^ 32 }, sent r))
            runs)
  where
    wrapped :
        wrapping_add s.my_next_seq (length s.tx % 2 ^ 32) ≡ (s.my_next_seq + length s.tx) % 2 ^ 32
    wrapped = omega arith

-- A server socket, after whatever packets, writes, reads and polls, that is established and has bytes
-- queued, at most 65495 and with the fields of its packet in range: polling it sends them all in one
-- packet between the ends of its connection, numbered by my_next_seq and acknowledging what has been
-- received, empties the queue, and advances my_next_seq by their number modulo 2 ^ 32. It is never
-- left without these ends.
pub poll_tx_server :
    (port : ℕ) (s : TcpSocket) (b : ℕ) (bs : List ℕ)
    → Reachable (new_server port) s
    → s.state ≡ established
    → s.tx ≡ b ∷ bs
    → ((e : IpV4Addr × ℕ × IpV4Addr × ℕ) → ends s ≡ ok e → Fits (data_segment s e))
    → (e : IpV4Addr × ℕ × IpV4Addr × ℕ) × (c : Bytes2) × (ends s ≡ ok e)
      × (poll_tx s ≡ (
        record s { tx = []; my_next_seq = (s.my_next_seq + length s.tx) % 2 ^ 32 },
        ok (packet_bytes (data_segment s e) c ∷ []),
      ))
poll_tx_server port s b bs r e t fits =
    let (c, runs, sum) =
      gen_tcp_packet_lem (data_segment s ends_known.0) (fits ends_known.0 ends_known.1) in
    (ends_known.0, c, ends_known.1, poll_tx_sends s ends_known.0 _ busy ends_known.1 runs)
  where
    ends_known : HasEnds s
    ends_known = Reachable-IsConnected (λ u. absurd u) r (subst NeedsEnds (sym e) tt)

    busy : (is_empty s.tx || not (is_established s)) ≡ false
    busy = rw (t, e) refl
