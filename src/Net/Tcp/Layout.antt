-- ===== src/Net/Tcp/Layout.antt =====
-- The bytes of the packets that a socket generates, and their checksum, as RFC 791 and RFC 793 have it.
use wasabi.Base.{
  ℕ, ◌+◌, ◌%◌, ◌^◌, ◌/=◌, List, [], ◌∷◌, ◌++◌, ◌≡◌, refl, ap, ◌∙◌, arith, length, replicate, ok,
  Bool-cases, inl, inr,
}
use wasabi.Net.Wire.{Bytes2, list2, list4, be16, be32}
use wasabi.Net.Checksum.Feed.{words}
use wasabi.Net.Tcp.Packet.{Segment, gen_tcp_packet, tcp_as_slice, padding}
use wasabi.Net.Tcp.Sent.{Fits, header, flag_bits, ack_field}
use wasabi.Net.Tcp.Checksummed.{with_csum, pseudo_header, gen_tcp_packet_runs}

-- The Ethernet header, its addresses still empty, and an IPv4 header without options or a checksum
abbrev pub ip_header : Segment → List ℕ
ip_header g =
    0
    ∷ 0
    ∷ 0
    ∷ 0
    ∷ 0
    ∷ 0
    ∷ 0
    ∷ 0
    ∷ 0
    ∷ 0
    ∷ 0
    ∷ 0
    ∷ 0x08
    ∷ 0x00
    ∷ 0x45
    ∷ 0
    ∷ (list2 (be16 ((20 + length g.payload + 20) % 2 ^ 16))
        ++ 0 ∷ 0 ∷ 0 ∷ 0 ∷ 0xff ∷ 6 ∷ 0 ∷ 0 ∷ (list4 g.from_ip ++ list4 g.to_ip))

-- The TCP header with a given checksum: the ports, the numbers, five words of header, the flags, the
-- window, the checksum, and no urgent data
abbrev pub tcp_header : Segment → Bytes2 → List ℕ
tcp_header g c =
    list2 (be16 g.from_port)
    ++ list2 (be16 g.to_port)
    ++ list4 (be32 g.seq)
    ++ list4 (ack_field g.seq_to_ack)
    ++ 0x50 ∷ flag_bits g.seq_to_ack g.syn g.fin ∷ 0xff ∷ 0xff ∷ c.b0 ∷ c.b1 ∷ 0 ∷ 0 ∷ []

-- The packet: its headers and the payload, padded to an even number of bytes
abbrev pub packet_bytes : Segment → Bytes2 → List ℕ
packet_bytes g c =
    ip_header g ++ (tcp_header g c ++ (g.payload ++ replicate (length g.payload % 2) 0))

pub padding_lem : (payload : List ℕ) → padding payload ≡ replicate (length payload % 2) 0
padding_lem payload = elim (Bool-cases (length payload % 2 /= 0)) [
  | inl odd ↦ let one : length payload % 2 ≡ 1 = ground arith in rw (odd, one) refl
  | inr even ↦ let none : length payload % 2 ≡ 0 = ground arith in rw (even, none) refl
]

headers_lem :
    (g : Segment) (c : Bytes2) (rest : List ℕ)
    → tcp_as_slice (with_csum (header g) c) ++ rest ≡ ip_header g ++ (tcp_header g c ++ rest)
headers_lem g c rest = refl

pub packet_bytes_lem :
    (g : Segment) (c : Bytes2)
    → tcp_as_slice (with_csum (header g) c) ++ (g.payload ++ padding g.payload) ≡ packet_bytes g c
packet_bytes_lem g c =
    ap (λ p. tcp_as_slice (with_csum (header g) c) ++ (g.payload ++ p)) (padding_lem g.payload)
    ∙ headers_lem g c (g.payload ++ replicate (length g.payload % 2) 0)

-- A segment with fields in range and at most 65495 bytes of payload is generated: the packet is its
-- headers and its payload, padded to an even number of bytes, with a checksum in its field that
-- makes the sum of the 16-bit words of the pseudo header, the TCP header and the payload a multiple
-- of 65535.
pub gen_tcp_packet_lem :
    (g : Segment)
    → Fits g
    → (c : Bytes2) × (gen_tcp_packet g ≡ ok (packet_bytes g c))
      × (words (pseudo_header g ++ (tcp_header g c ++ g.payload)) % 65535 ≡ 0)
gen_tcp_packet_lem g h =
    let (c, runs, sum) = gen_tcp_packet_runs g h in (c, runs ∙ ap ok (packet_bytes_lem g c), sum)
