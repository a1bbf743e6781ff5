-- ===== src/Net/Tcp/Checksummed.antt =====
-- The checksum of the packets that a socket generates.
use wasabi.Base.{
  ℕ, ◌+◌, ◌-◌, ◌*◌, ◌/◌, ◌%◌, ◌^◌, ◌≤◌, ◌<◌, ◌≡◌, ap, ◌∙◌, arith, length, length-append,
}
use wasabi.Base.{List, [], ◌∷◌, ◌++◌, Option, none, some, Bool, Result, ok, panic}
use wasabi.Net.Wire.{Bytes2, list2, list4, be16, be32}
use wasabi.Net.Checksum.{feed, feed_sum, checksum, InternetChecksumGenerator}
use wasabi.Net.Checksum.Feed.{AreBytes, AreBytes-append, words, words-le, feed_sum-words}
use wasabi.Net.Checksum.Fold.{ones_complement, fold_sum_total}
use wasabi.Net.Tcp.Packet.{TcpPacket, Segment, header_len, tcp_bytes, tcp_as_slice}
use wasabi.Net.Tcp.Packet.{padding, tcp_sum, gen_tcp_packet}
use wasabi.Net.Tcp.Sent.{header, flag_bits, ack_field, gen_header_lem, Fits}
use mathlib.Core.Option
use native.Mathlib.Nat.{zero-add}

checksum_lem :
    (g : InternetChecksumGenerator)
    → g.sum < 2 ^ 32
    → checksum g ≡ some (be16 (65535 - ones_complement g.sum))
unfolding checksum
checksum_lem g h =
    ap (Option.map (λ s. be16 ((2 ^ 32 - 1 - s) % 2 ^ 16))) (fold_sum_total g.sum h)
    ∙ ap (λ s. some (be16 s)) value
  where
    value : (2 ^ 32 - 1 - ones_complement g.sum) % 2 ^ 16 ≡ 65535 - ones_complement g.sum
    value = ground arith

-- Five parts fed in turn, while the sum fits.
feed_sums :
    (as1 bs cs ds es : List ℕ)
    → AreBytes as1 × AreBytes bs × AreBytes cs × AreBytes ds × AreBytes es
    → words as1 + words bs + words cs + words ds + words es < 2 ^ 32
    → feed_sum (feed_sum (feed_sum (feed_sum (feed_sum 0 as1) bs) cs) ds) es
      ≡ words as1 + words bs + words cs + words ds + words es
feed_sums as1 bs cs ds es (ha, hb, hc, hd, he) h =
    ap (λ s. feed_sum (feed_sum (feed_sum (feed_sum s bs) cs) ds) es)
      (feed_sum-words 0 as1 ha (omega arith) ∙ zero-add (words as1))
    ∙ ap (λ s. feed_sum (feed_sum (feed_sum s cs) ds) es)
        (feed_sum-words (words as1) bs hb (omega arith))
    ∙ ap (λ s. feed_sum (feed_sum s ds) es)
        (feed_sum-words (words as1 + words bs) cs hc (omega arith))
    ∙ ap (λ s. feed_sum s es) (feed_sum-words (words as1 + words bs + words cs) ds hd (omega arith))
    ∙ feed_sum-words (words as1 + words bs + words cs + words ds) es he h

-- The sum of what the checksum covers.
covered : TcpPacket → List ℕ → ℕ
covered p payload =
    words (tcp_bytes p ++ payload)
    + words (list4 p.ip.src)
    + words (list4 p.ip.dst)
    + p.ip.protocol
    + (header_len p + length payload) % 2 ^ 16

record Small (p : TcpPacket) (payload : List ℕ) : Type 0 where
  fields : AreBytes (tcp_bytes p)
  src : AreBytes (list4 p.ip.src)
  dst : AreBytes (list4 p.ip.dst)
  protocol : p.ip.protocol < 256
  payload_bytes : AreBytes payload
  short : length payload ≤ 65535

module _ (p : TcpPacket) (payload : List ℕ) (h : Small p payload) where
  segment_words : words (tcp_bytes p ++ payload) ≤ 65535 * 32800
  segment_words = omega (
    arith,
    words-le (tcp_bytes p ++ payload)
        (AreBytes-append (tcp_bytes p) payload h.fields h.payload_bytes),
    length-append (tcp_bytes p) payload,
    h.short,
  )

  src_words : words (list4 p.ip.src) ≤ 65535 * 2
  src_words = words-le (list4 p.ip.src) h.src

  dst_words : words (list4 p.ip.dst) ≤ 65535 * 2
  dst_words = words-le (list4 p.ip.dst) h.dst

  covered-lt : covered p payload < 2 ^ 32
  unfolding covered
  covered-lt = omega (arith, segment_words, src_words, dst_words, h.protocol)

  tcp_sum_lem : (tcp_sum p payload).sum ≡ covered p payload
  unfolding tcp_sum covered feed be16
  tcp_sum_lem =
      feed_sums (tcp_bytes p ++ payload) (list4 p.ip.src) (list4 p.ip.dst)
        (0x00 ∷ p.ip.protocol ∷ []) (list2 (be16 ((header_len p + length payload) % 2 ^ 16)))
        (
          AreBytes-append (tcp_bytes p) payload h.fields h.payload_bytes,
          h.src,
          h.dst,
          (omega arith, (h.protocol, tt)),
          (omega arith, (omega arith, tt)),
        )
        (omega (arith, covered-lt))
      ∙ omega arith

-- A header with a checksum in its field.
abbrev pub with_csum : TcpPacket → Bytes2 → TcpPacket
with_csum p c = record p { csum = c }

ack_field-AreBytes : (a : Option ℕ) → AreBytes (list4 (ack_field a))
unfolding be32
ack_field-AreBytes none = omega arith
ack_field-AreBytes (some a) = omega arith

flag_bits-lt : (a : Option ℕ) (syn fin : Bool) → flag_bits a syn fin < 256
flag_bits-lt none syn fin = ground arith
flag_bits-lt (some a) syn fin = ground arith

header-Small :
    (g : Segment) (c : Bytes2)
    → Fits g
    → AreBytes (list2 c)
    → Small (with_csum (header g) c) g.payload
unfolding be16 be32
header-Small g c h k = record {
  fields = omega (arith, k, ack_field-AreBytes g.seq_to_ack, flag_bits-lt g.seq_to_ack g.syn g.fin);
  src = omega (arith, h.addresses);
  dst = omega (arith, h.addresses);
  protocol = omega arith;
  payload_bytes = h.payload_bytes;
  short = omega (arith, h.short);
}

covered-csum :
    (g : Segment) (c : Bytes2)
    → covered (with_csum (header g) c) g.payload
      ≡ covered (with_csum (header g) (record { b0 = 0; b1 = 0 })) g.payload + (c.b0 * 256 + c.b1)
unfolding covered be16 be32
covered-csum g c = omega arith

module _ (g : Segment) (h : Fits g) where
  abbrev cleared : ℕ
  cleared = covered (header g) g.payload

  -- The checksum is what is missing to 65535, in one's complement.
  abbrev filled : TcpPacket
  filled = with_csum (header g) (be16 (65535 - ones_complement cleared))

  first_pass :
      checksum (tcp_sum (header g) g.payload) ≡ some (be16 (65535 - ones_complement cleared))
  first_pass =
      checksum_lem (tcp_sum (header g) g.payload)
        (omega (arith, tcp_sum_lem _ _ small, covered-lt _ _ small))
      ∙ ap (λ s. some (be16 (65535 - ones_complement s))) (tcp_sum_lem (header g) g.payload small)
    where
      small : Small (header g) g.payload
      small = header-Small g (record { b0 = 0; b1 = 0 }) h (omega arith)

  -- With it, the sum is a multiple of 65535.
  filled_sum : covered filled g.payload % 65535 ≡ 0
  unfolding be16
  filled_sum = ap (λ (n : ℕ). n % 65535) total ∙ ground arith
    where
      c : Bytes2
      c = be16 (65535 - ones_complement cleared)

      total : covered filled g.payload ≡ cleared + (65535 - ones_complement cleared)
      total = covered-csum g c ∙ omega arith

-- The pseudo header of RFC 793: the addresses, the protocol and the size of the segment
abbrev pub pseudo_header : Segment → List ℕ
pseudo_header g =
    list4 g.from_ip
    ++ list4 g.to_ip
    ++ 0 ∷ 6 ∷ (20 + length g.payload) / 256 ∷ (20 + length g.payload) % 256 ∷ []

words-covered :
    (g : Segment) (c : Bytes2)
    → Fits g
    → words (pseudo_header g ++ (tcp_bytes (with_csum (header g) c) ++ g.payload))
      ≡ covered (with_csum (header g) c) g.payload
unfolding covered
words-covered g c h = omega (arith, h.short)

-- A segment that fits is generated: its header, with a checksum that makes the sum over the pseudo
-- header and the segment a multiple of 65535, and the padded payload.
pub gen_tcp_packet_runs :
    (g : Segment)
    → Fits g
    → (c : Bytes2) × (gen_tcp_packet g
        ≡ ok (tcp_as_slice (with_csum (header g) c) ++ (g.payload ++ padding g.payload)))
      × (words (pseudo_header g ++ (tcp_bytes (with_csum (header g) c) ++ g.payload)) % 65535 ≡ 0)
unfolding gen_tcp_packet
gen_tcp_packet_runs g h = (
  be16 (65535 - ones_complement (cleared g h)),
  ap finish (gen_header_lem g) ∙ ap field (first_pass g h),
  ap (λ (n : ℕ). n % 65535) (words-covered g (be16 (65535 - ones_complement (cleared g h))) h)
      ∙ filled_sum g h,
)
  where
    field : Option Bytes2 → Result (List ℕ)
    field none = panic
    field (some c) = ok (tcp_as_slice (with_csum (header g) c) ++ (g.payload ++ padding g.payload))

    finish : TcpPacket → Result (List ℕ)
    finish p = elim (checksum (tcp_sum p g.payload)) [
      | none ↦ panic
      | some c ↦ ok (tcp_as_slice (with_csum p c) ++ (g.payload ++ padding g.payload))
    ]
