-- ===== src/Net/Dns.antt =====
-- os/src/net/dns.rs: the packet that asks for the address of a host, and the struct that is in front
-- of queries and responses.
pub mod Response
pub mod Answers
pub mod Layout
use wasabi.Base.{
  ℕ, ◌+◌, ◌-◌, ◌%◌, ◌^◌, ◌≤◌, ◌≡◌, ap, ◌∙◌, arith, List, [], ◌∷◌, ◌++◌, length, take, replicate,
}
use wasabi.Base.{length-append, length-replicate, ltb, le→ltb, if◌then◌else◌}
use wasabi.Net.Wire.{Bytes2, list2, Reader, ◌>>=◌, return, read2}
use wasabi.Net.Ip.{no_bytes}
use wasabi.Net.Packets.{UdpPacket, default_udp, udp_bytes, read_udp}

pub record DnsPacket : Type 0 where
  pub udp : UdpPacket
  pub transaction_id : Bytes2
  pub flags : Bytes2
  pub num_questions : Bytes2
  pub num_answers : Bytes2
  pub num_authority_rr : Bytes2
  pub num_additional_rr : Bytes2

abbrev pub dns_bytes : DnsPacket → List ℕ
dns_bytes p =
    udp_bytes p.udp
    ++ (list2 p.transaction_id
        ++ (list2 p.flags
            ++ (list2 p.num_questions
                ++ (list2 p.num_answers
                    ++ (list2 p.num_authority_rr ++ list2 p.num_additional_rr)))))

-- `DnsPacket::from_slice`
abbrev pub read_dns : Reader DnsPacket
read_dns = do
  udp ← read_udp
  transaction_id ← read2
  flags ← read2
  num_questions ← read2
  num_answers ← read2
  num_authority_rr ← read2
  num_additional_rr ← read2
  return (record {
    udp = udp;
    transaction_id = transaction_id;
    flags = flags;
    num_questions = num_questions;
    num_answers = num_answers;
    num_authority_rr = num_authority_rr;
    num_additional_rr = num_additional_rr;
  })

abbrev pub query_header : DnsPacket
query_header = record {
  udp = default_udp;
  transaction_id = no_bytes;
  flags = record { b0 = 0x01; b1 = 0x20 };
  num_questions = record { b0 = 0x00; b1 = 0x01 };
  num_answers = no_bytes;
  num_authority_rr = no_bytes;
  num_additional_rr = no_bytes;
}

-- The labels of the name, each behind its length as a byte.
abbrev pub label_bytes : List (List ℕ) → List ℕ
label_bytes [] = []
label_bytes (s ∷ labels) = length s % 256 ∷ (s ++ label_bytes labels)

abbrev pub query_bytes : List (List ℕ) → List ℕ
query_bytes labels = dns_bytes query_header ++ (label_bytes labels ++ (0 ∷ 0 ∷ 1 ∷ 0 ∷ 1 ∷ []))

-- `Vec::resize`
abbrev pub resize : ℕ → List ℕ → List ℕ
resize n xs = if ltb n (length xs) then take n xs else xs ++ replicate (n - length xs) 0

-- `create_dns_query_packet`, for the labels between the dots of the trimmed name
unfoldable pub create_dns_query_packet : List (List ℕ) → List ℕ
create_dns_query_packet labels =
    resize ((512 + 2 ^ 64 - length (query_bytes labels)) % 2 ^ 64) (query_bytes labels)

-- A query of at most 256 bytes, headers included, stands whole at the front of its packet, which
-- has 512 bytes less the length of the query.
pub create_dns_query_packet_lem :
    (labels : List (List ℕ))
    → length (query_bytes labels) ≤ 256
    → (create_dns_query_packet labels
        ≡ query_bytes labels
          ++ replicate (512 - length (query_bytes labels) - length (query_bytes labels)) 0)
      × (length (create_dns_query_packet labels) ≡ 512 - length (query_bytes labels))
unfolding create_dns_query_packet
create_dns_query_packet_lem labels h = (whole, ap length whole ∙ size)
  where
    len : ℕ
    len = length (query_bytes labels)

    room : (512 + 2 ^ 64 - len) % 2 ^ 64 ≡ 512 - len
    room = omega (arith, h)

    whole :
        resize ((512 + 2 ^ 64 - len) % 2 ^ 64) (query_bytes labels)
        ≡ query_bytes labels ++ replicate (512 - len - len) 0
    whole =
        ap (λ n. resize n (query_bytes labels)) room
        ∙ ap
            (λ b.
              if b
              then take (512 - len) (query_bytes labels)
              else query_bytes labels ++ replicate (512 - len - len) 0)
            (le→ltb (512 - len) len (omega (arith, h)))

    size : length (query_bytes labels ++ replicate (512 - len - len) 0) ≡ 512 - len
    size = omega (
      arith,
      length-append (query_bytes labels) (replicate (512 - len - len) 0),
      length-replicate {A = ℕ} (512 - len - len) 0,
      h,
    )
