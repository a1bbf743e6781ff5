-- ===== src/Examples/DnsTests.antt =====
-- Tests and instances for responses of a DNS server, and for USB descriptors.
use wasabi.Base.{
  ℕ, ◌≡◌, ◌⊎◌, refl, arith, List, [], ◌∷◌, ◌++◌, Bool, true, none, some, ok, err, Error, panic,
  if◌then◌else◌,
}
use wasabi.Net.Wire.{from_be16}
use wasabi.Net.Dns.{DnsPacket, dns_bytes, query_header}
use wasabi.Net.Dns.Response.{Pending, parse_dns_response}
use wasabi.Net.Dns.Answers.{parse_dns_response_total}
use wasabi.Net.Dns.Layout.{
  Question, Record, questions_bytes, records_bytes, answers_for, all_names,
  parse_dns_response-layout,
}
use wasabi.Net.Manager.{contains_key}
use wasabi.Keyboard.{config, interface, endpoint, unknown}
use wasabi.Keyboard.Descriptors.{collect, next}
use wasabi.Keyboard.Sequence.{Item, items_bytes, descs, collect-items_bytes}

abbrev any_text : List ℕ → Bool
any_text s = true

-- The response with number 7 to a query for `a.io`, with one address
abbrev header : DnsPacket
header = record query_header {
  transaction_id = record { b0 = 0; b1 = 7 };
  num_answers = record { b0 = 0; b1 = 1 };
}

abbrev questions : List Question
questions =
    (
      (b'a' ∷ []) ∷ (b'i' ∷ b'o' ∷ []) ∷ [],
      record { bytes = 0 ∷ 1 ∷ 0 ∷ 1 ∷ []; length_lem = refl },
    )
    ∷ []

abbrev records : List Record
records =
    (
      record { bytes = 192 ∷ 12 ∷ 0 ∷ 1 ∷ 0 ∷ 1 ∷ 0 ∷ 0 ∷ 0 ∷ 225 ∷ 0 ∷ 4 ∷ []; length_lem = refl },
      record { b0 = 185; b1 = 199; b2 = 108; b3 = 153 },
    )
    ∷ []

abbrev waiting : Pending
waiting = (7, none) ∷ []

parse_dns_response-layout_example :
    parse_dns_response any_text
      (dns_bytes header ++ (questions_bytes questions ++ (records_bytes records ++ [])))
      waiting
    ≡ (if contains_key waiting (from_be16 header.transaction_id)
        then (
          (from_be16 header.transaction_id, some (answers_for (all_names questions) records))
              ∷ waiting,
          ok tt,
        )
        else (waiting, ok tt))
unfolding from_be16
parse_dns_response-layout_example =
    parse_dns_response-layout any_text header questions records [] waiting
      ((omega arith, omega arith, refl, (omega arith, omega arith, refl, tt)), tt) refl refl

parse_dns_response_total_example :
    ((parse_dns_response any_text (1 ∷ 2 ∷ []) waiting).1 ≡ ok tt)
    ⊎ ((e : Error) × (parse_dns_response any_text (1 ∷ 2 ∷ []) waiting ≡ (waiting, err e)))
parse_dns_response_total_example = parse_dns_response_total any_text (1 ∷ 2 ∷ []) waiting

-- A configuration, an interface with a class-specific descriptor behind it, and an endpoint
abbrev items : List Item
items =
    (
      config (record {
        desc_length = 9;
        desc_type = 2;
        total_length = 34;
        num_of_interfaces = 1;
        config_value = 1;
        config_string_index = 0;
        attribute = 160;
        max_power = 50;
      }),
      [],
    )
    ∷ (
      interface (record {
        desc_length = 9;
        desc_type = 4;
        interface_number = 0;
        alt_setting = 0;
        num_of_endpoints = 1;
        interface_class = 3;
        interface_subclass = 1;
        interface_protocol = 1;
        interface_index = 0;
      }),
      [],
    )
    ∷ (unknown 9 33, 17 ∷ 1 ∷ 0 ∷ 1 ∷ 34 ∷ 63 ∷ 0 ∷ [])
    ∷ (
      endpoint (record {
        desc_length = 7;
        desc_type = 5;
        endpoint_address = 129;
        attributes = 3;
        max_packet_size = 8;
        interval = 10;
      }),
      [],
    )
    ∷ []

collect-items_bytes_example : collect 5 (items_bytes items) 0 ≡ some (ok (descs items))
collect-items_bytes_example =
    collect-items_bytes items 5
      (
        (refl, refl),
        ((refl, refl), ((omega arith, omega arith, omega arith, refl), ((refl, refl), tt))),
      )
      (omega arith) (omega arith)

-- One byte at the end makes the iterator panic.
cut_off : collect 2 (9 ∷ []) 0 ≡ some panic
unfolding collect next
cut_off = refl
