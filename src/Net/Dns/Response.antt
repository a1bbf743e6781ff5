-- ===== src/Net/Dns/Response.antt =====
-- The responses of os/src/net/dns.rs: their parser, and the table of the queries that wait. The check
-- of `String::from_utf8` is the parameter `is_utf8`; a text is the list of its bytes.
use wasabi.Base.{
  ℕ, zero, suc, List, [], ◌∷◌, ◌++◌, Bool, ◌==◌, leb, if◌then◌else◌, length, take, drop, Option,
  none, some, Result, ok, err, panic, failed, ensure, ok_or, ◌>>=◌, ◌>>◌,
}
use wasabi.Net.Wire.{from_be16, read4}
use wasabi.Net.Ip.{IpV4Addr}
use wasabi.Net.Manager.{contains_key}
use wasabi.Net.Dns.{DnsPacket, read_dns}

-- `DnsResponseEntry::A`
pub record Answer : Type 0 where
  pub name : List ℕ
  pub addr : IpV4Addr

-- `PENDING_QUERIES`: a BTreeMap is the list of its insertions, the newest first.
abbrev pub Pending : Type 0
Pending = List (ℕ × Option (List Answer))

-- `it.advance_by(n)`: the bytes behind the next `n`
abbrev pub advance_by : ℕ → List ℕ → Result (List ℕ)
advance_by n bytes = ensure (leb n (length bytes)) (failed "Invalid format") >> ok (drop n bytes)

-- The result is kept if the query waits for it.
abbrev pub keep : ℕ → Pending → List Answer → Pending
keep id pending answers = if contains_key pending id then (id, some answers) ∷ pending else pending

abbrev pub finish : ℕ → Pending → Result (List Answer) → Pending × Result (Unit {0})
finish id pending (ok answers) = (keep id pending answers, ok tt)
finish id pending (err e) = (pending, err e)
finish id pending panic = (pending, panic)

module _ (is_utf8 : List ℕ → Bool) where
  -- The loop over the labels of one question, with the bytes of the last label that are still to be
  -- passed. It returns the bytes behind the question, and the name.
  unfoldable pub parse_labels : ℕ → List ℕ → List ℕ → Result (List ℕ × List ℕ)
  parse_labels (suc skip) (b ∷ bytes) name = parse_labels skip bytes name
  parse_labels zero (len ∷ bytes) name =
      let last = advance_by 4 bytes >>= λ rest. ok (rest, name) in
      let more =
        ensure (is_utf8 (take len bytes)) (failed "Cannot parse the dns response")
        >> parse_labels len bytes (name ++ (take len bytes ++ (b'.' ∷ []))) in
      if len == 0 then last else more
  parse_labels skip [] name = err (failed "Failed to parse DNS response questions section")

  unfoldable pub parse_questions : ℕ → List ℕ → List ℕ → Result (List ℕ × List ℕ)
  unfolding parse_labels
  parse_questions zero bytes name = ok (bytes, name)
  parse_questions (suc left) bytes name =
      parse_labels 0 bytes name >>= λ (rest, name'). parse_questions left rest name'

  -- An answer: twelve bytes, of the name, the type, the class, the time to live and the length, and
  -- the address
  unfoldable pub parse_answers : List ℕ → ℕ → List ℕ → Result (List Answer)
  parse_answers name zero bytes = ok []
  parse_answers name (suc left) bytes = do
    rest ← advance_by 12 bytes
    found ← ok_or (read4 rest) (failed "failed")
    answers ← parse_answers name left found.1
    ok (record { name = name; addr = found.0 } ∷ answers)

  unfoldable pub parse_entries : DnsPacket → List ℕ → Result (List Answer)
  unfolding parse_questions parse_answers
  parse_entries header bytes = do
    questions ← parse_questions (from_be16 header.num_questions) bytes []
    parse_answers questions.1 (from_be16 header.num_answers) questions.0

  abbrev pub parse_packet : Pending → Option (DnsPacket × List ℕ) → Pending × Result (Unit {0})
  parse_packet pending none = (pending, err (failed "Sliceable::from_slice: Too small"))
  parse_packet pending (some (header, bytes)) =
      finish (from_be16 header.transaction_id) pending (parse_entries header bytes)

  unfoldable pub parse_dns_response : List ℕ → Pending → Pending × Result (Unit {0})
  unfolding parse_entries
  parse_dns_response dns_packet pending = parse_packet pending (read_dns dns_packet)
