-- ===== src/Net/Dns/Layout.antt =====
-- A response in the layout of RFC 1035 is read back.
use wasabi.Base.{
  ℕ, ◌<◌, ◌%◌, ◌≡◌, refl, ap, ◌∙◌, sym, arith, List, [], ◌∷◌, ◌++◌, append_assoc, append-nil, Bool,
  true, ==_ne, le→leb, if◌then◌else◌, length, length-append, drop, take-append, drop-append, some,
  ok,
}
use wasabi.Net.Wire.{from_be16, list4}
use wasabi.Net.Ip.{IpV4Addr}
use wasabi.Net.Manager.{contains_key}
use wasabi.Net.Dns.{DnsPacket, dns_bytes, label_bytes}
use wasabi.Net.Dns.Response.{
  Answer, Pending, advance_by, parse_labels, parse_questions, parse_answers, parse_entries, finish,
  parse_dns_response,
}

-- Four or twelve bytes that the parser passes
pub record Skipped (n : ℕ) : Type 0 where
  pub bytes : List ℕ
  pub length_lem : length bytes ≡ n

-- A question: the labels of its name, and its type and class
abbrev pub Question : Type 0
Question = List (List ℕ) × Skipped 4

-- An answer: all that stands before its address, and the address
abbrev pub Record : Type 0
Record = Skipped 12 × IpV4Addr

abbrev pub questions_bytes : List Question → List ℕ
questions_bytes [] = []
questions_bytes ((labels, kind) ∷ questions) =
    label_bytes labels ++ (0 ∷ (kind.bytes ++ questions_bytes questions))

abbrev pub records_bytes : List Record → List ℕ
records_bytes [] = []
records_bytes ((front, addr) ∷ records) = front.bytes ++ (list4 addr ++ records_bytes records)

-- The name with a dot behind each label
abbrev pub dotted : List (List ℕ) → List ℕ
dotted [] = []
dotted (s ∷ labels) = s ++ (b'.' ∷ dotted labels)

-- The names of the questions, in a row: the name of every answer
abbrev pub all_names : List Question → List ℕ
all_names [] = []
all_names ((labels, kind) ∷ questions) = dotted labels ++ all_names questions

abbrev pub answers_for : List ℕ → List Record → List Answer
answers_for name [] = []
answers_for name ((front, addr) ∷ records) =
    record { name = name; addr = addr } ∷ answers_for name records

advance_by-append :
    (n : ℕ) (s : Skipped n) (rest : List ℕ) → advance_by n (s.bytes ++ rest) ≡ ok rest
advance_by-append n s rest =
    rw
      (le→leb n (length (s.bytes ++ rest))
        (omega (arith, length-append s.bytes rest, s.length_lem)))
      (ap (λ k. ok (drop k (s.bytes ++ rest))) (sym s.length_lem)
        ∙ ap ok (drop-append s.bytes rest))

module _ (is_utf8 : List ℕ → Bool) where
  -- A label is UTF-8, not empty, and its length fits a byte.
  abbrev pub AllLabels : List (List ℕ) → Type 0
  AllLabels [] = Unit
  AllLabels (s ∷ labels) = (0 < length s) × (length s < 256) × (is_utf8 s ≡ true) × AllLabels labels

  abbrev pub AllQuestions : List Question → Type 0
  AllQuestions [] = Unit
  AllQuestions ((labels, kind) ∷ questions) = AllLabels labels × AllQuestions questions

  -- The bytes of a label pass.
  parse_labels-skip :
      (s rest name : List ℕ)
      → parse_labels is_utf8 (length s) (s ++ rest) name ≡ parse_labels is_utf8 0 rest name
  unfolding parse_labels
  parse_labels-skip [] rest name = refl
  parse_labels-skip (b ∷ s) rest name = parse_labels-skip s rest name

  parse_label :
      (s rest name : List ℕ)
      → 0 < length s
      → length s < 256
      → is_utf8 s ≡ true
      → parse_labels is_utf8 0 (length s % 256 ∷ (s ++ rest)) name
        ≡ parse_labels is_utf8 0 rest (name ++ (s ++ (b'.' ∷ [])))
  unfolding parse_labels
  parse_label s rest name p h u =
      let e : length s % 256 ≡ length s = omega arith in
      rw (e, ==_ne (length s) 0 (λ z. absurd (omega arith)), take-append s rest, u)
        (parse_labels-skip s rest (name ++ (s ++ (b'.' ∷ []))))

  parse_end :
      (kind : Skipped 4) (rest name : List ℕ)
      → parse_labels is_utf8 0 (0 ∷ (kind.bytes ++ rest)) name ≡ ok (rest, name)
  unfolding parse_labels
  parse_end kind rest name = rw (advance_by-append 4 kind rest) refl

  parse_labels-label_bytes :
      (labels : List (List ℕ)) (kind : Skipped 4) (rest name : List ℕ)
      → AllLabels labels
      → parse_labels is_utf8 0 (label_bytes labels ++ (0 ∷ (kind.bytes ++ rest))) name
        ≡ ok (rest, name ++ dotted labels)
  parse_labels-label_bytes [] kind rest name h =
      parse_end kind rest name ∙ ap (λ t. ok (rest, t)) (sym (append-nil name))
  parse_labels-label_bytes (s ∷ labels) kind rest name (p, l, u, h) =
      let tail = 0 ∷ (kind.bytes ++ rest) in
      ap (λ t. parse_labels is_utf8 0 (length s % 256 ∷ t) name)
        (append_assoc s (label_bytes labels) tail)
      ∙ parse_label s (label_bytes labels ++ tail) name p l u
      ∙ parse_labels-label_bytes labels kind rest (name ++ (s ++ (b'.' ∷ []))) h
      ∙ ap (λ t. ok (rest, t)) (append_assoc name (s ++ (b'.' ∷ [])) (dotted labels))
      ∙ ap (λ t. ok (rest, name ++ t)) (append_assoc s (b'.' ∷ []) (dotted labels))

  parse_questions-layout :
      (questions : List Question) (rest name : List ℕ)
      → AllQuestions questions
      → parse_questions is_utf8 (length questions) (questions_bytes questions ++ rest) name
        ≡ ok (rest, name ++ all_names questions)
  unfolding parse_questions
  parse_questions-layout [] rest name h = ap (λ t. ok (rest, t)) (sym (append-nil name))
  parse_questions-layout ((labels, kind) ∷ questions) rest name (l, h) =
      let tail = questions_bytes questions ++ rest in
      let shape : questions_bytes ((labels, kind) ∷ questions) ++ rest
          ≡ label_bytes labels ++ (0 ∷ (kind.bytes ++ tail)) =
        append_assoc (label_bytes labels) (0 ∷ (kind.bytes ++ questions_bytes questions)) rest
        ∙ ap (λ t. label_bytes labels ++ (0 ∷ t))
            (append_assoc kind.bytes (questions_bytes questions) rest) in
      let first =
        ap (λ t. parse_labels is_utf8 0 t name) shape
        ∙ parse_labels-label_bytes labels kind tail name l in
      rw first (
        parse_questions-layout questions rest (name ++ dotted labels) h
        ∙ ap (λ t. ok (rest, t)) (append_assoc name (dotted labels) (all_names questions)))

  parse_answers-layout :
      (name : List ℕ) (records : List Record) (rest : List ℕ)
      → parse_answers is_utf8 name (length records) (records_bytes records ++ rest)
        ≡ ok (answers_for name records)
  unfolding parse_answers
  parse_answers-layout name [] rest = refl
  parse_answers-layout name ((front, addr) ∷ records) rest =
      let shape : records_bytes ((front, addr) ∷ records) ++ rest
          ≡ front.bytes ++ (list4 addr ++ (records_bytes records ++ rest)) =
        append_assoc front.bytes (list4 addr ++ records_bytes records) rest in
      let first =
        ap (advance_by 12) shape
        ∙ advance_by-append 12 front (list4 addr ++ (records_bytes records ++ rest)) in
      rw first (rw (parse_answers-layout name records rest) refl)

  parse_entries-layout :
      (h : DnsPacket) (questions : List Question) (records : List Record) (rest : List ℕ)
      → AllQuestions questions
      → from_be16 h.num_questions ≡ length questions
      → from_be16 h.num_answers ≡ length records
      → parse_entries is_utf8 h (questions_bytes questions ++ (records_bytes records ++ rest))
        ≡ ok (answers_for (all_names questions) records)
  unfolding parse_entries
  parse_entries-layout h questions records rest ok_labels n k =
      rw (n, k)
        (rw (parse_questions-layout questions (records_bytes records ++ rest) [] ok_labels)
          (parse_answers-layout (all_names questions) records rest))

  -- For a response that holds its header, the questions that this counts, whose labels are UTF-8 of 1
  -- to 255 bytes, the answers that it counts, each with twelve bytes in front of an address, and any
  -- bytes behind them: the parser succeeds, and if a query with its transaction number is pending,
  -- that has the addresses in order, each under the names of the questions; the rest of the table is
  -- as it was.
  pub parse_dns_response-layout :
      (h : DnsPacket) (questions : List Question) (records : List Record) (rest : List ℕ)
      (pending : Pending)
      → AllQuestions questions
      → from_be16 h.num_questions ≡ length questions
      → from_be16 h.num_answers ≡ length records
      → parse_dns_response is_utf8
          (dns_bytes h ++ (questions_bytes questions ++ (records_bytes records ++ rest)))
          pending
        ≡ (if contains_key pending (from_be16 h.transaction_id)
            then (
              (from_be16 h.transaction_id, some (answers_for (all_names questions) records))
                  ∷ pending,
              ok tt,
            )
            else (pending, ok tt))
  unfolding parse_dns_response
  parse_dns_response-layout h questions records rest pending l n k =
      ap (finish (from_be16 h.transaction_id) pending)
        (parse_entries-layout h questions records rest l n k)
      ∙ ground arith
