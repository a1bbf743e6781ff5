-- ===== src/Net/Dns/Answers.antt =====
-- What the parser of responses makes of any bytes.
use wasabi.Base.{
  ℕ, zero, suc, ◌≡◌, ◌≢◌, ◌⊎◌, inl, inr, refl, List, [], ◌∷◌, ◌++◌, Bool, ◌==◌, leb, length, take,
  drop, ok, err, panic, Error, Result-cases, ◌>>=◌, ensure, ok_or, failed, Bool-cases, Option-cases,
  >>=-ne-panic, ensure-ne-panic, ok_or-ne-panic,
}
use wasabi.Net.Wire.{from_be16, read4}
use wasabi.Net.Dns.{DnsPacket, read_dns}
use wasabi.Net.Dns.Response.{
  Pending, advance_by, parse_labels, parse_questions, parse_answers, parse_entries,
  parse_dns_response,
}

advance_by-ne-panic : (n : ℕ) (bytes : List ℕ) → advance_by n bytes ≢ panic
advance_by-ne-panic n bytes =
    >>=-ne-panic (ensure (leb n (length bytes)) (failed "Invalid format")) (λ _. ok (drop n bytes))
      (ensure-ne-panic (leb n (length bytes)) (failed "Invalid format")) (λ _. cc)

module _ (is_utf8 : List ℕ → Bool) where
  parse_labels-ne-panic :
      (skip : ℕ) (bytes name : List ℕ) → parse_labels is_utf8 skip bytes name ≢ panic
  unfolding parse_labels
  parse_labels-ne-panic zero [] name = cc
  parse_labels-ne-panic (suc skip) [] name = cc
  parse_labels-ne-panic (suc skip) (b ∷ bytes) name = parse_labels-ne-panic skip bytes name
  parse_labels-ne-panic zero (len ∷ bytes) name = elim (Bool-cases (len == 0)) [
    | inl last ↦ rw last (
        >>=-ne-panic (advance_by 4 bytes) (λ rest. ok (rest, name)) (advance_by-ne-panic 4 bytes)
          (λ rest. cc))
    | inr more ↦ rw more (
        >>=-ne-panic (ensure (is_utf8 (take len bytes)) (failed "Cannot parse the dns response"))
          (λ _. parse_labels is_utf8 len bytes (name ++ (take len bytes ++ (b'.' ∷ []))))
          (ensure-ne-panic (is_utf8 (take len bytes)) (failed "Cannot parse the dns response"))
          (λ _. parse_labels-ne-panic len bytes (name ++ (take len bytes ++ (b'.' ∷ [])))))
  ]

  parse_questions-ne-panic :
      (left : ℕ) (bytes name : List ℕ) → parse_questions is_utf8 left bytes name ≢ panic
  unfolding parse_questions
  parse_questions-ne-panic zero bytes name = cc
  parse_questions-ne-panic (suc left) bytes name =
      >>=-ne-panic (parse_labels is_utf8 0 bytes name)
        (λ (rest, name'). parse_questions is_utf8 left rest name')
        (parse_labels-ne-panic 0 bytes name)
        (λ (rest, name'). parse_questions-ne-panic left rest name')

  parse_answers-ne-panic :
      (name : List ℕ) (left : ℕ) (bytes : List ℕ) → parse_answers is_utf8 name left bytes ≢ panic
  unfolding parse_answers
  parse_answers-ne-panic name zero bytes = cc
  parse_answers-ne-panic name (suc left) bytes =
      >>=-ne-panic (advance_by 12 bytes)
        (λ rest. ok_or (read4 rest) (failed "failed") >>= λ found.
          parse_answers is_utf8 name left found.1 >>= λ answers.
          ok (record { name = name; addr = found.0 } ∷ answers))
        (advance_by-ne-panic 12 bytes)
        (λ rest.
          >>=-ne-panic (ok_or (read4 rest) (failed "failed"))
            (λ found. parse_answers is_utf8 name left found.1 >>= λ answers.
              ok (record { name = name; addr = found.0 } ∷ answers))
            (ok_or-ne-panic (read4 rest) (failed "failed"))
            (λ found.
              >>=-ne-panic (parse_answers is_utf8 name left found.1)
                (λ answers. ok (record { name = name; addr = found.0 } ∷ answers))
                (parse_answers-ne-panic name left found.1) (λ answers. cc)))

  parse_entries-ne-panic : (h : DnsPacket) (bytes : List ℕ) → parse_entries is_utf8 h bytes ≢ panic
  unfolding parse_entries
  parse_entries-ne-panic h bytes =
      >>=-ne-panic (parse_questions is_utf8 (from_be16 h.num_questions) bytes [])
        (λ q. parse_answers is_utf8 q.1 (from_be16 h.num_answers) q.0)
        (parse_questions-ne-panic (from_be16 h.num_questions) bytes [])
        (λ q. parse_answers-ne-panic q.1 (from_be16 h.num_answers) q.0)

  -- Whatever bytes a response has, its parser does not panic, and where it returns an error the table
  -- of pending queries is as it was.
  pub parse_dns_response_total :
      (bytes : List ℕ) (pending : Pending)
      → ((parse_dns_response is_utf8 bytes pending).1 ≡ ok tt)
        ⊎ ((e : Error) × (parse_dns_response is_utf8 bytes pending ≡ (pending, err e)))
  unfolding parse_dns_response
  parse_dns_response_total bytes pending = elim (Option-cases (read_dns bytes)) [
    | inl short ↦ inr (failed "Sliceable::from_slice: Too small", rw short refl)
    | inr ((h, rest), read) ↦ elim (Result-cases (parse_entries is_utf8 h rest)) [
      | inl (answers, e) ↦ inl (rw read (rw e refl))
      | inr (inl (failure, e)) ↦ inr (failure, rw read (rw e refl))
      | inr (inr e) ↦ absurd (parse_entries-ne-panic h rest e)
    ]
  ]
