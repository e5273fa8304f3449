-- ===== src/Sinkhole/Dns/Observed.antt =====
-- The sinkhole's own responses, as `extract_dns_answers` of backend/app/pcap_tls.py reads them back
-- from the capture of the same analysis.
use mathlib.Core.List.{append_assoc}
use whs_dynamic.Base.{
  ℕ, ◌+◌, ◌≡◌, refl, sym, ap, ◌∙◌, List, [], ◌∷◌, ◌++◌, some, Bytes, Text, slice, take_all,
  slice_behind, length, length-append, read_byte, pack_u16, All, arith, dotted, codes, join,
}
use whs_dynamic.Pcap.Answers.{
  Answers, answers_of_message, add_answer, message_head, skip_questions, read_answers,
  unpack_record, decode_dns_name, strip_dots,
}
use whs_dynamic.Pcap.Answers.Names.{
  write_labels, IsLabel, decode_dns_name-write_labels, decode_dns_name-IsPointer,
}
use whs_dynamic.Sinkhole.Dns.{build_dns_a_response}
use whs_dynamic.Sinkhole.Dns.Reply.{
  Query, IsQuery, expected_response, write_query, build_dns_a_response-write_query,
}

-- The response to an A query, by its two id bytes.
module _ (a b : ℕ) (labels : List Text) (qclass ip : Bytes) where
  abbrev asked : Bytes
  asked = write_labels labels ++ (pack_u16 1 ++ qclass)

  abbrev header : Bytes
  header = a ∷ b ∷ 0x81 ∷ 0x80 ∷ 0 ∷ 1 ∷ 0 ∷ 1 ∷ 0 ∷ 0 ∷ 0 ∷ 0 ∷ []

  abbrev record_head : Bytes
  record_head = 0 ∷ 1 ∷ 0 ∷ 1 ∷ 0 ∷ 0 ∷ 0 ∷ 30 ∷ 0 ∷ 4 ∷ []

  abbrev answer : Bytes
  answer = 0xC0 ∷ 0x0C ∷ record_head ++ ip

  abbrev response : Bytes
  response = header ++ (asked ++ answer)

  abbrev front : Bytes
  front = header ++ asked

  module _ (fits : All IsLabel labels) (qclass_size : length qclass ≡ 2)
      (ip_size : length ip ≡ 4) where
    front_size : length front ≡ 12 + length (write_labels labels) + 4
    front_size = omega (
      arith,
      length-append {0} (write_labels labels) (pack_u16 1 ++ qclass),
      length-append {0} (pack_u16 1) qclass,
      qclass_size,
    )

    question_read :
        decode_dns_name response 12
        ≡ some (join (codes ".") labels, 12 + length (write_labels labels))
    question_read =
        simp append_assoc
          (decode_dns_name-write_labels labels header (pack_u16 1 ++ (qclass ++ answer)) fits)

    head_read : message_head response ≡ some (1, length front)
    unfolding message_head skip_questions
    head_read = rw question_read (ap (λ n. some (1, n)) (sym front_size))

    at_answer : response ≡ front ++ answer
    at_answer = simp append_assoc

    name_read : decode_dns_name response (length front) ≡ some ([], length front + 2)
    name_read = decode_dns_name-IsPointer response (length front) (
      0xC0,
      read_byte response front 0xC0 (0x0C ∷ record_head ++ ip) (length front) at_answer refl,
      omega arith,
      omega arith,
    )

    part : (k n pos : ℕ) → pos ≡ length front + k → slice response pos n ≡ slice answer k n
    part k n pos p = slice_behind response front answer k n pos at_answer p

    record_read : unpack_record response (length front + 2) ≡ some (1, 4)
    unfolding unpack_record
    record_read = rw (
      part 2 2 (length front + 2) refl,
      part 4 2 (length front + 2 + 2) (omega arith),
      part 6 4 (length front + 2 + 4) (omega arith),
      part 10 2 (length front + 2 + 8) (omega arith),
    )

    address_read : slice response (length front + 2 + 10) 4 ≡ ip
    address_read = part 12 4 (length front + 2 + 10) (omega arith) ∙ take_all 4 ip (sym ip_size)

    answer_read :
        (answers : Answers)
        → read_answers 1 response (length front) answers ≡ add_answer [] (dotted ip) answers
    unfolding read_answers strip_dots
    answer_read answers = rw (name_read, record_read, address_read, read_answers)

    response_read :
        (answers : Answers)
        → answers_of_message response answers ≡ add_answer [] (dotted ip) answers
    unfolding answers_of_message
    response_read answers = ground (arith, head_read, answer_read answers)

response_read_by_id :
    (txid : Bytes) (labels : List Text) (qclass ip : Bytes) (answers : Answers)
    → length txid ≡ 2
    → All IsLabel labels
    → length qclass ≡ 2
    → length ip ≡ 4
    → answers_of_message
        (txid
          ++ (0x81 ∷ 0x80 ∷ 0 ∷ 1 ∷ 0 ∷ 1 ∷ 0 ∷ 0 ∷ 0 ∷ 0 ∷ asked 0 0 labels qclass ip
              ++ answer 0 0 labels qclass ip))
        answers
      ≡ add_answer [] (dotted ip) answers
response_read_by_id [] labels qclass ip answers size f c i = absurd (omega arith)
response_read_by_id (a ∷ []) labels qclass ip answers size f c i = absurd (omega arith)
response_read_by_id (a ∷ b ∷ []) labels qclass ip answers size f c i =
    response_read a b labels qclass ip f c i answers
response_read_by_id (a ∷ b ∷ x ∷ xs) labels qclass ip answers size f c i = absurd (omega arith)

-- The sinkhole's response to an A query, read back by the capture reader, yields its address under the
-- empty name and not under the name that was asked for.
pub observed_response :
    (q : Query) (answer_ip : Bytes) (answers : Answers)
    → IsQuery q
    → All IsLabel q.labels
    → q.qtype ≡ 1
    → length answer_ip ≡ 4
    → (response : Bytes) × (build_dns_a_response (write_query q) answer_ip ≡ some response)
      × (answers_of_message response answers ≡ add_answer [] (dotted answer_ip) answers)
observed_response q answer_ip answers v fits a_query size = (
  expected_response q answer_ip,
  build_dns_a_response-write_query q v answer_ip,
  rw a_query (
      response_read_by_id q.txid q.labels q.qclass answer_ip answers v.txid_size fits v.qclass_size
        size),
)
