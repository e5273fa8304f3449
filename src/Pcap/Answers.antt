-- ===== src/Pcap/Answers.antt =====
-- `_decode_dns_name`, `extract_dns_answers`, `extract_sni_records` and `sni_mismatches` of
-- backend/app/pcap_tls.py.
pub mod Names
pub mod Mismatch
pub mod Finite
pub mod Total
use whs_dynamic.Base.{
  ℕ, zero, suc, ◌+◌, ◌*◌, ◌/◌, ◌%◌, List, [], ◌∷◌, ◌++◌, Option, none, some, Bool, true, false,
  ◌&&◌, ◌||◌, not, Bytes, Text, slice, length, get_elem?, unpack_u16, unpack_u32, ltb, eqb, codes,
  join, dotted, decode_ascii, ◌>>=◌, if◌then◌else◌, contains, ◌==◌, nat_eq, list_eq,
}
use whs_dynamic.Base.Outcomes
use whs_dynamic.Base.Outcomes.{Outcome, returned, raised}
use whs_dynamic.Pcap.Frames.{iter_frames}
use whs_dynamic.Pcap.Packet.{Datagram, parse_ipv4_tcp, parse_udp}
use whs_dynamic.Pcap.Hello.{parse_client_hello_sni}

-- The loop of `_decode_dns_name`: the labels and the position behind the name. `none` is IndexError.
-- `length & 0xC0 == 0xC0` is the test that the two high bits of the byte are set.
unfoldable pub decode_labels : ℕ → Bytes → ℕ → Option (List Text × ℕ)
decode_labels zero msg pos = none
decode_labels (suc fuel) msg pos = do
  size ← get_elem? msg pos
  elim (eqb size 0) [
    | true ↦ some ([], pos + 1)
    | false ↦ elim (eqb ((size / 64) % 4) 3) [
      | true ↦ some ([], pos + 2)
      | false ↦ (do
        (labels, end) ← decode_labels fuel msg (pos + 1 + size)
        some (decode_ascii (slice msg (pos + 1) size) ∷ labels, end))
    ]
  ]

-- `_decode_dns_name`. Every label takes a byte of the message, so its length is enough fuel.
unfoldable pub decode_dns_name : Bytes → ℕ → Option (Text × ℕ)
decode_dns_name msg pos = do
  (labels, end) ← decode_labels (suc (length msg)) msg pos
  some (join (codes ".") labels, end)

-- domain → addresses
abbrev pub Answers : Type 0
Answers = List (Text × List Text)

-- `answers.setdefault(name, []).append(ip)`
unfoldable pub add_answer : Text → Text → Answers → Answers
add_answer name ip [] = (name, ip ∷ []) ∷ []
add_answer name ip ((n, ips) ∷ rest) =
    if n == name then (n, ips ++ ip ∷ []) ∷ rest else (n, ips) ∷ add_answer name ip rest

-- `answers.get(name)`
unfoldable pub get_answer : Text → Answers → Option (List Text)
get_answer name [] = none
get_answer name ((n, ips) ∷ rest) = if n == name then some ips else get_answer name rest

-- `name.rstrip(".")`
unfoldable pub strip_dots : Text → Text
strip_dots [] = []
strip_dots (c ∷ s) =
    let rest = strip_dots s in
    elim rest [ [] ↦ if eqb c b'.' then [] else c ∷ [] | x ∷ xs ↦ c ∷ x ∷ xs ]

-- The questions are skipped.
unfoldable pub skip_questions : ℕ → Bytes → ℕ → Option ℕ
skip_questions zero msg pos = some pos
skip_questions (suc n) msg pos = do
  (_, end) ← decode_dns_name msg pos
  skip_questions n msg (end + 4)

-- `rtype, _, _, rdlength = struct.unpack(">HHIH", msg[pos : pos + 10])`
unfoldable pub unpack_record : Bytes → ℕ → Option (ℕ × ℕ)
unpack_record msg pos = do
  rtype ← unpack_u16 (slice msg pos 2)
  _ ← unpack_u16 (slice msg (pos + 2) 2)
  _ ← unpack_u32 (slice msg (pos + 4) 4)
  rdlength ← unpack_u16 (slice msg (pos + 8) 2)
  some (rtype, rdlength)

-- The loop over the answer records. An error ends it, and what was found before stays.
unfoldable pub read_answers : ℕ → Bytes → ℕ → Answers → Answers
read_answers zero msg pos answers = answers
read_answers (suc n) msg pos answers = elim (decode_dns_name msg pos) [
  | none ↦ answers
  | some (name, pos') ↦ elim (unpack_record msg pos') [
    | none ↦ answers
    | some (rtype, rdlength) ↦ read_answers n msg (pos' + 10 + rdlength) (
        if eqb rtype 1 && eqb rdlength 4
        then add_answer (strip_dots name) (dotted (slice msg (pos' + 10) 4)) answers
        else answers)
  ]
]

-- The number of answers and where they begin, of a response that has some. An error is `none` too:
-- both go on to the next frame.
unfoldable pub message_head : Bytes → Option (ℕ × ℕ)
message_head msg = do
  flags ← unpack_u16 (slice msg 2 2)
  qdcount ← unpack_u16 (slice msg 4 2)
  ancount ← unpack_u16 (slice msg 6 2)
  if not (eqb ((flags / 32768) % 2) 1) || eqb ancount 0
      then none
      else (do pos ← skip_questions qdcount msg 12; some (ancount, pos))

-- The body of the loop over the frames, for one UDP payload.
unfoldable pub answers_of_message : Bytes → Answers → Answers
answers_of_message msg answers = if ltb (length msg) 12 then answers else elim (message_head msg) [
  | none ↦ answers
  | some (ancount, pos) ↦ read_answers ancount msg pos answers
]

unfoldable pub answers_of_frames : List Bytes → Answers → Outcome Answers
answers_of_frames [] answers = returned answers
answers_of_frames (frame ∷ frames) answers = elim (parse_udp frame) [
  | raised ↦ raised
  | returned none ↦ answers_of_frames frames answers
  | returned (some d) ↦
      answers_of_frames frames
        (if eqb d.src_port 53 then answers_of_message d.payload answers else answers)
]

-- `extract_dns_answers`, of the bytes of the capture file.
unfoldable pub extract_dns_answers : Bytes → Outcome Answers
extract_dns_answers raw = answers_of_frames (iter_frames raw) []

pub record SniRecord : Type 0 where
  pub src : Text
  pub dst : Text
  pub dst_port : ℕ
  pub sni : Text

unfoldable pub sni_of_payload : Datagram → Option SniRecord
sni_of_payload d = elim (parse_client_hello_sni d.payload) [
  | none ↦ none
  | some [] ↦ none
  | some (c ∷ s) ↦
      some (record { src = d.src_ip; dst = d.dst_ip; dst_port = d.dst_port; sni = c ∷ s })
]

unfoldable pub sni_of_frames : List Bytes → Outcome (List SniRecord)
sni_of_frames [] = returned []
sni_of_frames (frame ∷ frames) = elim (parse_ipv4_tcp frame) [
  | raised ↦ raised
  | returned none ↦ sni_of_frames frames
  | returned (some d) ↦ elim (sni_of_payload d) [
    | none ↦ sni_of_frames frames
    | some r ↦ Outcomes.◌>>=◌ (sni_of_frames frames) (λ rs. returned (r ∷ rs))
  ]
]

-- `extract_sni_records`, of the bytes of the capture file.
unfoldable pub extract_sni_records : Bytes → Outcome (List SniRecord)
extract_sni_records raw = sni_of_frames (iter_frames raw)

-- `sni_mismatches`: the records with the addresses that were looked up for their name.
unfoldable pub sni_mismatches : List SniRecord → Answers → List (SniRecord × List Text)
sni_mismatches [] answers = []
sni_mismatches (r ∷ records) answers =
    let rest = sni_mismatches records answers in
    elim (get_answer r.sni answers) [
      | none ↦ rest
      | some known_ips ↦ if contains known_ips r.dst then rest else (r, known_ips) ∷ rest
    ]
