-- ===== src/Pcap/Answers/Mismatch.antt =====
-- What `sni_mismatches` of backend/app/pcap_tls.py reports.
use mathlib.Core.Path.{subst}
use whs_dynamic.Base.{
  ℕ, ◌≡◌, ◌≢◌, refl, sym, ap, ◌∙◌, List, [], ◌∷◌, Option, none, some, Bytes, Text, All, contains,
  false, list_eq, nat_eq, Option-cases, inl, inr, Bool-cases, eqb, ltb, length, if◌then◌else◌,
}
use whs_dynamic.Base.Outcomes.{Outcome, returned, raised}
use whs_dynamic.Pcap.Frames.{iter_frames}
use whs_dynamic.Pcap.Packet.{Datagram, parse_udp}
use whs_dynamic.Pcap.Packet.Total.{packet_parsers_total}
use whs_dynamic.Pcap.Answers.{
  Answers, get_answer, message_head, answers_of_message, answers_of_frames, extract_dns_answers,
  SniRecord, sni_mismatches,
}
use whs_dynamic.Pcap.Answers.Names.{AllCompressed, get_answer-read_answers_compressed}

-- Every reported connection went to an address that is not among those looked up for its name, and
-- these are reported with it.
pub sni_mismatches_sound :
    (records : List SniRecord) (answers : Answers)
    → All
        (λ m. (get_answer m.0.sni answers ≡ some m.1) × (contains m.1 m.0.dst ≡ false))
        (sni_mismatches records answers)
unfolding sni_mismatches
sni_mismatches_sound [] answers = tt
sni_mismatches_sound (r ∷ records) answers = elim (Option-cases (get_answer r.sni answers)) [
  | inl unknown ↦ rw (unknown, sni_mismatches) (sni_mismatches_sound records answers)
  | inr (ips, known) ↦ elim (Bool-cases (contains ips r.dst)) [
    | inl fits ↦ rw (known, fits, sni_mismatches) (sni_mismatches_sound records answers)
    | inr differs ↦
        rw (known, differs, sni_mismatches) ((known, differs), sni_mismatches_sound records answers)
  ]
]

sni_mismatches_unknown :
    (records : List SniRecord) (answers : Answers)
    → All (λ r. get_answer r.sni answers ≡ none) records
    → sni_mismatches records answers ≡ []
unfolding sni_mismatches
sni_mismatches_unknown [] answers h = refl
sni_mismatches_unknown (r ∷ records) answers h =
    rw (h.0, sni_mismatches) (sni_mismatches_unknown records answers h.1)

-- The answer records of a message that begin at `head` all have compressed names.
abbrev pub CompressedAt : Option (ℕ × ℕ) → Bytes → Type 0
CompressedAt none msg = Unit
CompressedAt (some (ancount, pos)) msg = AllCompressed ancount msg pos

abbrev pub CompressedIn : Outcome (Option Datagram) → Type 0
CompressedIn raised = Unit
CompressedIn (returned none) = Unit
CompressedIn (returned (some d)) = CompressedAt (message_head d.payload) d.payload

-- The frame holds no DNS message, or one whose answer records all have compressed names.
abbrev pub IsCompressed : Bytes → Type 0
IsCompressed frame = CompressedIn (parse_udp frame)

get_answer-answers_of_message :
    (msg : Bytes) (answers : Answers) (name : Text)
    → CompressedAt (message_head msg) msg
    → name ≢ []
    → get_answer name (answers_of_message msg answers) ≡ get_answer name answers
unfolding answers_of_message
get_answer-answers_of_message msg answers name c ne = elim (Bool-cases (ltb (length msg) 12)) [
  | inl short ↦ rw (answers_of_message, short) refl
  | inr long ↦ elim (Option-cases (message_head msg)) [
    | inl q ↦ rw (answers_of_message, long, q) refl
    | inr ((ancount, pos), q) ↦
        rw (answers_of_message, long, q)
          (get_answer-read_answers_compressed ancount msg pos answers name
            (subst (λ o. CompressedAt o msg) q c) ne)
  ]
]

get_answer-answers_of_datagram :
    (d : Datagram) (answers : Answers) (name : Text)
    → CompressedAt (message_head d.payload) d.payload
    → name ≢ []
    → get_answer name (if eqb d.src_port 53 then answers_of_message d.payload answers else answers)
      ≡ get_answer name answers
get_answer-answers_of_datagram d answers name c ne = elim (Bool-cases (eqb d.src_port 53)) [
  | inl q ↦ rw q (get_answer-answers_of_message d.payload answers name c ne)
  | inr q ↦ rw q refl
]

abbrev value_or : Answers → Outcome Answers → Answers
value_or default raised = default
value_or default (returned answers) = answers

answers_of_frames_skipped :
    (frame : Bytes) (frames : List Bytes) (start : Answers)
    → parse_udp frame ≡ returned none
    → answers_of_frames (frame ∷ frames) start ≡ answers_of_frames frames start
unfolding answers_of_frames
answers_of_frames_skipped frame frames start q = rw (answers_of_frames, q) refl

answers_of_frames_found :
    (frame : Bytes) (frames : List Bytes) (start : Answers) (d : Datagram)
    → parse_udp frame ≡ returned (some d)
    → answers_of_frames (frame ∷ frames) start
      ≡ answers_of_frames frames
          (if eqb d.src_port 53 then answers_of_message d.payload start else start)
unfolding answers_of_frames
answers_of_frames_found frame frames start d q = rw (answers_of_frames, q) refl

get_answer-answers_of_frames :
    (frames : List Bytes) (start answers : Answers) (name : Text)
    → answers_of_frames frames start ≡ returned answers
    → All IsCompressed frames
    → name ≢ []
    → get_answer name answers ≡ get_answer name start
unfolding answers_of_frames
get_answer-answers_of_frames [] start answers name e c ne =
    sym (ap (λ o. get_answer name (value_or [] o)) e)
get_answer-answers_of_frames (frame ∷ frames) start answers name e (c, cs) ne =
    let (o, parsed) = (packet_parsers_total frame).1 in
    elim (Option-cases o) [
      | inl nothing ↦
          get_answer-answers_of_frames frames start answers name
            (sym (
                answers_of_frames_skipped frame frames start
                  (parsed ∙ ap (λ o. returned o) nothing))
              ∙ e)
            cs ne
      | inr (d, found) ↦
          let c' = subst CompressedIn (parsed ∙ ap (λ o. returned o) found) c in
          get_answer-answers_of_frames frames
            (if eqb d.src_port 53 then answers_of_message d.payload start else start) answers name
            (sym
                (answers_of_frames_found frame frames start d (parsed ∙ ap (λ o. returned o) found))
              ∙ e)
            cs ne
          ∙ get_answer-answers_of_datagram d start name c' ne
    ]

All-compressed_unknown :
    (records : List SniRecord) (raw : Bytes) (answers : Answers)
    → extract_dns_answers raw ≡ returned answers
    → All IsCompressed (iter_frames raw)
    → All (λ r. r.sni ≢ []) records
    → All (λ r. get_answer r.sni answers ≡ none) records
unfolding get_answer extract_dns_answers
All-compressed_unknown [] raw answers e c h = tt
All-compressed_unknown (r ∷ records) raw answers e c h = (
  get_answer-answers_of_frames (iter_frames raw) [] answers r.sni e c h.0,
  All-compressed_unknown records raw answers e c h.1,
)

-- If every DNS message of a capture has answer records with compressed names only, no connection with
-- a name is reported against the answers that `extract_dns_answers` reads of the capture, whatever
-- addresses the records hold and the connections went to.
pub sni_mismatches_compressed :
    (records : List SniRecord) (raw : Bytes) (answers : Answers)
    → extract_dns_answers raw ≡ returned answers
    → All IsCompressed (iter_frames raw)
    → All (λ r. r.sni ≢ []) records
    → sni_mismatches records answers ≡ []
sni_mismatches_compressed records raw answers e c h =
    sni_mismatches_unknown records answers (All-compressed_unknown records raw answers e c h)
