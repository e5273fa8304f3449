-- ===== src/Examples/PcapRuns.antt =====
-- backend/app/pcap_tls.py on concrete bytes.
use whs_dynamic.Base.{
  [], ◌∷◌, ◌++◌, some, false, ◌≡◌, refl, Bytes, codes, All, arith, dotted, replicate, contains,
  nat_eq, list_eq, inl,
}
use whs_dynamic.Base.Outcomes.{returned}
use whs_dynamic.Pcap.Frames.{big, detect_order, iter_frames, frames_from, unpack_incl_len}
use whs_dynamic.Pcap.Packet.{parse_udp, parse_ipv4}
use whs_dynamic.Pcap.Frames.RoundTrip.{write_capture, iter_frames-write_capture}
use whs_dynamic.Pcap.Hello.{parse_client_hello_sni}
use whs_dynamic.Pcap.Hello.RoundTrip.{Hello, write_hello, parse_client_hello_sni-write_hello}
use whs_dynamic.Pcap.Answers.{
  Answers, decode_dns_name, decode_labels, SniRecord, answers_of_frames, answers_of_message,
  message_head, skip_questions, read_answers, unpack_record, add_answer, strip_dots, get_answer,
  sni_mismatches, extract_dns_answers,
}
use whs_dynamic.Pcap.Answers.Mismatch.{IsCompressed}
use whs_dynamic.Pcap.Answers.Mismatch.{sni_mismatches_sound, sni_mismatches_compressed}
use whs_dynamic.Pcap.Answers.Finite.{Frames}

abbrev hello : Hello
hello = record {
  version = 3 ∷ 1 ∷ 0 ∷ 0 ∷ [];
  body = replicate 37 0;
  session_id = 7 ∷ 7 ∷ [];
  cipher_suites = 0x13 ∷ 0x01 ∷ [];
  compression = 0 ∷ [];
  before = (23, 1 ∷ 2 ∷ []) ∷ [];
  ext_len = 15;
  list_head = 0 ∷ 13 ∷ 0 ∷ [];
  host = codes "evil.test";
  behind = [];
  trailer = 9 ∷ [];
}

parse_client_hello_sni-write_hello_example :
    parse_client_hello_sni (write_hello hello) ≡ some (codes "evil.test")
parse_client_hello_sni-write_hello_example = parse_client_hello_sni-write_hello hello (record {
  version_size = refl;
  body_size = refl;
  list_head_size = refl;
  others = ground arith;
  ascii = ground arith;
})

iter_frames-write_capture_example :
    iter_frames (
      write_capture big (replicate 20 0) (((1, 2, 3), 5 ∷ 6 ∷ 7 ∷ []) ∷ ((4, 5, 1), 8 ∷ []) ∷ [])
      ++ [])
    ≡ (5 ∷ 6 ∷ 7 ∷ []) ∷ (8 ∷ []) ∷ []
iter_frames-write_capture_example =
    iter_frames-write_capture big (replicate 20 0)
      (((1, 2, 3), 5 ∷ 6 ∷ 7 ∷ []) ∷ ((4, 5, 1), 8 ∷ []) ∷ []) [] refl (inl (ground arith))

abbrev front : Bytes
front = 1 ∷ 2 ∷ []

abbrev to_evil : SniRecord
to_evil = record {
  src = codes "172.18.0.2";
  dst = codes "10.0.0.1";
  dst_port = 443;
  sni = codes "evil.test";
}

abbrev known : Answers
known = (codes "evil.test", codes "10.0.0.2" ∷ []) ∷ []

sni_mismatches_sound_example :
    All
      (λ m. (get_answer m.0.sni known ≡ some m.1) × (contains m.1 m.0.dst ≡ false))
      (sni_mismatches (to_evil ∷ []) known)
sni_mismatches_sound_example = sni_mismatches_sound (to_evil ∷ []) known

-- A DNS response in a frame, with one answer record, whose name is compressed.
abbrev answer : Bytes
answer = 0xC0 ∷ 0x0C ∷ 0 ∷ 1 ∷ 0 ∷ 1 ∷ 0 ∷ 0 ∷ 0 ∷ 30 ∷ 0 ∷ 4 ∷ 10 ∷ 0 ∷ 0 ∷ 2 ∷ []

abbrev answer_frame : Bytes
answer_frame =
    replicate 12 0
    ++ (8 ∷ 0 ∷ 0x45 ∷ []
        ++ (replicate 8 0
            ++ (17 ∷ []
                ++ (replicate 10 0
                    ++ (0 ∷ 53 ∷ 0 ∷ 99 ∷ 0 ∷ 36 ∷ 0 ∷ 0 ∷ []
                        ++ (0 ∷ 1 ∷ 0x81 ∷ 0x80 ∷ 0 ∷ 0 ∷ 0 ∷ 1 ∷ 0 ∷ 0 ∷ 0 ∷ 0 ∷ [] ++ answer))))))

abbrev answer_capture : Bytes
answer_capture = write_capture big (replicate 20 0) (((1, 2, 3), answer_frame) ∷ [])

answer_capture-IsCompressed : All IsCompressed (iter_frames answer_capture)
unfolding iter_frames detect_order frames_from unpack_incl_len parse_udp parse_ipv4 message_head
    skip_questions
answer_capture-IsCompressed = (((0xC0, refl, omega arith, omega arith), λ rtype rdlength h. tt), tt)

answer_capture_answers :
    extract_dns_answers answer_capture ≡ returned (([], codes "10.0.0.2" ∷ []) ∷ [])
unfolding extract_dns_answers answers_of_frames iter_frames detect_order frames_from unpack_incl_len
    parse_udp parse_ipv4 answers_of_message message_head skip_questions read_answers decode_dns_name
    decode_labels unpack_record add_answer strip_dots dotted
answer_capture_answers = refl

sni_mismatches_compressed_example :
    sni_mismatches (to_evil ∷ []) (([], codes "10.0.0.2" ∷ []) ∷ []) ≡ []
sni_mismatches_compressed_example =
    sni_mismatches_compressed (to_evil ∷ []) answer_capture (([], codes "10.0.0.2" ∷ []) ∷ [])
      answer_capture_answers answer_capture-IsCompressed (λ e. ground (arith, e), tt)

-- A capture of one frame.
abbrev one_frame : Bytes
one_frame = write_capture big (replicate 20 0) (((1, 2, 3), 5 ∷ 6 ∷ 7 ∷ []) ∷ [])
