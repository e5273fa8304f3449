-- ===== src/Sinkhole/Dns/Reply.antt =====
-- The sinkhole's answer to a well-formed query, and what the capture reader makes of it.
use mathlib.Core.List.{append_assoc}
use whs_dynamic.Base.{
  ℕ, zero, suc, ◌+◌, ◌-◌, ◌≤◌, ◌<◌, ◌≡◌, refl, sym, ◌∙◌, List, [], ◌∷◌, ◌++◌, some, Bytes, Text,
  slice, slice-append, take, length, length-append, read_byte, read_u16, unpack_u16, pack_u16, All,
  arith, eqb, if◌then◌else◌,
}
use whs_dynamic.Pcap.Answers.Names.{write_labels}
use whs_dynamic.Sinkhole.Dns.{skip_name, build_dns_a_response}

-- Bytes of labels before the final zero.
abbrev labels_size : List Text → ℕ
labels_size [] = 0
labels_size (l ∷ ls) = (1 + length l) + labels_size ls

length-write_labels_eq : (ls : List Text) → length (write_labels ls) ≡ labels_size ls + 1
length-write_labels_eq [] = refl
length-write_labels_eq (l ∷ ls) =
    omega (arith, length-append {0} l (write_labels ls), length-write_labels_eq ls)

length-labels_size : (ls : List Text) → length ls ≤ labels_size ls
length-labels_size [] = omega arith
length-labels_size (l ∷ ls) = omega (arith, length-labels_size ls)

skip_name-write_labels :
    (ls : List Text) (fuel : ℕ) (query pre after : Bytes) (pos : ℕ)
    → query ≡ pre ++ (write_labels ls ++ after)
    → pos ≡ length pre
    → length ls < fuel
    → All (λ l. 0 < length l) ls
    → skip_name fuel query pos ≡ some (pos + labels_size ls)
unfolding skip_name
skip_name-write_labels ls zero query pre after pos e p room v = absurd (omega arith)
skip_name-write_labels [] (suc fuel) query pre after pos e p room v =
    ground (arith, read_byte query pre 0 after pos e p)
skip_name-write_labels (l ∷ ls) (suc fuel) query pre after pos e p room v =
    let size =
      read_byte query pre (length l) (l ++ (write_labels ls ++ after)) pos (e ∙ simp append_assoc)
        p in
    let rest =
      skip_name-write_labels ls fuel query (pre ++ (length l ∷ l)) after (pos + (1 + length l))
        (e ∙ simp append_assoc) (omega (arith, length-append {0} pre (length l ∷ l))) (omega arith)
        v.1 in
    ground (arith, size, rest, v.0)

pub record Query : Type 0 where
  pub txid : Bytes
  pub flags : Bytes
  pub qdcount : ℕ
  pub counts : Bytes
  pub labels : List Text
  pub qtype : ℕ
  pub qclass : Bytes
  pub rest : Bytes

module _ (q : Query) where
  abbrev pub question : Bytes
  question = write_labels q.labels ++ (pack_u16 q.qtype ++ q.qclass)

  abbrev pub query_head : Bytes
  query_head = q.txid ++ (q.flags ++ (pack_u16 q.qdcount ++ q.counts))

  abbrev pub write_query : Bytes
  write_query = query_head ++ (question ++ q.rest)

  pub record IsQuery : Type 0 where
    pub txid_size : length q.txid ≡ 2
    pub flags_size : length q.flags ≡ 2
    pub asks : 1 ≤ q.qdcount
    pub counts_size : length q.counts ≡ 6
    pub labels_fit : All (λ l. 0 < length l) q.labels
    pub qclass_size : length q.qclass ≡ 2

-- Header, the question as it was asked, and for an A query one answer: a pointer to the name in the
-- question, type A, class IN, 30 seconds, and the address.
abbrev pub expected_response : Query → Bytes → Bytes
expected_response q answer_ip =
    if eqb q.qtype 1
    then q.txid
      ++ (0x81 ∷ 0x80 ∷ 0 ∷ 1 ∷ 0 ∷ 1 ∷ 0 ∷ 0 ∷ 0 ∷ 0 ∷ question q
          ++ (0xC0 ∷ 0x0C ∷ 0 ∷ 1 ∷ 0 ∷ 1 ∷ 0 ∷ 0 ∷ 0 ∷ 30 ∷ 0 ∷ 4 ∷ answer_ip))
    else q.txid ++ (0x81 ∷ 0x80 ∷ 0 ∷ 1 ∷ 0 ∷ 0 ∷ 0 ∷ 0 ∷ 0 ∷ 0 ∷ question q)

build_of_reads :
    (query answer_ip txid asked : Bytes) (qdcount end qtype : ℕ)
    → 12 ≤ length query
    → take 2 query ≡ txid
    → unpack_u16 (slice query 4 2) ≡ some qdcount
    → 1 ≤ qdcount
    → skip_name (suc (length query)) query 12 ≡ some end
    → unpack_u16 (slice query (end + 1) 2) ≡ some qtype
    → slice query 12 (end + 1 + 4 - 12) ≡ asked
    → build_dns_a_response query answer_ip
      ≡ some (
          if eqb qtype 1
          then txid
            ++ (0x81 ∷ 0x80 ∷ 0 ∷ 1 ∷ 0 ∷ 1 ∷ 0 ∷ 0 ∷ 0 ∷ 0 ∷ asked
                ++ (0xC0 ∷ 0x0C ∷ 0 ∷ 1 ∷ 0 ∷ 1 ∷ 0 ∷ 0 ∷ 0 ∷ 30 ∷ 0 ∷ 4 ∷ answer_ip))
          else txid ++ (0x81 ∷ 0x80 ∷ 0 ∷ 1 ∷ 0 ∷ 0 ∷ 0 ∷ 0 ∷ 0 ∷ 0 ∷ asked))
unfolding build_dns_a_response
build_of_reads query answer_ip txid asked qdcount end qtype size t r4 asks name r rest =
    ground arith

module _ (q : Query) (v : IsQuery q) where
  abbrev tail : Bytes
  tail = pack_u16 q.qtype ++ (q.qclass ++ q.rest)

  abbrev past_labels : Bytes
  past_labels = query_head q ++ write_labels q.labels

  query_head_size : length (query_head q) ≡ 12
  query_head_size = omega (
    arith,
    length-append {0} q.txid (q.flags ++ (pack_u16 q.qdcount ++ q.counts)),
    length-append {0} q.flags (pack_u16 q.qdcount ++ q.counts),
    length-append {0} (pack_u16 q.qdcount) q.counts,
    v.txid_size,
    v.flags_size,
    v.counts_size,
  )

  query_size : length (write_query q) ≡ 12 + (length (question q) + length q.rest)
  query_size = omega (
    arith,
    query_head_size,
    length-append {0} (query_head q) (question q ++ q.rest),
    length-append {0} (question q) q.rest,
  )

  question_size : length (question q) ≡ labels_size q.labels + 5
  question_size = omega (
    arith,
    length-append {0} (write_labels q.labels) (pack_u16 q.qtype ++ q.qclass),
    length-append {0} (pack_u16 q.qtype) q.qclass,
    length-write_labels_eq q.labels,
    v.qclass_size,
  )

  -- The response to a well-formed query.
  pub build_dns_a_response-write_query :
      (answer_ip : Bytes)
      → build_dns_a_response (write_query q) answer_ip ≡ some (expected_response q answer_ip)
  build_dns_a_response-write_query answer_ip =
      build_of_reads (write_query q) answer_ip q.txid (question q) q.qdcount
        (12 + labels_size q.labels) q.qtype (omega (arith, query_size))
        (rw append_assoc (slice-append [] q.txid _ 0 2 refl (sym v.txid_size)))
        (read_u16 (write_query q) (q.txid ++ q.flags) q.qdcount (q.counts ++ (question q ++ q.rest))
          4 (simp append_assoc)
          (omega (arith, length-append {0} q.txid q.flags, v.txid_size, v.flags_size)))
        v.asks
        (skip_name-write_labels q.labels (suc (length (write_query q))) (write_query q)
          (query_head q) tail 12 (simp append_assoc) (sym query_head_size)
          (omega (arith, query_size, question_size, length-labels_size q.labels)) v.labels_fit)
        (read_u16 (write_query q) past_labels q.qtype (q.qclass ++ q.rest)
          (12 + labels_size q.labels + 1) (simp append_assoc)
          (omega (
            arith,
            query_head_size,
            length-append {0} (query_head q) (write_labels q.labels),
            length-write_labels_eq q.labels,
          )))
        (slice-append (query_head q) (question q) q.rest 12 (12 + labels_size q.labels + 1 + 4 - 12)
          (sym query_head_size) (omega (arith, question_size)))
