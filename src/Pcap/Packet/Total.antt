-- ===== src/Pcap/Packet/Total.antt =====
-- The packet parsers read inside every frame that they accept.
use whs_dynamic.Base.{
  ℕ, ◌+◌, ◌*◌, ◌/◌, dotted, ◌≤◌, ◌≡◌, Option, none, some, Bytes, slice, drop, length, length-drop,
  get_elem?_of_lt, unpack_u16-slice, ◌%◌, not, ◌||◌, arith, ◌⊎◌, inl, inr, Bool-cases, false, ltb,
  eqb,
}
use whs_dynamic.Base.Outcomes.{returned}
use whs_dynamic.Pcap.Packet.{Datagram, parse_ipv4, parse_ipv4_tcp, parse_udp}

-- The common part returns nothing, or at least 20 bytes of packet with the frame's 14 bytes before it.
parse_ipv4_cases :
    (frame : Bytes)
    → (parse_ipv4 frame ≡ returned none)
      ⊎ ((ihl : ℕ) × (protocol : ℕ) × (parse_ipv4 frame
            ≡ returned (some (drop 14 frame, ihl, protocol)))
          × (20 ≤ length (drop 14 frame)))
unfolding parse_ipv4
parse_ipv4_cases frame = elim (Bool-cases (ltb (length frame) 14)) [
  | inl short ↦ inl (rw short)
  | inr long ↦
      let (ethertype, e) = unpack_u16-slice frame 12 (ground arith) in
      elim (Bool-cases (eqb ethertype 0x0800)) [
        | inr other ↦ inl (rw (long, e, other))
        | inl v4 ↦ elim (Bool-cases (ltb (length (drop 14 frame)) 20)) [
          | inl small ↦ inl (rw (long, e, v4, small))
          | inr room ↦
              let (b, eb) = get_elem?_of_lt (drop 14 frame) 0 (ground arith) in
              let (p, ep) = get_elem?_of_lt (drop 14 frame) 9 (ground arith) in
              inr ((b % 16) * 4, p, rw (long, e, v4, room, eb, ep), ground arith)
        ]
      ]
]

module _ (frame : Bytes) where
  abbrev datagram : (ihl skip src dst : ℕ) → Datagram
  datagram ihl skip src dst = record {
    src_ip = dotted (slice (drop 14 frame) 12 4);
    dst_ip = dotted (slice (drop 14 frame) 16 4);
    src_port = src;
    dst_port = dst;
    payload = drop skip (drop ihl (drop 14 frame));
  }

  parse_ipv4_tcp_total : (r : Option Datagram) × (parse_ipv4_tcp frame ≡ returned r)
  unfolding parse_ipv4_tcp
  parse_ipv4_tcp_total = elim (parse_ipv4_cases frame) [
    | inl nothing ↦ (none, rw nothing)
    | inr (ihl, protocol, e, size) ↦
        let ip = drop 14 frame in
        elim (Bool-cases (not (eqb protocol 6) || ltb (length ip) (ihl + 20))) [
          | inl skipped ↦ (none, rw (e, skipped))
          | inr taken ↦
              let room : 20 ≤ length (drop ihl ip) = ground (arith, length-drop ihl ip) in
              let (src, es) = unpack_u16-slice (drop ihl ip) 0 (omega arith) in
              let (dst, ed) = unpack_u16-slice (drop ihl ip) 2 (omega arith) in
              let (off, eo) = get_elem?_of_lt (drop ihl ip) 12 (omega arith) in
              (some (datagram ihl (((off / 16) % 16) * 4) src dst), rw (e, taken, es, ed, eo))
        ]
  ]

  parse_udp_total : (r : Option Datagram) × (parse_udp frame ≡ returned r)
  unfolding parse_udp
  parse_udp_total = elim (parse_ipv4_cases frame) [
    | inl nothing ↦ (none, rw nothing)
    | inr (ihl, protocol, e, size) ↦
        let ip = drop 14 frame in
        elim (Bool-cases (not (eqb protocol 17) || ltb (length ip) (ihl + 8))) [
          | inl skipped ↦ (none, rw (e, skipped))
          | inr taken ↦
              let room : 8 ≤ length (drop ihl ip) = ground (arith, length-drop ihl ip) in
              let (src, es) = unpack_u16-slice (drop ihl ip) 0 (omega arith) in
              let (dst, ed) = unpack_u16-slice (drop ihl ip) 2 (omega arith) in
              (some (datagram ihl 8 src dst), rw (e, taken, es, ed))
        ]
  ]

not_both :
    (frame : Bytes) → (parse_ipv4_tcp frame ≡ returned none) ⊎ (parse_udp frame ≡ returned none)
unfolding parse_ipv4_tcp parse_udp
not_both frame = elim (parse_ipv4_cases frame) [
  | inl nothing ↦ inl (rw nothing)
  | inr (ihl, protocol, e, size) ↦ elim (Bool-cases (eqb protocol 6)) [
    | inl tcp ↦ let other : eqb protocol 17 ≡ false = ground arith in inr (rw (e, other))
    | inr other ↦ inl (rw (e, other))
  ]
]

-- No frame, however short or malformed, makes the TCP or the UDP parser raise, and no frame is
-- taken for both.
pub packet_parsers_total :
    (frame : Bytes)
    → ((r : Option Datagram) × (parse_ipv4_tcp frame ≡ returned r))
      × ((r : Option Datagram) × (parse_udp frame ≡ returned r))
      × ((parse_ipv4_tcp frame ≡ returned none) ⊎ (parse_udp frame ≡ returned none))
packet_parsers_total frame = (parse_ipv4_tcp_total frame, parse_udp_total frame, not_both frame)
