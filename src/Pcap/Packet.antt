-- ===== src/Pcap/Packet.antt =====
-- `_parse_ipv4_tcp` and `_parse_udp` of backend/app/pcap_tls.py. `returned none` is the source's
-- None, `raised` is struct.error or IndexError. A mask is written as a remainder.
pub mod Total
use whs_dynamic.Base.{
  ℕ, ◌+◌, ◌*◌, ◌/◌, ◌%◌, Option, none, some, Bool, true, false, ◌||◌, not, Bytes, Text, slice, drop,
  length, get_elem?, unpack_u16, ltb, eqb, dotted, if◌then◌else◌,
}
use whs_dynamic.Base.Outcomes.{Outcome, returned, or_raise, ◌>>=◌}

-- (src_ip, dst_ip, src_port, dst_port, payload)
pub record Datagram : Type 0 where
  pub src_ip : Text
  pub dst_ip : Text
  pub src_port : ℕ
  pub dst_port : ℕ
  pub payload : Bytes

-- The tests and reads that both parsers begin with: the IPv4 packet, its header length and protocol.
unfoldable pub parse_ipv4 : Bytes → Outcome (Option (Bytes × ℕ × ℕ))
parse_ipv4 frame = if ltb (length frame) 14 then returned none else (do
  ethertype ← or_raise (unpack_u16 (slice frame 12 2))
  let ip = drop 14 frame
  if not (eqb ethertype 0x0800)
      then returned none
      else if ltb (length ip) 20
      then returned none
      else (do
        version_ihl ← or_raise (get_elem? ip 0)
        protocol ← or_raise (get_elem? ip 9)
        returned (some (ip, (version_ihl % 16) * 4, protocol))))

-- `_parse_ipv4_tcp`
unfoldable pub parse_ipv4_tcp : Bytes → Outcome (Option Datagram)
parse_ipv4_tcp frame = do
  head ← parse_ipv4 frame
  elim head [
    | none ↦ returned none
    | some (ip, ihl, protocol) ↦
        if not (eqb protocol 6) || ltb (length ip) (ihl + 20)
        then returned none
        else (let tcp = drop ihl ip in
            do
              src_port ← or_raise (unpack_u16 (slice tcp 0 2))
              dst_port ← or_raise (unpack_u16 (slice tcp 2 2))
              offset_byte ← or_raise (get_elem? tcp 12)
              let data_offset = ((offset_byte / 16) % 16) * 4
              returned (
                  some (record {
                    src_ip = dotted (slice ip 12 4);
                    dst_ip = dotted (slice ip 16 4);
                    src_port = src_port;
                    dst_port = dst_port;
                    payload = drop data_offset tcp;
                  })))
  ]

-- `_parse_udp`
unfoldable pub parse_udp : Bytes → Outcome (Option Datagram)
parse_udp frame = do
  head ← parse_ipv4 frame
  elim head [
    | none ↦ returned none
    | some (ip, ihl, protocol) ↦
        if not (eqb protocol 17) || ltb (length ip) (ihl + 8)
        then returned none
        else (let udp = drop ihl ip in
            do
              src_port ← or_raise (unpack_u16 (slice udp 0 2))
              dst_port ← or_raise (unpack_u16 (slice udp 2 2))
              returned (
                  some (record {
                    src_ip = dotted (slice ip 12 4);
                    dst_ip = dotted (slice ip 16 4);
                    src_port = src_port;
                    dst_port = dst_port;
                    payload = drop 8 udp;
                  })))
  ]
