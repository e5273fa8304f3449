-- ===== src/Sinkhole/Dns.antt =====
-- `build_dns_a_response` of backend/app/sinkhole.py. The address is given by the four bytes that
-- `socket.inet_aton` makes of it. `none` is the source's None.
pub mod Fuel
pub mod Reply
pub mod Observed
use whs_dynamic.Base.{
  ℕ, zero, suc, ◌+◌, ◌-◌, [], ◌∷◌, ◌++◌, Option, none, some, Bool, true, false, not, Bytes, slice,
  take, length, get_elem?, unpack_u16, pack_u16, pack_u32, ltb, eqb, ◌>>=◌, if◌then◌else◌,
}

-- `while query[pos] != 0: pos += 1 + query[pos]`; `none` is IndexError.
unfoldable pub skip_name : ℕ → Bytes → ℕ → Option ℕ
skip_name zero query pos = none
skip_name (suc fuel) query pos = do
  size ← get_elem? query pos
  elim (eqb size 0) [ true ↦ some pos | false ↦ skip_name fuel query (pos + (1 + size)) ]

-- A round takes a byte of the query, so its length is enough fuel.
unfoldable pub build_dns_a_response : Bytes → Bytes → Option Bytes
build_dns_a_response query answer_ip = if ltb (length query) 12 then none else (do
  let txid = take 2 query
  qdcount ← unpack_u16 (slice query 4 2)
  if ltb qdcount 1 then none else (do
    end ← skip_name (suc (length query)) query 12
    let name_end = end + 1
    qtype ← unpack_u16 (slice query name_end 2)
    let question = slice query 12 (name_end + 4 - 12)
    some (
        if not (eqb qtype 1)
        then txid
          ++ (0x81 ∷ 0x80 ∷ pack_u16 1 ++ (pack_u16 0 ++ (pack_u16 0 ++ (pack_u16 0 ++ question))))
        else txid
          ++ (0x81 ∷ 0x80 ∷ pack_u16 1
              ++ (pack_u16 1
                  ++ (pack_u16 0
                      ++ (pack_u16 0
                          ++ (question
                              ++ (0xC0 ∷ 0x0C ∷ pack_u16 1
                                  ++ (pack_u16 1
                                      ++ (pack_u32 30 ++ (pack_u16 4 ++ answer_ip))))))))))))
