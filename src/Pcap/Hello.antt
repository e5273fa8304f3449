-- ===== src/Pcap/Hello.antt =====
-- `parse_client_hello_sni` and `extract_sni_records` of backend/app/pcap_tls.py.
pub mod RoundTrip
use whs_dynamic.Base.{
  ℕ, zero, suc, ◌+◌, List, [], ◌∷◌, Option, none, some, Bool, true, false, ◌||◌, not, Bytes, Text,
  slice, length, get_elem?, unpack_u16, ltb, leb, eqb, decode_ascii, ◌>>=◌, if◌then◌else◌,
}

-- The loop over the extensions. The try block turns an error into None, so `none` is both.
unfoldable pub find_sni : ℕ → Bytes → ℕ → ℕ → Option Text
find_sni zero payload end pos = none
find_sni (suc fuel) payload end pos = elim (leb (pos + 4) end) [
  | false ↦ none
  | true ↦ (do
    ext_type ← unpack_u16 (slice payload pos 2)
    ext_len ← unpack_u16 (slice payload (pos + 2) 2)
    elim (eqb ext_type 0) [
      | true ↦ (do
        name_len ← unpack_u16 (slice payload (pos + 4 + 3) 2)
        some (decode_ascii (slice payload (pos + 4 + 3 + 2) name_len)))
      | false ↦ find_sni fuel payload end (pos + 4 + ext_len)
    ])
]

-- `parse_client_hello_sni`. A round of the loop goes on by at least four bytes of the extensions, so
-- their length is enough fuel.
unfoldable pub parse_client_hello_sni : Bytes → Option Text
parse_client_hello_sni payload = if ltb (length payload) 6 then none else (do
  content_type ← get_elem? payload 0
  handshake_type ← get_elem? payload 5
  if not (eqb content_type 0x16) || not (eqb handshake_type 0x01) then none else (do
    session_id_len ← get_elem? payload 43
    let pos = 43 + 1 + session_id_len
    cipher_suites_len ← unpack_u16 (slice payload pos 2)
    let pos' = pos + 2 + cipher_suites_len
    compression_len ← get_elem? payload pos'
    let pos'' = pos' + 1 + compression_len
    if ltb (length payload) (pos'' + 2) then none else (do
      extensions_len ← unpack_u16 (slice payload pos'' 2)
      find_sni (suc extensions_len) payload (pos'' + 2 + extensions_len) (pos'' + 2))))
