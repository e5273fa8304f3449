-- ===== src/Pcap/Frames.antt =====
-- `_iter_frames` of backend/app/pcap_tls.py.
pub mod RoundTrip
use whs_dynamic.Base.{
  ℕ, zero, suc, ◌+◌, List, [], ◌∷◌, Option, none, some, Bool, true, false, Bytes, slice, length,
  unpack_u32, unpack_u32_le, leb, ltb, eqb, ◌>>=◌, if◌then◌else◌,
}

-- The byte order `<` or `>` of a `struct` format.
pub data Order : Type 0 where
  little big : Order

-- `_MAGICS.get(magic)`
unfoldable pub order_of_magic : ℕ → Option Order
order_of_magic magic =
    if eqb magic 0xA1B2C3D4
    then some little
    else if eqb magic 0xD4C3B2A1
    then some big
    else if eqb magic 0xA1B23C4D
    then some little
    else if eqb magic 0x4D3CB2A1
    then some big
    else none

unfoldable pub unpack_word : Order → Bytes → Option ℕ
unpack_word little b = unpack_u32_le b
unpack_word big b = unpack_u32 b

-- The two attempts to find the byte order in the first four bytes.
unfoldable pub detect_order : Bytes → Option Order
unfolding order_of_magic
detect_order head = do
  magic ← unpack_u32_le head
  elim (order_of_magic magic) [
    | some order ↦ some order
    | none ↦ (do magic' ← unpack_u32 head; order_of_magic magic')
  ]

-- `_, _, incl_len, _ = struct.unpack(order + "IIII", header)`
unfoldable pub unpack_incl_len : Order → Bytes → Option ℕ
unfolding unpack_word
unpack_incl_len order header =
    if eqb (length header) 16 then unpack_word order (slice header 8 4) else none

-- The `while` loop. Each round goes on by at least 16 bytes.
unfoldable pub frames_from : ℕ → Bytes → Order → ℕ → List Bytes
frames_from zero raw order offset = []
frames_from (suc fuel) raw order offset = elim (leb (offset + 16) (length raw)) [
  | false ↦ []
  | true ↦ elim (unpack_incl_len order (slice raw offset 16)) [
    | none ↦ []
    | some incl_len ↦ elim (ltb (length raw) (offset + 16 + incl_len)) [
      | true ↦ []
      | false ↦
          slice raw (offset + 16) incl_len ∷ frames_from fuel raw order (offset + 16 + incl_len)
    ]
  ]
]

unfoldable pub iter_frames : Bytes → List Bytes
iter_frames raw = if ltb (length raw) 24 then [] else elim (detect_order (slice raw 0 4)) [
  | none ↦ []
  | some order ↦ frames_from (length raw) raw order 24
]
