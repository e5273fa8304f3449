-- ===== src/Pcap/Answers/Finite.antt =====
-- The loops of backend/app/pcap_tls.py end: their rounds, without a bound on their number.
use mathlib.Core.Path.{subst}
use whs_dynamic.Base.{
  ℕ, zero, suc, ◌+◌, ◌/◌, ◌%◌, ◌<◌, ◌≤◌, List, [], ◌∷◌, Option, none, some, false, ◌≡◌, refl, inl,
  inr, Bytes, Text, slice, length, get_elem?, leb, ltb, eqb, decode_ascii, Bool-cases, Option-cases,
  ◌>>=◌, arith,
}
use whs_dynamic.Pcap.Frames.{Order, unpack_incl_len, frames_from}
use whs_dynamic.Pcap.Answers.{decode_labels}

-- The rounds of `_iter_frames` from an offset on, and the frames that they give.
pub data Frames (raw : Bytes) (order : Order) : ℕ → List Bytes → Type 0 where
  at_end : (offset : ℕ) → length raw < offset + 16 → Frames raw order offset []
  no_header :
      (offset : ℕ) → unpack_incl_len order (slice raw offset 16) ≡ none → Frames raw order offset []
  cut_off :
      (offset size : ℕ)
      → unpack_incl_len order (slice raw offset 16) ≡ some size
      → length raw < offset + 16 + size
      → Frames raw order offset []
  frame :
      (offset size : ℕ) (frames : List Bytes)
      → unpack_incl_len order (slice raw offset 16) ≡ some size
      → offset + 16 + size ≤ length raw
      → Frames raw order (offset + 16 + size) frames
      → Frames raw order offset (slice raw (offset + 16) size ∷ frames)

pub frames_from-Frames :
    (fuel : ℕ) (raw : Bytes) (order : Order) (offset : ℕ)
    → length raw < offset + fuel
    → Frames raw order offset (frames_from fuel raw order offset)
unfolding frames_from
frames_from-Frames zero raw order offset h = at_end offset (omega (arith, h))
frames_from-Frames (suc fuel) raw order offset h =
    elim (Bool-cases (leb (offset + 16) (length raw))) [
      | inr q ↦ rw (frames_from, q) (at_end offset (ground (arith, q)))
      | inl q ↦ elim (Option-cases (unpack_incl_len order (slice raw offset 16))) [
        | inl e ↦ rw (frames_from, q, e) (no_header offset e)
        | inr (size, e) ↦ elim (Bool-cases (ltb (length raw) (offset + 16 + size))) [
          | inl c ↦ rw (frames_from, q, e, c) (cut_off offset size e (ground (arith, c)))
          | inr c ↦
              rw (frames_from, q, e, c)
                (frame offset size _ e (ground (arith, c))
                  (frames_from-Frames fuel raw order (offset + 16 + size) (omega (arith, h))))
        ]
      ]
    ]

-- The rounds of `_decode_dns_name` from a position on, and what they give; `none` is an IndexError.
pub data Labels (msg : Bytes) : ℕ → Option (List Text × ℕ) → Type 0 where
  past_end : (pos : ℕ) → get_elem? msg pos ≡ none → Labels msg pos none
  root : (pos : ℕ) → get_elem? msg pos ≡ some 0 → Labels msg pos (some ([], pos + 1))
  pointer :
      (pos size : ℕ)
      → get_elem? msg pos ≡ some size
      → eqb size 0 ≡ false
      → (size / 64) % 4 ≡ 3
      → Labels msg pos (some ([], pos + 2))
  label :
      (pos size : ℕ) (labels : List Text) (end : ℕ)
      → get_elem? msg pos ≡ some size
      → eqb size 0 ≡ false
      → eqb ((size / 64) % 4) 3 ≡ false
      → Labels msg (pos + 1 + size) (some (labels, end))
      → Labels msg pos (some (decode_ascii (slice msg (pos + 1) size) ∷ labels, end))
  label_fails :
      (pos size : ℕ)
      → get_elem? msg pos ≡ some size
      → eqb size 0 ≡ false
      → eqb ((size / 64) % 4) 3 ≡ false
      → Labels msg (pos + 1 + size) none
      → Labels msg pos none

get_elem?_past : (msg : Bytes) (pos : ℕ) → length msg ≤ pos → get_elem? msg pos ≡ none
get_elem?_past [] pos h = refl
get_elem?_past (b ∷ msg) zero h = absurd (omega (arith, h))
get_elem?_past (b ∷ msg) (suc pos) h = get_elem?_past msg pos (omega (arith, h))

pub decode_labels-Labels :
    (fuel : ℕ) (msg : Bytes) (pos : ℕ)
    → length msg < pos + fuel
    → Labels msg pos (decode_labels fuel msg pos)
unfolding decode_labels
decode_labels-Labels zero msg pos h = past_end pos (get_elem?_past msg pos (omega (arith, h)))
decode_labels-Labels (suc fuel) msg pos h = elim (Option-cases (get_elem? msg pos)) [
  | inl q ↦ rw (decode_labels, q) (past_end pos q)
  | inr (size, q) ↦ elim (Bool-cases (eqb size 0)) [
    | inl z ↦
        let at_zero : get_elem? msg pos ≡ some 0 = ground (arith, q, z) in
        rw (decode_labels, q, ◌>>=◌, z) (root pos at_zero)
    | inr z ↦ elim (Bool-cases (eqb ((size / 64) % 4) 3)) [
      | inl p ↦ rw (decode_labels, q, ◌>>=◌, z, p) (pointer pos size q z (ground (arith, p)))
      | inr p ↦
          let rest = decode_labels-Labels fuel msg (pos + 1 + size) (omega (arith, h)) in
          elim (Option-cases (decode_labels fuel msg (pos + 1 + size))) [
            | inl e ↦
                rw (decode_labels, q, ◌>>=◌, z, p, ◌>>=◌, e)
                  (label_fails pos size q z p (subst (Labels msg (pos + 1 + size)) e rest))
            | inr ((labels, end), e) ↦
                rw (decode_labels, q, ◌>>=◌, z, p, ◌>>=◌, e)
                  (label pos size labels end q z p (subst (Labels msg (pos + 1 + size)) e rest))
          ]
    ]
  ]
]
