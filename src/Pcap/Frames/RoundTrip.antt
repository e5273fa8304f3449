-- ===== src/Pcap/Frames/RoundTrip.antt =====
-- A capture that is written in the pcap format is read back frame by frame.
use mathlib.Core.List.{append_assoc}
use whs_dynamic.Base.{
  ℕ, zero, suc, ◌+◌, ◌≤◌, ◌<◌, ◌≡◌, ◌⊎◌, refl, sym, ap, ◌∙◌, List, [], ◌∷◌, ◌++◌, some, Bytes,
  slice, length, length-append, slice-append, arith, pack_u32, pack_u32_le, unpack-pack_u32,
  unpack-pack_u32_le, inl, inr,
}
use whs_dynamic.Pcap.Frames.{
  Order, little, big, unpack_word, detect_order, unpack_incl_len, frames_from, iter_frames,
}

-- A writer for the format, in either byte order: `struct.pack(order + "I", n)`.
abbrev pub pack_word : Order → ℕ → Bytes
pack_word little n = pack_u32_le n
pack_word big n = pack_u32 n

-- A record: seconds, microseconds, captured length, original length, and the frame.
abbrev pub write_record : Order → ℕ × ℕ × ℕ → Bytes → Bytes
write_record order (sec, usec, orig) frame =
    (pack_word order sec
      ++ (pack_word order usec ++ (pack_word order (length frame) ++ pack_word order orig)))
    ++ frame

abbrev pub write_records : Order → List ((ℕ × ℕ × ℕ) × Bytes) → Bytes
write_records order [] = []
write_records order ((stamp, frame) ∷ rs) = write_record order stamp frame ++ write_records order rs

abbrev pub frames_of : List ((ℕ × ℕ × ℕ) × Bytes) → List Bytes
frames_of [] = []
frames_of ((stamp, frame) ∷ rs) = frame ∷ frames_of rs

-- The magic number, and the rest of the file header, which the reader skips.
abbrev pub write_capture : Order → Bytes → List ((ℕ × ℕ × ℕ) × Bytes) → Bytes
write_capture order rest rs = (pack_word order 0xA1B2C3D4 ++ rest) ++ write_records order rs

unpack-pack_word : (order : Order) (n : ℕ) → unpack_word order (pack_word order n) ≡ some n
unfolding unpack_word
unpack-pack_word little n = unpack-pack_u32_le n
unpack-pack_word big n = unpack-pack_u32 n

-- The 16 bytes in front of a frame.
abbrev pub write_header : Order → ℕ × ℕ × ℕ → ℕ → Bytes
write_header order (sec, usec, orig) n =
    pack_word order sec ++ (pack_word order usec ++ (pack_word order n ++ pack_word order orig))

length-write_header :
    (order : Order) (stamp : ℕ × ℕ × ℕ) (n : ℕ) → length (write_header order stamp n) ≡ 16
length-write_header little (sec, usec, orig) n = refl
length-write_header big (sec, usec, orig) n = refl

incl_len_of_header :
    (order : Order) (stamp : ℕ × ℕ × ℕ) (n : ℕ)
    → unpack_incl_len order (write_header order stamp n) ≡ some n
unfolding unpack_incl_len
incl_len_of_header little (sec, usec, orig) n = unpack-pack_word little n
incl_len_of_header big (sec, usec, orig) n = unpack-pack_word big n

-- What is left of a record that was cut off: less than a header, or a header and less than the frame.
abbrev pub IsCut : Order → Bytes → Type 0
IsCut order tail =
    (length tail < 16)
    ⊎ ((head : Bytes) × (body : Bytes) × (n : ℕ) × (tail ≡ head ++ body)
        × (length head ≡ 16)
        × (unpack_incl_len order head ≡ some n)
        × (length body < n))

frames_from_cut :
    (fuel : ℕ) (pre tail : Bytes) (order : Order)
    → IsCut order tail
    → frames_from fuel (pre ++ tail) order (length pre) ≡ []
unfolding frames_from
frames_from_cut zero pre tail order h = refl
frames_from_cut (suc fuel) pre tail order (inl short) = ground (arith, length-append pre tail)
frames_from_cut (suc fuel) pre tail order (inr (head, body, n, e, size, incl, short)) =
    let here : slice (pre ++ tail) (length pre) 16 ≡ head =
      rw e (slice-append pre head body (length pre) 16 refl (sym size)) in
    let sizes : length tail ≡ 16 + length body =
      rw e (omega (arith, length-append {0} head body)) in
    ground (arith, here, incl, length-append pre tail)

-- One complete record.
frames_from_record :
    (fuel : ℕ) (raw pre head frame after : Bytes) (order : Order) (offset : ℕ)
    → raw ≡ pre ++ (head ++ (frame ++ after))
    → offset ≡ length pre
    → length head ≡ 16
    → unpack_incl_len order head ≡ some (length frame)
    → frames_from (suc fuel) raw order offset
      ≡ frame ∷ frames_from fuel raw order (offset + 16 + length frame)
unfolding frames_from
frames_from_record fuel raw pre head frame after order offset e p size incl =
    let here : slice raw offset 16 ≡ head =
      rw e (slice-append pre head (frame ++ after) offset 16 p (sym size)) in
    let behind : raw ≡ (pre ++ head) ++ (frame ++ after) = e ∙ sym (append_assoc pre head _) in
    let body : slice raw (offset + 16) (length frame) ≡ frame = rw behind (
      slice-append (pre ++ head) frame after (offset + 16) (length frame)
        (omega (arith, length-append {0} pre head)) refl) in
    let sizes : length raw ≡ offset + 16 + length frame + length after = rw e (
      omega (
        arith,
        length-append {0} pre (head ++ (frame ++ after)),
        length-append {0} head (frame ++ after),
        length-append {0} frame after,
      )) in
    ground (arith, here, incl, body, sizes)

-- The loop reads the records behind `pre`, and stops at what was cut off.
frames_from-write_records :
    (rs : List ((ℕ × ℕ × ℕ) × Bytes)) (fuel : ℕ) (raw pre tail : Bytes) (order : Order) (offset : ℕ)
    → raw ≡ pre ++ (write_records order rs ++ tail)
    → offset ≡ length pre
    → length rs ≤ fuel
    → IsCut order tail
    → frames_from fuel raw order offset ≡ frames_of rs
frames_from-write_records [] fuel raw pre tail order offset e p room cut =
    rw (e, p) (frames_from_cut fuel pre tail order cut)
frames_from-write_records (r ∷ rs) zero raw pre tail order offset e p room cut =
    absurd (omega arith)
frames_from-write_records ((stamp, frame) ∷ rs) (suc fuel) raw pre tail order offset e p room cut =
    let head = write_header order stamp (length frame) in
    let after = write_records order rs ++ tail in
    let split : raw ≡ pre ++ (head ++ (frame ++ after)) = e ∙ simp append_assoc in
    let next : raw ≡ (pre ++ (head ++ frame)) ++ after = split ∙ simp append_assoc in
    frames_from_record fuel raw pre head frame after order offset split p
      (length-write_header order stamp (length frame))
      (incl_len_of_header order stamp (length frame))
    ∙ ap (λ t. frame ∷ t)
        (frames_from-write_records rs fuel raw (pre ++ (head ++ frame)) tail order
          (offset + 16 + length frame) next
          (omega (
            arith,
            length-append {0} pre (head ++ frame),
            length-append {0} head frame,
            length-write_header order stamp (length frame),
          ))
          (omega arith) cut)

length-write_records :
    (order : Order) (rs : List ((ℕ × ℕ × ℕ) × Bytes)) → length rs ≤ length (write_records order rs)
length-write_records order [] = omega arith
length-write_records order ((stamp, frame) ∷ rs) = omega (
  arith,
  length-append {0} (write_record order stamp frame) (write_records order rs),
  length-append {0} (write_header order stamp (length frame)) frame,
  length-write_header order stamp (length frame),
  length-write_records order rs,
)

-- The four classic magic numbers, written in either byte order, are recognised as that order.
detect_order-pack_word :
    (order : Order) (rest : Bytes)
    → detect_order (slice (pack_word order 0xA1B2C3D4 ++ rest) 0 4) ≡ some order
unfolding detect_order
detect_order-pack_word little rest = refl
detect_order-pack_word big rest = refl

iter_frames_of_order :
    (raw : Bytes) (order : Order)
    → 24 ≤ length raw
    → detect_order (slice raw 0 4) ≡ some order
    → iter_frames raw ≡ frames_from (length raw) raw order 24
unfolding iter_frames
iter_frames_of_order raw order size found = ground (arith, found)

length-pack_word : (order : Order) (n : ℕ) → length (pack_word order n) ≡ 4
length-pack_word little n = refl
length-pack_word big n = refl

-- A capture in either byte order, with any file header behind the magic number, is read back frame by
-- frame. If its last record was cut off, in its header or in its frame, the complete records are read.
pub iter_frames-write_capture :
    (order : Order) (rest : Bytes) (rs : List ((ℕ × ℕ × ℕ) × Bytes)) (tail : Bytes)
    → length rest ≡ 20
    → IsCut order tail
    → iter_frames (write_capture order rest rs ++ tail) ≡ frames_of rs
iter_frames-write_capture order rest rs tail size cut =
    let magic = pack_word order 0xA1B2C3D4 in
    let raw = write_capture order rest rs ++ tail in
    let split : raw ≡ (magic ++ rest) ++ (write_records order rs ++ tail) =
      append_assoc (magic ++ rest) (write_records order rs) tail in
    let front : 24 ≡ length (magic ++ rest) =
      omega (arith, length-append {0} magic rest, length-pack_word order 0xA1B2C3D4) in
    let whole : length raw ≡ 24 + (length (write_records order rs) + length tail) = rw split (
      omega (
        arith,
        length-append {0} (magic ++ rest) (write_records order rs ++ tail),
        length-append {0} (write_records order rs) tail,
      )) in
    let found : detect_order (slice raw 0 4) ≡ some order =
      rw (split ∙ append_assoc magic rest _) (detect_order-pack_word order _) in
    iter_frames_of_order raw order (omega arith) found
    ∙ frames_from-write_records rs (length raw) raw (magic ++ rest) tail order 24 split front
        (omega (arith, length-write_records order rs)) cut
