-- ===== src/Pcap/Answers/Names.antt =====
-- How DNS names are read: in full, or not at all behind a compression pointer.
use mathlib.Core.List.{append_assoc}
use whs_dynamic.Base.{
  ℕ, zero, suc, ◌+◌, ◌≤◌, ◌<◌, ◌≡◌, ◌≢◌, refl, ◌∙◌, List, [], ◌∷◌, ◌++◌, some, Bytes, Text, slice,
  slice-append, length, length-append, get_elem?, read_byte, eqb, codes, join, dotted, decode_ascii,
  All, arith, ◌&&◌, nat_eq, list_eq, if◌then◌else◌, inl, inr, list_beq_iff, sym, Option-cases,
}
use whs_dynamic.Pcap.Answers.{
  Answers, add_answer, get_answer, strip_dots, decode_labels, decode_dns_name, unpack_record,
  read_answers,
}

-- Labels on the wire, each behind its length, and the zero byte at the end.
abbrev pub write_labels : List Text → Bytes
write_labels [] = 0 ∷ []
write_labels (l ∷ ls) = length l ∷ l ++ write_labels ls

-- A label is not empty, not long enough to look like a pointer, and ASCII.
abbrev pub IsLabel : Text → Type 0
IsLabel l = (0 < length l) × (length l < 192) × (decode_ascii l ≡ l)

decode_labels-write_labels :
    (ls : List Text) (fuel : ℕ) (msg pre after : Bytes) (pos : ℕ)
    → msg ≡ pre ++ (write_labels ls ++ after)
    → pos ≡ length pre
    → length ls < fuel
    → All IsLabel ls
    → decode_labels fuel msg pos ≡ some (ls, pos + length (write_labels ls))
unfolding decode_labels
decode_labels-write_labels ls zero msg pre after pos e p room v = absurd (omega arith)
decode_labels-write_labels [] (suc fuel) msg pre after pos e p room v =
    rw (read_byte msg pre 0 after pos e p) refl
decode_labels-write_labels (l ∷ ls) (suc fuel) msg pre after pos e p room v =
    let size =
      read_byte msg pre (length l) (l ++ (write_labels ls ++ after)) pos (e ∙ simp append_assoc)
        p in
    let split : msg ≡ (pre ++ length l ∷ []) ++ (l ++ (write_labels ls ++ after)) =
      e ∙ simp append_assoc in
    let label : slice msg (pos + 1) (length l) ≡ l = rw split (
      slice-append (pre ++ length l ∷ []) l (write_labels ls ++ after) (pos + 1) (length l)
        (omega (arith, length-append {0} pre (length l ∷ []))) refl) in
    let rest =
      decode_labels-write_labels ls fuel msg (pre ++ (length l ∷ l)) after (pos + 1 + length l)
        (e ∙ simp append_assoc) (omega (arith, length-append {0} pre (length l ∷ l))) (omega arith)
        v.1 in
    ground (arith, size, label, rest, v.0, length-append l (write_labels ls))

length-write_labels : (ls : List Text) → length ls < length (write_labels ls)
length-write_labels [] = omega arith
length-write_labels (l ∷ ls) =
    omega (arith, length-append {0} l (write_labels ls), length-write_labels ls)

-- A name that is written in full anywhere in a message is read back with its dots, and the position
-- behind it is returned.
pub decode_dns_name-write_labels :
    (ls : List Text) (pre after : Bytes)
    → All IsLabel ls
    → decode_dns_name (pre ++ (write_labels ls ++ after)) (length pre)
      ≡ some (join (codes ".") ls, length pre + length (write_labels ls))
unfolding decode_dns_name
decode_dns_name-write_labels ls pre after v = rw (
    decode_labels-write_labels ls (suc (length (pre ++ (write_labels ls ++ after)))) _ pre after
      (length pre) refl refl
      (omega (
        arith,
        length-append {0} pre (write_labels ls ++ after),
        length-append {0} (write_labels ls) after,
        length-write_labels ls,
      ))
      v)

-- The byte that begins a compression pointer.
abbrev pub IsPointer : Bytes → ℕ → Type 0
IsPointer msg pos = (b : ℕ) × (get_elem? msg pos ≡ some b) × (192 ≤ b) × (b < 256)

pub decode_dns_name-IsPointer :
    (msg : Bytes) (pos : ℕ) → IsPointer msg pos → decode_dns_name msg pos ≡ some ([], pos + 2)
unfolding decode_dns_name decode_labels join
decode_dns_name-IsPointer msg pos (b, e, lo, hi) = ground (arith, e)

-- Each of the next `n` answer records has a compressed name.
abbrev pub AllCompressed : ℕ → Bytes → ℕ → Type 0
AllCompressed zero msg pos = Unit
AllCompressed (suc n) msg pos =
    IsPointer msg pos
    × ((rtype rdlength : ℕ)
        → unpack_record msg (pos + 2) ≡ some (rtype, rdlength)
        → AllCompressed n msg (pos + 2 + 10 + rdlength))

get_answer-add_answer_ne :
    (name key ip : Text) (answers : Answers)
    → name ≢ key
    → get_answer name (add_answer key ip answers) ≡ get_answer name answers
unfolding get_answer add_answer
get_answer-add_answer_ne name key ip [] ne =
    ground (arith, list_beq_iff key name, λ (e : key ≡ name). ne (sym e))
get_answer-add_answer_ne name key ip ((n, ips) ∷ rest) ne =
    ground
      (arith, list_beq_iff n name, list_beq_iff n key, get_answer-add_answer_ne name key ip rest ne)

-- The addresses in answer records with compressed names are filed under the empty name: whatever such
-- records say, the addresses known for any other name stay as they were.
pub get_answer-read_answers_compressed :
    (n : ℕ) (msg : Bytes) (pos : ℕ) (answers : Answers) (name : Text)
    → AllCompressed n msg pos
    → name ≢ []
    → get_answer name (read_answers n msg pos answers) ≡ get_answer name answers
unfolding read_answers strip_dots
get_answer-read_answers_compressed zero msg pos answers name c ne = refl
get_answer-read_answers_compressed (suc n) msg pos answers name (ptr, next) ne =
    let unnamed = decode_dns_name-IsPointer msg pos ptr in
    elim (Option-cases (unpack_record msg (pos + 2))) [
      | inl fails ↦ rw (unnamed, fails, read_answers)
      | inr ((rtype, rdlength), u) ↦
          let ip = dotted (slice msg (pos + 2 + 10) 4) in
          rw (unnamed, u, read_answers)
            (get_answer-read_answers_compressed n msg (pos + 2 + 10 + rdlength)
                (if eqb rtype 1 && eqb rdlength 4 then add_answer [] ip answers else answers) name
                (next rtype rdlength u) ne
              ∙ ground (arith, get_answer-add_answer_ne name [] ip answers ne))
    ]
