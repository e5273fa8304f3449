-- ===== src/Base/Octets.antt =====
-- Byte strings, and the `struct` formats that the program uses on them.
use Prim.Native.Nat.{ℕ, ◌+◌, ◌*◌, ◌/◌, ◌%◌, ◌<◌, ◌≤◌, zero, suc}
use mathlib.Core.Path.{◌≡◌, refl, ap}
use mathlib.Core.Option.{Option, none, some}
use mathlib.Core.List.{List, [], ◌∷◌, ◌++◌}
use native.Mathlib.Omega.{arith}
use whs_dynamic.Base.Lists.{
  All, take, drop, length, get_elem?, length-take, drop-append, take-append, get_elem?-append,
}

abbrev pub Bytes : Type 0
Bytes = List ℕ

abbrev pub IsBytes : Bytes → Type 0
IsBytes = All (λ b. b < 256)

-- `b[i : i + n]`
abbrev pub slice : Bytes → ℕ → ℕ → Bytes
slice b i n = take n (drop i b)

-- `struct.unpack(">H", b)[0]`, with none for struct.error.
abbrev pub unpack_u16 : Bytes → Option ℕ
unpack_u16 (a ∷ b ∷ []) = some (a * 256 + b)
unpack_u16 _ = none

-- `struct.unpack(">I", b)[0]`
abbrev pub unpack_u32 : Bytes → Option ℕ
unpack_u32 (a ∷ b ∷ c ∷ d ∷ []) = some (((a * 256 + b) * 256 + c) * 256 + d)
unpack_u32 _ = none

-- `struct.unpack("<I", b)[0]`
abbrev pub unpack_u32_le : Bytes → Option ℕ
unpack_u32_le (a ∷ b ∷ c ∷ d ∷ []) = some (((d * 256 + c) * 256 + b) * 256 + a)
unpack_u32_le _ = none

-- `struct.pack(">H", n)` for n below 2 ^ 16.
abbrev pub pack_u16 : ℕ → Bytes
pack_u16 n = n / 256 ∷ n % 256 ∷ []

abbrev pub pack_u32 : ℕ → Bytes
pack_u32 n = n / 16777216 ∷ (n / 65536) % 256 ∷ (n / 256) % 256 ∷ n % 256 ∷ []

abbrev pub pack_u32_le : ℕ → Bytes
pack_u32_le n = n % 256 ∷ (n / 256) % 256 ∷ (n / 65536) % 256 ∷ n / 16777216 ∷ []

-- What the formats write, they read back.
pub unpack-pack_u16 : (n : ℕ) → unpack_u16 (pack_u16 n) ≡ some n
unpack-pack_u16 n = ground arith

pub unpack-pack_u32 : (n : ℕ) → unpack_u32 (pack_u32 n) ≡ some n
unpack-pack_u32 n = ap some (omega arith)

pub unpack-pack_u32_le : (n : ℕ) → unpack_u32_le (pack_u32_le n) ≡ some n
unpack-pack_u32_le n = ap some (omega arith)

-- Reads inside a byte string do not fail.
pub get_elem?_of_lt : (b : Bytes) (i : ℕ) → i < length b → (x : ℕ) × (get_elem? b i ≡ some x)
get_elem?_of_lt [] i h = absurd (omega arith)
get_elem?_of_lt (x ∷ b) zero h = (x, refl)
get_elem?_of_lt (x ∷ b) (suc i) h = get_elem?_of_lt b i (omega arith)

pub unpack_u16-slice :
    (b : Bytes) (i : ℕ) → i + 2 ≤ length b → (n : ℕ) × (unpack_u16 (slice b i 2) ≡ some n)
unpack_u16-slice [] i h = absurd (omega arith)
unpack_u16-slice (x ∷ []) zero h = absurd (omega arith)
unpack_u16-slice (x ∷ y ∷ b) zero h = (x * 256 + y, refl)
unpack_u16-slice (x ∷ b) (suc i) h = unpack_u16-slice b i (omega arith)

-- The part of a concatenation that begins behind a prefix.
pub slice-append :
    (xs ys zs : Bytes) (i n : ℕ) → i ≡ length xs → n ≡ length ys → slice (xs ++ (ys ++ zs)) i n ≡ ys
slice-append xs ys zs i n p q = rw (p, q, drop-append xs, take-append ys)

pub length-slice_le : (b : Bytes) (i n : ℕ) → length (slice b i n) ≤ n
length-slice_le b i n = omega (arith, length-take {0} n (drop i b))

-- Reads at a position given by what stands before it.
pub read_byte :
    (payload pre : Bytes) (x : ℕ) (after : Bytes) (pos : ℕ)
    → payload ≡ pre ++ (x ∷ after)
    → pos ≡ length pre
    → get_elem? payload pos ≡ some x
read_byte payload pre x after pos e p = rw (e, p) (get_elem?-append pre x after)

pub read_u16 :
    (payload pre : Bytes) (n : ℕ) (after : Bytes) (pos : ℕ)
    → payload ≡ pre ++ (pack_u16 n ++ after)
    → pos ≡ length pre
    → unpack_u16 (slice payload pos 2) ≡ some n
read_u16 payload pre n after pos e p =
    rw (e, slice-append pre (pack_u16 n) after pos 2 p refl) (unpack-pack_u16 n)

drop-append_add : (xs ys : Bytes) (k : ℕ) → drop (length xs + k) (xs ++ ys) ≡ drop k ys
drop-append_add [] ys k = let e : 0 + k ≡ k = omega arith in rw e
drop-append_add (x ∷ xs) ys k =
    let e : suc (length xs) + k ≡ suc (length xs + k) = omega arith in
    rw e (drop-append_add xs ys k)

-- A part of what stands behind a prefix.
pub slice_behind :
    (b xs ys : Bytes) (k n pos : ℕ)
    → b ≡ xs ++ ys
    → pos ≡ length xs + k
    → slice b pos n ≡ slice ys k n
slice_behind b xs ys k n pos e p = rw (e, p, drop-append_add xs ys k)
