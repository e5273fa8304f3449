-- ===== src/Base/Codes.antt =====
-- Text that the program walks, as its code points.
use Prim.Native.Nat.{ℕ, ◌+◌, ◌/◌, ◌%◌}
use Prim.Native.Char.{code}
use Prim.Native.String
use Prim.Native.String.{String}
use mathlib.Core.Bool.{Bool, true, false, ◌&&◌, ◌||◌}
use mathlib.Core.List.{List, [], ◌∷◌, ◌++◌, map}
use whs_dynamic.Base.Tests.{leb, ltb, eqb, nat_eq, if◌then◌else◌}
use whs_dynamic.Base.Lists.{filter_by}

abbrev pub Text : Type 0
Text = List ℕ

-- The code points of a literal. `String` has its own `[]` and `∷`.
abbrev pub codes : String → Text
codes String.[] = []
codes (String.◌∷◌ c s) = code c ∷ codes s

-- `c.lower()` on ASCII.
unfoldable pub lower_code : ℕ → ℕ
lower_code c = if leb b'A' c && leb c b'Z' then c + 32 else c

-- `s.lower()`
abbrev pub lower : Text → Text
lower = map lower_code

-- `s.replace(chr(c), chr(d))`
unfoldable pub replace_code : ℕ → ℕ → Text → Text
replace_code c d = map (λ x. if eqb x c then d else x)

-- `s.replace(chr(c), "")`
abbrev pub remove_code : ℕ → Text → Text
remove_code c = filter_by (λ x. if eqb x c then false else true)

-- `s.startswith(p)`
unfoldable pub starts_with : Text → Text → Bool
starts_with s [] = true
starts_with [] (p ∷ ps) = false
starts_with (c ∷ s) (p ∷ ps) = eqb c p && starts_with s ps

-- `p in s`
unfoldable pub has_text : Text → Text → Bool
has_text [] p = starts_with [] p
has_text (c ∷ s) p = starts_with (c ∷ s) p || has_text s p

-- `str(n)` for n below 1000.
unfoldable pub decimal : ℕ → Text
decimal n =
    if ltb n 10
    then (b'0' + n) ∷ []
    else if ltb n 100
    then (b'0' + n / 10) ∷ (b'0' + n % 10) ∷ []
    else (b'0' + n / 100) ∷ (b'0' + (n / 10) % 10) ∷ (b'0' + n % 10) ∷ []

-- `sep.join(parts)`
unfoldable pub join : Text → List Text → Text
join sep [] = []
join sep (x ∷ []) = x
join sep (x ∷ y ∷ xs) = x ++ (sep ++ join sep (y ∷ xs))

-- `".".join(str(b) for b in bytes)`
unfoldable pub dotted : List ℕ → Text
unfolding decimal join
dotted bs = join (codes ".") (map decimal bs)

-- `b.decode("ascii", errors="replace")`
abbrev pub decode_ascii : List ℕ → Text
decode_ascii = map (λ b. if ltb b 128 then b else 0xFFFD)

-- `s + t`, of Python strings.
abbrev pub concat : String → String → String
concat = Prim.Native.String.◌++◌
