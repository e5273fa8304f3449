-- ===== src/Registry/Levenshtein.antt =====
-- `_levenshtein` of backend/app/registry.py. A list index out of range is `none` (IndexError).
pub mod Alignment
pub mod Minimal
mod Rows
mod Tests
use whs_dynamic.Base.{
  ℕ, zero, suc, ◌+◌, ◌-◌, min, List, [], ◌∷◌, Option, none, some, Text, length, get_elem?, set,
  replicate, ◌==◌, nat_eq, list_eq, eqb, ◌>>=◌, if◌then◌else◌,
}

-- `(ca != cb)` as a number.
unfoldable pub mismatch : ℕ → ℕ → ℕ
mismatch x y = if eqb x y then 0 else 1

-- `list(range(n))` from `i` on.
unfoldable pub range_from : ℕ → ℕ → List ℕ
range_from i zero = []
range_from i (suc n) = i ∷ range_from (i + 1) n

-- `for j, cb in enumerate(b, j)`, the body that fills `cur[j]`. The loop starts at 1, so `j - 1` is exact.
fill_row : ℕ → List ℕ → ℕ → Text → List ℕ → Option (List ℕ)
fill_row ca prev j [] cur = some cur
fill_row ca prev j (cb ∷ bs) cur = do
  above ← get_elem? prev j
  left ← get_elem? cur (j - 1)
  diagonal ← get_elem? prev (j - 1)
  fill_row ca prev (j + 1) bs
      (set cur j (min (min (above + 1) (left + 1)) (diagonal + mismatch ca cb)))

-- `for i, ca in enumerate(a, i)`
rows : ℕ → Text → Text → List ℕ → Option (List ℕ)
rows i [] b prev = some prev
rows i (ca ∷ as') b prev = do
  cur ← fill_row ca prev 1 b (i ∷ replicate (length b) 0)
  rows (i + 1) as' b cur

unfoldable pub levenshtein : Text → Text → Option ℕ
unfolding rows fill_row mismatch range_from
levenshtein a b =
    if a == b
    then some 0
    else (do prev ← rows 1 a b (range_from 0 (length b + 1)); get_elem? prev (length prev - 1))
