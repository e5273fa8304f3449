-- ===== src/Registry/Levenshtein/Minimal.antt =====
-- `_levenshtein` of backend/app/registry.py computes the edit distance.
use mathlib.Core.List.{reverse-reverse}
use mathlib.Core.Path.{subst₂}
use whs_dynamic.Base.{ℕ, ◌≤◌, ◌≡◌, refl, ap₂, ◌∷◌, some, Text, reverse, arith}
use whs_dynamic.Registry.Levenshtein.{levenshtein}
use whs_dynamic.Registry.Levenshtein.Alignment.{
  Edits, done, delete, insert, replace, keep, dist, dist-le, dist-Edits, Edits-reverse,
}
use whs_dynamic.Registry.Levenshtein.Rows.{levenshtein-dist}

unreverse : {a b : Text} {n : ℕ} → Edits (reverse a) (reverse b) n → Edits a b n
unreverse {a} {b} {n} e =
    subst₂ (λ x y. Edits x y n) (reverse-reverse a) (reverse-reverse b) (Edits-reverse e)

-- For all texts the function returns a number (no index error), an edit script of that length turns
-- the one text into the other, and no script is shorter.
pub levenshtein_minimal :
    (a b : Text)
    → (d : ℕ) × (levenshtein a b ≡ some d) × Edits a b d × ((n : ℕ) → Edits a b n → d ≤ n)
levenshtein_minimal a b = (
  dist (reverse a) (reverse b),
  levenshtein-dist a b,
  unreverse (dist-Edits (reverse a) (reverse b)),
  λ n e. dist-le (Edits-reverse e),
)

Edits-zero : {xs ys : Text} {n : ℕ} → Edits xs ys n → n ≡ 0 → xs ≡ ys
Edits-zero done p = refl
Edits-zero (delete x e) p = absurd (omega arith)
Edits-zero (insert y e) p = absurd (omega arith)
Edits-zero (replace x y e) p = absurd (omega arith)
Edits-zero (keep x y q e) p = ap₂ (λ u us. u ∷ us) q (Edits-zero e p)

-- Only equal texts are at distance 0.
pub levenshtein-eq_zero : (a b : Text) → levenshtein a b ≡ some 0 → a ≡ b
levenshtein-eq_zero a b h =
    let e : dist (reverse a) (reverse b) ≡ 0 = ground (arith, levenshtein-dist a b) in
    Edits-zero (unreverse (dist-Edits (reverse a) (reverse b))) e
