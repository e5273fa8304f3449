-- ===== src/Base/Dicts.antt =====
-- Python's dictionaries as lists of entries in the order of their insertion.
use mathlib.Core.Path.{◌≡◌, refl, subst}
use mathlib.Core.Logic.{inl, inr}
use mathlib.Core.Bool.{true, false}
use mathlib.Core.Option.{Option, none, some}
use mathlib.Core.List.{List, [], ◌∷◌}
use native.Mathlib.Omega.{arith}
use whs_dynamic.Base.Tests.{Eq, ◌==◌, nat_eq, list_eq, list_beq_iff, if◌then◌else◌, Bool-cases}
use whs_dynamic.Base.Lists.{All}
use whs_dynamic.Base.Codes.{Text}

pub beq_refl : (k : Text) → (k == k) ≡ true
beq_refl k = (list_beq_iff k k).1 refl

equal_refl : {K : Type 0} ⦃e : Eq K⦄ (k : K) → e.equal k k ≡ true
equal_refl ⦃e⦄ k = (e.equal_iff k k).1 refl

module _ {K V : Type 0} ⦃e : Eq K⦄ where
  -- `d.get(k)`
  unfoldable pub find : K → List (K × V) → Option V
  find k [] = none
  find k ((j, v) ∷ d) = if j == k then some v else find k d

  -- `d[k] = v`
  unfoldable pub put : K → V → List (K × V) → List (K × V)
  put k v [] = (k, v) ∷ []
  put k v ((j, w) ∷ d) = let rest = put k v d in if j == k then (j, v) ∷ d else (j, w) ∷ rest

  -- `d.pop(k, None)`
  unfoldable pub remove : K → List (K × V) → List (K × V)
  remove k [] = []
  remove k ((j, w) ∷ d) = let rest = remove k d in if j == k then rest else (j, w) ∷ rest

  pub find-put : (k : K) (v : V) (d : List (K × V)) → find k (put k v d) ≡ some v
  unfolding find put
  find-put k v [] = rw (equal_refl k)
  find-put k v ((j, w) ∷ d) = ground (arith, find-put k v d)

  pub find-put_other :
      (k j : K) (v : V) (d : List (K × V)) → (j == k) ≡ false → find k (put j v d) ≡ find k d
  unfolding find put
  find-put_other k j v [] ne = rw ne
  find-put_other k j v ((i, w) ∷ d) ne = elim (Bool-cases (i == j)) [
    | inl q ↦ rw ((e.equal_iff i j).0 q, equal_refl j, ne)
    | inr q ↦ ground (arith, q, find-put_other k j v d ne)
  ]

  pub find-remove : (k : K) (d : List (K × V)) → find k (remove k d) ≡ none
  unfolding find remove
  find-remove k [] = refl
  find-remove k ((j, w) ∷ d) = ground (arith, find-remove k d)

  pub find-remove_other :
      (k j : K) (d : List (K × V)) → e.equal j k ≡ false → find k (remove j d) ≡ find k d
  unfolding find remove
  find-remove_other k j [] ne = refl
  find-remove_other k j ((i, w) ∷ d) ne = elim (Bool-cases (e.equal i j)) [
    | inl q ↦ rw ((e.equal_iff i j).0 q, equal_refl j, ne) (find-remove_other k j d ne)
    | inr q ↦ ground (arith, q, find-remove_other k j d ne)
  ]

  -- A property of all entries.
  pub All-put :
      (P : V → Type 0) (k : K) (v : V) (d : List (K × V))
      → P v
      → All (λ e. P e.1) d
      → All (λ e. P e.1) (put k v d)
  unfolding put
  All-put P k v [] p h = (p, tt)
  All-put P k v ((j, w) ∷ d) p (q, h) = elim (Bool-cases (j == k)) [
    | inl same ↦ rw same (p, h)
    | inr other ↦ rw other (q, All-put P k v d p h)
  ]

  pub All-remove :
      (P : V → Type 0) (k : K) (d : List (K × V))
      → All (λ e. P e.1) d
      → All (λ e. P e.1) (remove k d)
  unfolding remove
  All-remove P k [] h = tt
  All-remove P k ((j, w) ∷ d) (q, h) = elim (Bool-cases (j == k)) [
    | inl same ↦ rw same (All-remove P k d h)
    | inr other ↦ rw other (q, All-remove P k d h)
  ]

  pub All-find :
      (P : V → Type 0) (k : K) (v : V) (d : List (K × V))
      → All (λ e. P e.1) d
      → find k d ≡ some v
      → P v
  unfolding find
  All-find P k v [] h eq = ground (arith, eq)
  All-find P k v ((j, w) ∷ d) (q, h) eq = elim (Bool-cases (j == k)) [
    | inl b ↦ subst P (ground (arith, b, eq)) q
    | inr b ↦ All-find P k v d h (ground (arith, b, eq))
  ]
