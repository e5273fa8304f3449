-- ===== src/Base/Tally.antt =====
-- Dictionaries that count: `counts[k] = counts.get(k, 0) + 1`, and what they hold.
use Prim.Native.Nat.{ℕ, ◌+◌, ◌<◌}
use mathlib.Core.Path.{◌≡◌, refl, ◌∙◌, sym}
use mathlib.Core.Logic.{◌⊎◌, inl, inr}
use mathlib.Core.Bool.{Bool, false, ◌&&◌}
use mathlib.Core.Option.{none, some}
use mathlib.Core.List.{List, [], ◌∷◌}
use native.Mathlib.Omega.{arith}
use whs_dynamic.Base.Tests.{Eq, if◌then◌else◌, Bool-cases, Option-cases}
use whs_dynamic.Base.Lists.{any}
use whs_dynamic.Base.Dicts.{find, put, find-put, find-put_other}

module _ {K : Type 0} ⦃e : Eq K⦄ where
  -- No key stands twice.
  abbrev pub IsDict : {V : Type 0} → List (K × V) → Type 0
  IsDict [] = Unit
  IsDict ((k, v) ∷ d) = (find k d ≡ none) × IsDict d

  other_way : (j k : K) → e.equal j k ≡ false → e.equal k j ≡ false
  other_way j k q = elim (Bool-cases (e.equal k j)) [
    | inl r ↦ absurd (ground (arith, (e.equal_iff j k).1 (sym ((e.equal_iff k j).0 r)), q))
    | inr r ↦ r
  ]

  pub put-IsDict : {V : Type 0} (k : K) (v : V) (d : List (K × V)) → IsDict d → IsDict (put k v d)
  unfolding put find
  put-IsDict k v [] h = (refl, tt)
  put-IsDict k v ((j, w) ∷ d) (h, hs) = elim (Bool-cases (e.equal j k)) [
    | inl q ↦ rw q (h, hs)
    | inr q ↦ rw q (find-put_other j k v d (other_way j k q) ∙ h, put-IsDict k v d hs)
  ]

  -- `counts[k] = counts.get(k, 0) + 1`
  unfoldable pub increment : K → List (K × ℕ) → List (K × ℕ)
  increment k d = elim (find k d) [ none ↦ put k 1 d | some n ↦ put k (n + 1) d ]

  unfoldable pub tally : List K → List (K × ℕ) → List (K × ℕ)
  unfolding increment
  tally [] d = d
  tally (k ∷ ks) d = tally ks (increment k d)

  abbrev pub occurrences : K → List K → ℕ
  occurrences k [] = 0
  occurrences k (j ∷ ks) = let rest = occurrences k ks in if e.equal j k then rest + 1 else rest

  abbrev pub count_of : K → List (K × ℕ) → ℕ
  count_of k d = elim (find k d) [ none ↦ 0 | some n ↦ n ]

  increment_self : (k : K) (d : List (K × ℕ)) → find k (increment k d) ≡ some (count_of k d + 1)
  unfolding increment
  increment_self k d = elim (Option-cases (find k d)) [
    | inl q ↦ ground (arith, q, find-put k 1 d)
    | inr (n, q) ↦ ground (arith, q, find-put k (n + 1) d)
  ]

  increment_other :
      (k j : K) (d : List (K × ℕ)) → e.equal j k ≡ false → find k (increment j d) ≡ find k d
  unfolding increment
  increment_other k j d ne = elim (Option-cases (find j d)) [
    | inl q ↦ rw (increment, q) (find-put_other k j 1 d ne)
    | inr (n, q) ↦ rw (increment, q) (find-put_other k j (n + 1) d ne)
  ]

  increment-IsDict : (k : K) (d : List (K × ℕ)) → IsDict d → IsDict (increment k d)
  unfolding increment
  increment-IsDict k d h = elim (Option-cases (find k d)) [
    | inl q ↦ rw (increment, q) (put-IsDict k 1 d h)
    | inr (n, q) ↦ rw (increment, q) (put-IsDict k (n + 1) d h)
  ]

  pub tally-IsDict : (ks : List K) (d : List (K × ℕ)) → IsDict d → IsDict (tally ks d)
  unfolding tally
  tally-IsDict [] d h = h
  tally-IsDict (k ∷ ks) d h = tally-IsDict ks (increment k d) (increment-IsDict k d h)

  -- A key's count is the number of its occurrences.
  pub count_of-tally :
      (k : K) (ks : List K) (d : List (K × ℕ))
      → count_of k (tally ks d) ≡ count_of k d + occurrences k ks
  unfolding tally
  count_of-tally k [] d = omega arith
  count_of-tally k (j ∷ ks) d = elim (Bool-cases (e.equal j k)) [
    | inl q ↦
        let same : j ≡ k = (e.equal_iff j k).0 q in
        ground (arith, count_of-tally k ks (increment j d), increment_self k d, same, q)
    | inr q ↦ ground (arith, count_of-tally k ks (increment j d), increment_other k j d q, q)
  ]

  pub count_of-tally_fresh : (k : K) (ks : List K) → count_of k (tally ks []) ≡ occurrences k ks
  unfolding find
  count_of-tally_fresh k ks = omega (arith, count_of-tally k ks [])

  find-tally_other :
      (k : K) (ks : List K) (d : List (K × ℕ))
      → occurrences k ks ≡ 0
      → find k (tally ks d) ≡ find k d
  unfolding tally
  find-tally_other k [] d h = refl
  find-tally_other k (j ∷ ks) d h = elim (Bool-cases (e.equal j k)) [
    | inl q ↦ absurd (ground (arith, h, q))
    | inr q ↦ find-tally_other k ks (increment j d) (ground (arith, h, q)) ∙ increment_other k j d q
  ]

  -- A key is in a fresh table exactly if it occurs, with the number of its occurrences.
  pub find-tally :
      (k : K) (ks : List K)
      → ((find k (tally ks []) ≡ none) × (occurrences k ks ≡ 0))
        ⊎ ((find k (tally ks []) ≡ some (occurrences k ks)) × (0 < occurrences k ks))
  unfolding find
  find-tally k ks = elim (Option-cases (find k (tally ks []))) [
    | inl q ↦ inl (q, ground (arith, count_of-tally k ks [], q))
    | inr (n, q) ↦ inr (ground (arith, count_of-tally k ks [], q, find-tally_other k ks []))
  ]

  -- A key that is in both tables has the value of the second, `{**d, **d'}`.
  unfoldable pub merge_into : {V : Type 0} → List (K × V) → List (K × V) → List (K × V)
  merge_into d [] = d
  merge_into d ((k, v) ∷ d') = merge_into (put k v d) d'

  pub merge_into-IsDict : {V : Type 0} (d d' : List (K × V)) → IsDict d → IsDict (merge_into d d')
  unfolding merge_into
  merge_into-IsDict d [] h = h
  merge_into-IsDict d ((k, v) ∷ d') h = merge_into-IsDict (put k v d) d' (put-IsDict k v d h)

  pub find-merge_into :
      {V : Type 0} (j : K) (d d' : List (K × V))
      → IsDict d'
      → find j (merge_into d d') ≡ elim (find j d') [ none ↦ find j d | some v ↦ some v ]
  unfolding merge_into find
  find-merge_into j d [] h = refl
  find-merge_into j d ((k, v) ∷ d') (h, hs) = elim (Bool-cases (e.equal k j)) [
    | inl q ↦
        let same : k ≡ j = (e.equal_iff k j).0 q in
        let fresh : find j d' ≡ none = ground (arith, h, same) in
        ground (arith, q, same, fresh, find-merge_into j (put k v d) d' hs, find-put k v d)
    | inr q ↦ ground (arith, q, find-merge_into j (put k v d) d' hs, find-put_other j k v d q)
  ]

  -- Whether an entry of a table is one for a key and passes a test.
  pub any-entry :
      {V : Type 0} (q : V → Bool) (k : K) (d : List (K × V))
      → IsDict d
      → any (λ x. e.equal x.0 k && q x.1) d ≡ elim (find k d) [ none ↦ false | some v ↦ q v ]
  unfolding find
  any-entry q k [] h = refl
  any-entry q k ((j, v) ∷ d) (h, hs) = elim (Bool-cases (e.equal j k)) [
    | inl r ↦
        let same : j ≡ k = (e.equal_iff j k).0 r in
        let fresh : find k d ≡ none = ground (arith, h, same) in
        ground (arith, r, fresh, any-entry q k d hs)
    | inr r ↦ ground (arith, r, any-entry q k d hs)
  ]
