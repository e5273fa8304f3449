-- ===== src/Pipeline/Previous.antt =====
-- The previous release of `_previous_version` of backend/app/static_scan.py.
use whs_dynamic.Base.{
  ℕ, List, [], ◌∷◌, Option, none, some, Bool, true, ◌≡◌, refl, Text, All, Bool-cases, Option-cases,
  inl, inr, ◌⊎◌,
}
use whs_dynamic.Pipeline.{older_versions, greatest, newest_of, previous_version}

module _ {Version : Type 0} (parse : Text → Option Version) (less : Version → Version → Bool) where
  older_versions-All :
      (current : Version) (history : List Text)
      → All (λ w. less w current ≡ true) (older_versions parse less current history)
  unfolding older_versions
  older_versions-All current [] = tt
  older_versions-All current (v ∷ history) = elim (Option-cases (parse v)) [
    | inl q ↦ rw (older_versions, q) (older_versions-All current history)
    | inr (w, q) ↦ elim (Bool-cases (less w current)) [
      | inl r ↦ rw (older_versions, q, r) (r, older_versions-All current history)
      | inr r ↦ rw (older_versions, q, r) (older_versions-All current history)
    ]
  ]

  greatest-All :
      (P : Version → Type 0) (best : Version) (vs : List Version)
      → P best
      → All P vs
      → P (greatest parse less best vs)
  unfolding greatest
  greatest-All P best [] p h = p
  greatest-All P best (v ∷ vs) p (q, h) = elim (Bool-cases (less best v)) [
    | inl e ↦ rw e (greatest-All P v vs q h)
    | inr e ↦ rw e (greatest-All P best vs p h)
  ]

  newest_of-older :
      (current : Version) (vs : List Version)
      → All (λ w. less w current ≡ true) vs
      → (newest_of parse less vs ≡ none)
        ⊎ ((w : Version) × (newest_of parse less vs ≡ some w) × (less w current ≡ true))
  unfolding newest_of
  newest_of-older current [] h = inl refl
  newest_of-older current (v ∷ vs) (q, h) =
      inr (greatest parse less v vs, refl, greatest-All (λ w. less w current ≡ true) v vs q h)

  -- The previous release, if one is found, is a version strictly before the current one, whatever the
  -- order of the release history and whatever unreadable versions it holds.
  pub previous_version-older :
      (c : ℕ) (name : Text) (current : Version) (history : List Text)
      → parse (c ∷ name) ≡ some current
      → (previous_version parse less (some (c ∷ name)) history ≡ none)
        ⊎ ((w : Version) × (previous_version parse less (some (c ∷ name)) history ≡ some w)
            × (less w current ≡ true))
  unfolding previous_version
  previous_version-older c name current history q =
      rw (previous_version, q)
        (newest_of-older current (older_versions parse less current history)
          (older_versions-All current history))
