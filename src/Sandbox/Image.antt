-- ===== src/Sandbox/Image.antt =====
-- The python version that `select_python_image` of backend/app/sandbox.py chooses.
use whs_dynamic.Base.{
  ℕ, List, [], ◌∷◌, Option, some, Bool, true, false, ◌≡◌, ◌⊎◌, inl, inr, refl, ◌∙◌, Text, filter_by,
  All, Bool-cases,
}
use whs_dynamic.Sandbox.{
  image_of, default_python_version, supported_python_versions, max_version, choose_image,
  select_python_image,
}

module _ {Spec : Type 0} (specifier_set : Text → Option Spec) (allows : Spec → Text → Bool)
    (later : Text → Text → Bool) where
  filter_by-All : (p : Text → Bool) (xs : List Text) → All (λ x. p x ≡ true) (filter_by p xs)
  filter_by-All p [] = tt
  filter_by-All p (x ∷ xs) = elim (Bool-cases (p x)) [
    | inl e ↦ rw e (e, filter_by-All p xs)
    | inr e ↦ rw e (filter_by-All p xs)
  ]

  max_version-All :
      (P : Text → Type 0) (best : Text) (vs : List Text)
      → P best
      → All P vs
      → P (max_version specifier_set allows later best vs)
  unfolding max_version
  max_version-All P best [] p h = p
  max_version-All P best (v ∷ vs) p (q, h) = elim (Bool-cases (later v best)) [
    | inl e ↦ rw e (max_version-All P v vs q h)
    | inr e ↦ rw e (max_version-All P best vs p h)
  ]

  choose_image-allowed :
      (spec : Spec) (vs : List Text)
      → All (λ v. allows spec v ≡ true) vs
      → ((vs ≡ []) × (choose_image specifier_set allows later vs ≡ image_of default_python_version))
        ⊎ ((v : Text) × (choose_image specifier_set allows later vs ≡ image_of v)
            × (allows spec v ≡ true))
  unfolding choose_image
  choose_image-allowed spec [] h = inl (refl, refl)
  choose_image-allowed spec (v ∷ vs) (q, h) = inr (
    max_version specifier_set allows later v vs,
    refl,
    max_version-All (λ w. allows spec w ≡ true) v vs q h,
  )

  selected :
      (c : ℕ) (requires : Text) (spec : Spec)
      → specifier_set (c ∷ requires) ≡ some spec
      → allows spec default_python_version ≡ false
      → select_python_image specifier_set allows later (some (c ∷ requires))
        ≡ choose_image specifier_set allows later
            (filter_by (allows spec) supported_python_versions)
  unfolding select_python_image choose_image
  selected c requires spec e q = rw (select_python_image, e, q)

  -- For a specifier that can be read, the image is of a version that the specifier allows, and of the
  -- default version if it allows that; if it allows no supported version, it is the default image.
  pub select_python_image_allowed :
      (c : ℕ) (requires : Text) (spec : Spec)
      → specifier_set (c ∷ requires) ≡ some spec
      → let image = select_python_image specifier_set allows later (some (c ∷ requires)) in
        ((allows spec default_python_version ≡ true) × (image ≡ image_of default_python_version))
        ⊎ ((filter_by (allows spec) supported_python_versions ≡ [])
            × (image ≡ image_of default_python_version))
        ⊎ ((v : Text) × (image ≡ image_of v) × (allows spec v ≡ true))
  unfolding select_python_image
  select_python_image_allowed c requires spec e =
      let chosen =
        choose_image-allowed spec (filter_by (allows spec) supported_python_versions)
          (filter_by-All (allows spec) supported_python_versions) in
      elim (Bool-cases (allows spec default_python_version)) [
        | inl q ↦ inl (q, rw (select_python_image, e, q))
        | inr q ↦ elim chosen [
          | inl (a, b) ↦ inr (inl (a, selected c requires spec e q ∙ b))
          | inr (v, b, d) ↦ inr (inr (v, selected c requires spec e q ∙ b, d))
        ]
      ]
