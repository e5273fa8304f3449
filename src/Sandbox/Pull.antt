-- ===== src/Sandbox/Pull.antt =====
-- `ensure_python_image_pulled` of backend/app/sandbox.py, of what `docker image inspect` gives.
use whs_dynamic.Base.{
  ℕ, List, [], ◌∷◌, Option, none, some, false, ◌≡◌, ◌⊎◌, inl, inr, refl, Text, eqb, ◌==◌, nat_eq,
  list_eq, if◌then◌else◌, Bool-cases,
}
use whs_dynamic.Sandbox.{default_python_version, image_of}

-- The docker commands.
pub data ImageCall : Type 0 where
  image_inspect image_pull : (image : Text) → ImageCall

-- The commands that are run; `none` is an inspection that cannot be run or does not end in time.
unfoldable pub ensure_python_image_pulled : Option ℕ → Text → List ImageCall
ensure_python_image_pulled inspect image =
    if image == image_of default_python_version then [] else elim inspect [
      | none ↦ image_inspect image ∷ []
      | some returncode ↦
          if eqb returncode 0
          then image_inspect image ∷ []
          else image_inspect image ∷ image_pull image ∷ []
    ]

-- An image is pulled only if it is not the default one and the inspection says that it is absent.
pub ensure_python_image_pulled_lem :
    (inspect : Option ℕ) (image : Text)
    → (ensure_python_image_pulled inspect image ≡ [])
      ⊎ ((ensure_python_image_pulled inspect image ≡ image_inspect image ∷ [])
          ⊎ ((ensure_python_image_pulled inspect image
                ≡ image_inspect image ∷ image_pull image ∷ [])
              × ((image == image_of default_python_version) ≡ false)
              × (returncode : ℕ) × (inspect ≡ some returncode)
              × (eqb returncode 0 ≡ false)))
unfolding ensure_python_image_pulled
ensure_python_image_pulled_lem none image =
    elim (Bool-cases (image == image_of default_python_version)) [
      | inl q ↦ inl (rw (ensure_python_image_pulled, q) refl)
      | inr q ↦ inr (inl (rw (ensure_python_image_pulled, q) refl))
    ]
ensure_python_image_pulled_lem (some n) image =
    elim (Bool-cases (image == image_of default_python_version)) [
      | inl q ↦ inl (rw (ensure_python_image_pulled, q) refl)
      | inr q ↦ elim (Bool-cases (eqb n 0)) [
        | inl p ↦ inr (inl (rw (ensure_python_image_pulled, q, p) refl))
        | inr p ↦ inr (inr (rw (ensure_python_image_pulled, q, p) refl, q, n, refl, p))
      ]
    ]
