-- ===== src/Examples/RegistryRuns.antt =====
-- backend/app/registry.py on concrete names.
use whs_dynamic.Base.{
  ℕ, ◌≤◌, List, [], ◌∷◌, Option, none, some, true, false, ◌≡◌, ◌⊎◌, refl, Text, codes, lower_code,
  any, ◌==◌, nat_eq, list_eq,
}
use whs_dynamic.Registry.{normalize, success, after_loop, better, typosquat_check, CacheFile}
use whs_dynamic.Registry.Levenshtein.{levenshtein}
use whs_dynamic.Registry.Levenshtein.Alignment.{Edits}
use whs_dynamic.Registry.Levenshtein.Minimal.{levenshtein_minimal}
use whs_dynamic.Registry.Closest.{IsNearest, typosquat_check-IsNearest}

abbrev reqests : Text
reqests = codes "reqests"

abbrev popular : List Text
popular = codes "numpy" ∷ codes "requests" ∷ []

levenshtein_run : levenshtein (codes "kitten") (codes "sitting") ≡ some 3
unfolding levenshtein
levenshtein_run = refl

typosquat_check_run :
    typosquat_check reqests (popular, none)
    ≡ some (success false (some (codes "requests")) (some 1))
unfolding typosquat_check normalize levenshtein lower_code after_loop better
typosquat_check_run = refl

levenshtein_minimal_example :
    (d : ℕ) × (levenshtein reqests (codes "requests") ≡ some d)
    × Edits reqests (codes "requests") d
    × ((n : ℕ) → Edits reqests (codes "requests") n → d ≤ n)
levenshtein_minimal_example = levenshtein_minimal reqests (codes "requests")

typosquat_check-IsNearest_example :
    (any (λ c. normalize c == normalize reqests) popular ≡ true)
      × (typosquat_check reqests (popular, none) ≡ some (success true none (some 0)))
    ⊎ (any (λ c. normalize c == normalize reqests) popular ≡ false)
      × ((r : Option (Text × ℕ)) × (typosquat_check reqests (popular, none) ≡ some (after_loop r))
          × IsNearest (normalize reqests) popular r)
typosquat_check-IsNearest_example = typosquat_check-IsNearest reqests popular

-- A decoder that takes every text for a list of one project.
abbrev one_project : Text → Option (List (Option Text))
one_project body = some (some body ∷ [])

abbrev cached : Option CacheFile
cached = some (record { mtime = 100; text = codes "numpy" })
