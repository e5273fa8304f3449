-- ===== src/Registry/Lookups/History.antt =====
-- The release history of a package.
use whs_dynamic.Base.{
  ℕ, ◌-◌, ◌≤◌, List, [], ◌∷◌, Option, some, true, ◌≡◌, refl, Text, length, length-drop, All,
  text_leb, text_leb_refl, IsSorted, sort_by-IsSorted, arith,
}
use whs_dynamic.Registry.Lookups.{
  Release, Response, RegistryMeta, or_text, upload_key, released, history_of, first_published_of,
  last_of, fetch_registry_meta,
}

-- The first of a sorted list is not behind any of it.
abbrev pub IsEarliest : List Release → Option Text → Type 0
IsEarliest history first =
    All (λ (e : Release). text_leb (or_text first) (upload_key e) ≡ true) history

first-IsEarliest :
    (history : List Release)
    → IsSorted upload_key history
    → IsEarliest history (first_published_of history)
unfolding first_published_of
first-IsEarliest [] h = tt
first-IsEarliest (e ∷ history) (above, h) = (text_leb_refl (upload_key e), above)

-- Where the registry answers, the history that is kept has at most 20 releases, their number is that of
-- all releases with a file, and the first publication is not behind the upload of any of them.
pub fetch_registry_meta_lem :
    (days_since : Text → Option ℕ) (version : Option Text) (r : Response)
    → (m : RegistryMeta) × (fetch_registry_meta days_since version (some r) ≡ some m)
      × (length m.release_history ≤ 20)
      × (m.release_count ≡ length (history_of r.releases))
      × IsEarliest (history_of r.releases) m.first_published
unfolding fetch_registry_meta history_of last_of
fetch_registry_meta_lem days_since version r =
    let history = history_of r.releases in
    (
      _,
      refl,
      omega (arith, length-drop (length history - 20) history),
      refl,
      first-IsEarliest history (sort_by-IsSorted upload_key (released r.releases)),
    )
