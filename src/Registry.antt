-- ===== src/Registry.antt =====
-- backend/app/registry.py: name similarity against the popular packages. The HTTP client, the JSON
-- decoder and the clock are arguments; times are whole seconds.
pub mod Levenshtein
pub mod Closest
pub mod Cache
pub mod Lookups
use whs_dynamic.Base.{
  ℕ, ◌+◌, ◌*◌, List, [], ◌∷◌, Option, none, some, Bool, true, false, ◌&&◌, Text, String, lower,
  remove_code, ltb, leb, ◌==◌, nat_eq, list_eq, ◌>>=◌, if◌then◌else◌,
}
use whs_dynamic.Registry.Levenshtein.{levenshtein}

-- `_normalize`
unfoldable pub normalize : Text → Text
normalize name = remove_code b'.' (remove_code b'_' (remove_code b'-' (lower name)))

-- The dictionary that `typosquat_check` returns.
pub data Typosquat : Type 0 where
  unavailable : (reason : String) → Typosquat
  success : (exact_match : Bool) (candidate : Option Text) (distance : Option ℕ) → Typosquat

-- `distance <= 2 and (best is None or distance < best[1])`
unfoldable pub better : Option (Text × ℕ) → ℕ → Bool
better none distance = leb distance 2
better (some (c, d)) distance = leb distance 2 && ltb distance d

unfoldable pub after_loop : Option (Text × ℕ) → Typosquat
after_loop none = success false none none
after_loop (some (c, d)) = success false (some c) (some d)

-- The loop over the popular names. `none` is an exception out of `_levenshtein`.
unfoldable pub typosquat_loop : Text → Option (Text × ℕ) → List Text → Option Typosquat
typosquat_loop norm best [] = some (after_loop best)
typosquat_loop norm best (candidate ∷ popular) =
    if normalize candidate == norm then some (success true none (some 0)) else (do
      distance ← levenshtein norm (normalize candidate)
      typosquat_loop norm (if better best distance then some (candidate, distance) else best)
          popular)

-- `typosquat_check`, from what `_load_top_packages` returned.
unfoldable pub typosquat_check : Text → List Text × Option String → Option Typosquat
unfolding typosquat_loop
typosquat_check name (popular, some reason) = some (unavailable reason)
typosquat_check name (popular, none) = typosquat_loop (normalize name) none popular

-- The cached response: when it was written, and its text.
pub record CacheFile : Type 0 where
  pub mtime : ℕ
  pub text : Text

-- `cache_path.exists() and (time.time() - mtime) < ttl_hours * 3600`
unfoldable pub is_fresh : ℕ → ℕ → Option CacheFile → Bool
is_fresh now ttl_hours none = false
is_fresh now ttl_hours (some f) = ltb now (f.mtime + ttl_hours * 3600)

-- `[row["project"] for row in rows if "project" in row]`
unfoldable pub projects : List (Option Text) → List Text
projects [] = []
projects (none ∷ rows) = projects rows
projects (some p ∷ rows) = p ∷ projects rows

-- The cache after the download, which is only tried for a stale or absent cache.
unfoldable pub refresh_cache : Option Text → ℕ → ℕ → Option CacheFile → Option CacheFile
unfolding is_fresh
refresh_cache fetch now ttl_hours cache =
    if is_fresh now ttl_hours cache
    then cache
    else elim fetch [ none ↦ cache | some body ↦ some (record { mtime = now; text = body }) ]

module _ (decode : Text → Option (List (Option Text))) where
  unfoldable pub read_cache : Option CacheFile → List Text × Option String
  unfolding projects
  read_cache none = ([], some "top-pypi-packages fetch failed and no cache is available")
  read_cache (some f) = elim (decode f.text) [
    | none ↦ ([], some "cached top-pypi-packages.json is unreadable")
    | some rows ↦ (projects rows, none)
  ]

  -- `_load_top_packages`: its result and the cache that it leaves.
  unfoldable pub load_top_packages :
      Option Text → ℕ → ℕ → Option CacheFile → (List Text × Option String) × Option CacheFile
  load_top_packages fetch now ttl_hours cache =
      let cache' = refresh_cache fetch now ttl_hours cache in (read_cache cache', cache')
