-- ===== src/Registry/Cache.antt =====
-- The cached list of popular packages, `_load_top_packages` of backend/app/registry.py.
use whs_dynamic.Base.{ℕ, ◌+◌, ◌*◌, ◌<◌, ◌≡◌, List, Option, none, some, Text, true, arith}
use whs_dynamic.Registry.{CacheFile, is_fresh, refresh_cache, read_cache, load_top_packages}

-- A fresh cache is kept whatever a download would bring.
refresh_cache_fresh :
    (fetch : Option Text) (now ttl_hours : ℕ) (cache : Option CacheFile)
    → is_fresh now ttl_hours cache ≡ true
    → refresh_cache fetch now ttl_hours cache ≡ cache
unfolding refresh_cache
refresh_cache_fresh fetch now ttl_hours cache h = rw h

refresh_cache_failed :
    (now ttl_hours : ℕ) (cache : Option CacheFile) → refresh_cache none now ttl_hours cache ≡ cache
unfolding refresh_cache
refresh_cache_failed now ttl_hours cache = ground arith

module _ (decode : Text → Option (List (Option Text))) where
  -- A list that was loaded is loaded again, with the same cache, for as long as the cache that the
  -- first call left is fresh, whatever a download would bring then. A failed download changes
  -- neither the cache nor the list read from it, also when the cache is stale.
  pub load_top_packages_again :
      (fetch fetch' : Option Text) (now now' ttl_hours : ℕ) (cache : Option CacheFile)
      → is_fresh now' ttl_hours (load_top_packages decode fetch now ttl_hours cache).1 ≡ true
      → (load_top_packages decode fetch' now' ttl_hours
            (load_top_packages decode fetch now ttl_hours cache).1
          ≡ load_top_packages decode fetch now ttl_hours cache)
        × (load_top_packages decode none now ttl_hours cache ≡ (read_cache decode cache, cache))
  unfolding load_top_packages
  load_top_packages_again fetch fetch' now now' ttl_hours cache h = (
    rw (refresh_cache_fresh fetch' now' ttl_hours (refresh_cache fetch now ttl_hours cache) h),
    rw (refresh_cache_failed now ttl_hours cache),
  )

  -- A successful download into an absent cache is fresh until the time to live has passed.
  pub is_fresh-load_top_packages :
      (body : Text) (now now' ttl_hours : ℕ)
      → now' < now + ttl_hours * 3600
      → is_fresh now' ttl_hours (load_top_packages decode (some body) now ttl_hours none).1 ≡ true
  unfolding load_top_packages refresh_cache
  is_fresh-load_top_packages body now now' ttl_hours h = ground arith
