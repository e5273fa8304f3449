-- ===== src/Pipeline/Artifacts.antt =====
-- The artifacts of backend/app/package.py: `select_artifact`, `guess_package_name`, `own_console_scripts`,
-- `ensure_build_backends_cached` and `prefetch_declared_dependencies`. A digit is an ASCII one; a path
-- stands as its name.
pub mod Chosen
use whs_dynamic.Base.{
  ℕ, List, [], ◌∷◌, ◌++◌, Option, none, some, Bool, true, false, ◌&&◌, ◌||◌, Text, codes, take,
  drop, length, ◌-◌, lower, replace_code, starts_with, reverse, leb, ltb, eqb, filter_by, ◌==◌,
  nat_eq, list_eq, if◌then◌else◌,
}

-- `s.lower().replace("-", "_").replace(".", "_")`
unfoldable pub norm : Text → Text
norm s = replace_code b'.' b'_' (replace_code b'-' b'_' (lower s))

abbrev pub is_digit : ℕ → Bool
is_digit c = leb b'0' c && leb c b'9'

-- `_\d` at the start.
unfoldable pub starts_version : Text → Bool
starts_version (c ∷ d ∷ s) = eqb c b'_' && is_digit d
starts_version _ = false

-- `re.match(re.escape(norm(package)) + r"_\d", norm(p.name))`
unfoldable pub is_candidate : Text → Text → Bool
unfolding norm starts_version
is_candidate package_name file =
    starts_with (norm file) (norm package_name)
    && starts_version (drop (length (norm package_name)) (norm file))

-- `s.endswith(p)`
unfoldable pub ends_in : Text → Text → Bool
ends_in s p = starts_with (reverse s) (reverse p)

-- `path.suffix == p`, of a suffix with one dot: a name that is only a suffix has none.
unfoldable pub has_suffix : Text → Text → Bool
unfolding ends_in
has_suffix file p = ends_in file p && ltb (length p) (length file)

-- The test of the artifact's kind.
unfoldable pub is_kind : Text → Text → Bool
unfolding has_suffix
is_kind artifact file =
    artifact == codes "auto"
    || artifact == codes "wheel" && has_suffix file (codes ".whl")
    || artifact == codes "sdist"
      && (has_suffix file (codes ".gz") || has_suffix file (codes ".zip"))

-- `next((p for p in files if test(p)), default)`
unfoldable pub next_or : (Text → Bool) → List Text → Option Text → Option Text
next_or test [] default = default
next_or test (p ∷ files) default =
    let rest = next_or test files default in if test p then some p else rest

-- `candidates[0] if candidates else None`
unfoldable pub first_file : List Text → Option Text
first_file [] = none
first_file (p ∷ files) = some p

-- `select_artifact`
unfoldable pub select_artifact : List Text → Text → Text → Option Text
unfolding is_candidate is_kind next_or first_file
select_artifact files package_name artifact =
    let candidates = filter_by (is_candidate package_name) files in
    next_or (is_kind artifact) candidates (first_file candidates)

-- The loop that takes off the first suffix that the name has.
unfoldable pub strip_suffix : List Text → Text → Text
unfolding ends_in
strip_suffix [] stem = stem
strip_suffix (p ∷ suffixes) stem =
    let rest = strip_suffix suffixes stem in
    if ends_in stem p then take (length stem - length p) stem else rest

abbrev pub upload_suffixes : List Text
upload_suffixes = codes ".tar.gz" ∷ codes ".tgz" ∷ codes ".whl" ∷ codes ".zip" ∷ []

abbrev pub starts_dash_digit : Text → Bool
starts_dash_digit (c ∷ d ∷ s) = eqb c b'-' && is_digit d
starts_dash_digit _ = false

-- `re.split(r"-\d", stem, maxsplit=1)[0]`
unfoldable pub before_version : Text → Text
before_version [] = []
before_version (c ∷ s) =
    let rest = before_version s in if starts_dash_digit (c ∷ s) then [] else c ∷ rest

-- `a or b`
unfoldable pub or_stem : Text → Text → Text
or_stem [] stem = stem
or_stem (c ∷ s) stem = c ∷ s

-- `guess_package_name`
unfoldable pub guess_package_name : Text → Text
unfolding strip_suffix before_version or_stem
guess_package_name filename =
    let stem = strip_suffix upload_suffixes filename in or_stem (before_version stem) stem

-- `own_console_scripts`, of the names of the dist-info directories and what the parser finds in the entry
-- points of one; `none` is no such file, no such section or a file that cannot be parsed.
unfoldable pub own_console_scripts : (Text → Option (List Text)) → List Text → Text → List Text
unfolding norm next_or
own_console_scripts scripts_of dist_infos package_name =
    elim (next_or (λ p. starts_with (norm p) (norm package_name ++ codes "_")) dist_infos none) [
      | none ↦ []
      | some dist_info ↦ elim (scripts_of dist_info) [ none ↦ [] | some scripts ↦ scripts ]
    ]

-- `ensure_build_backends_cached`, of the files in the cache and of those that the download leaves in it.
unfoldable pub ensure_build_backends_cached : List Text → List Text → List Text
ensure_build_backends_cached [] downloaded = downloaded
ensure_build_backends_cached (p ∷ cached) downloaded = p ∷ cached

-- The requirements for which `prefetch_declared_dependencies` runs pip.
unfoldable pub prefetched : List Text → List Text
prefetched requirements = take 20 requirements
