-- ===== src/Signals/Files.antt =====
-- `build_filesystem_signals` of backend/app/signals.py. The standard library's module names are an
-- argument.
pub mod Outside
use whs_dynamic.Base.{
  ℕ, ◌+◌, ◌*◌, ◌-◌, ◌/◌, ◌%◌, List, [], ◌∷◌, ◌++◌, Option, none, some, Bool, true, false, ◌&&◌,
  ◌||◌, not, Text, codes, String, ◌==◌, nat_eq, list_eq, string_eq, contains, any, map, length,
  drop, starts_with, reverse, has_text, filter_by, eqb, leb, ltb, distinct, sort_by, if◌then◌else◌,
}
use whs_dynamic.Event.{Value, text, Data, Event, get_key}
use whs_dynamic.Collectors.{autorun_patterns, mentions}
use whs_dynamic.Signals.{merge_realtime_writes}
use whs_dynamic.Signals.Merge.{FsEntry, FsChanges}

-- `int(mode, 8)` of digits behind an optional `0o`; `none` is a ValueError.
unfoldable pub octal : ℕ → Text → Option ℕ
octal acc [] = some acc
octal acc (c ∷ s) =
    let rest = octal (8 * acc + (c - b'0')) s in if leb b'0' c && ltb c b'8' then rest else none

unfoldable pub parse_mode : Text → Option ℕ
unfolding octal
parse_mode [] = none
parse_mode (c ∷ []) = octal 0 (c ∷ [])
parse_mode (c ∷ d ∷ s) =
    if eqb c b'0' && eqb d b'o' then (if s == [] then none else octal 0 s) else octal 0 (c ∷ d ∷ s)

-- `n & 0o111`, as a truth value.
unfoldable pub any_exec_bit : ℕ → Bool
any_exec_bit n = eqb (n % 2) 1 || eqb ((n / 8) % 2) 1 || eqb ((n / 64) % 2) 1

-- `_has_exec_bit`
unfoldable pub has_exec_bit : Option Text → Bool
unfolding parse_mode any_exec_bit
has_exec_bit none = false
has_exec_bit (some mode) = elim (parse_mode mode) [ none ↦ false | some n ↦ any_exec_bit n ]

abbrev pub infra_top_level_dirs : List Text
infra_top_level_dirs = codes "built" ∷ codes "_src" ∷ codes "_prev_release" ∷ []

abbrev pub infra_files : List Text
infra_files =
    codes "network.pcap"
    ∷ codes "sitecustomize.py"
    ∷ codes "_env-access.log"
    ∷ codes "_code-exec.log"
    ∷ []

abbrev pub artifact_suffixes : List Text
artifact_suffixes = codes ".whl" ∷ codes ".tar.gz" ∷ codes ".tgz" ∷ codes ".zip" ∷ []

abbrev pub is_slash : ℕ → Bool
is_slash c = eqb c b'/' || eqb c 92

-- `s.lstrip("/\\")`
unfoldable pub lstrip_slashes : Text → Text
lstrip_slashes [] = []
lstrip_slashes (c ∷ s) = let rest = lstrip_slashes s in if is_slash c then rest else c ∷ s

-- `s.rstrip("/\\")`
unfoldable pub rstrip_slashes : Text → Text
unfolding lstrip_slashes
rstrip_slashes s = reverse (lstrip_slashes (reverse s))

-- `rel.split("/", 1)[0].split("\\", 1)[0]`
unfoldable pub before_slash : Text → Text
before_slash [] = []
before_slash (c ∷ s) = let rest = before_slash s in if is_slash c then [] else c ∷ rest

-- `s.endswith(suffixes)`
unfoldable pub ends_with_any : List Text → Text → Bool
ends_with_any suffixes s = any (λ p. starts_with (reverse s) (reverse p)) suffixes

unfoldable pub relative_to : Text → Text → Text
unfolding lstrip_slashes
relative_to root path =
    if starts_with path root then lstrip_slashes (drop (length root) path) else path

-- `_is_own_infra`
unfoldable pub is_own_infra : Text → Text → Bool
unfolding relative_to before_slash ends_with_any
is_own_infra path root =
    let rel = relative_to root path in
    if contains infra_top_level_dirs (before_slash rel) || contains infra_files rel
    then true
    else not (any is_slash rel) && ends_with_any artifact_suffixes rel

-- `e["data"].get(key)`, of a text.
unfoldable pub text_of : Text → Data → Option Text
text_of key d = elim (get_key key d) [
  | none ↦ none
  | some v ↦ elim v [ text s ↦ some s | _ ↦ none ]
]

unfoldable pub site_prefix : Text → Text
unfolding rstrip_slashes
site_prefix root = rstrip_slashes root ++ codes "/site"

-- An entry that `outside_package_dir` reports.
unfoldable pub is_outside : Text → FsEntry → Bool
unfolding site_prefix is_own_infra
is_outside root e = not (starts_with e.path (site_prefix root) || is_own_infra e.path root)

abbrev pub paths : List FsEntry → List Text
paths = map (λ e. e.path)

-- The paths of the trace's writes.
unfoldable pub realtime_paths : List Event → List (Option Text)
realtime_paths = map (λ e. text_of (codes "path") e.payload)

unfoldable pub is_autorun : Event → Bool
unfolding text_of
is_autorun e = elim (text_of (codes "kind") e.payload) [
  | none ↦ false
  | some kind ↦ kind == codes "autorun"
]

-- The events of a type.
abbrev pub typed : String → List Event → List Event
typed t = filter_by (λ e. e.event_type == t)

unfoldable pub somes : List (Option Text) → List Text
somes [] = []
somes (none ∷ os) = somes os
somes (some s ∷ os) = s ∷ somes os

-- `exec_drop_chmod`
unfoldable pub exec_drop_chmod : List FsEntry → List Event → List FsEntry
unfolding has_exec_bit text_of somes realtime_paths
exec_drop_chmod created events =
    let chmods =
      filter_by (λ e. has_exec_bit (text_of (codes "mode") e.payload))
        (typed "file.chmod" events) in
    filter_by
      (λ f.
        has_exec_bit (text_of (codes "mode") f.details)
        && contains (somes (realtime_paths chmods)) f.path)
      created

-- A path that is read or written, in its stage.
pub record Access : Type 0 where
  pub stage : String
  pub event_type : String
  pub path : Option Text

-- `name.split(".")[0]`
unfoldable pub top_of : Text → Text
top_of [] = []
top_of (c ∷ s) = let rest = top_of s in if eqb c b'.' then [] else c ∷ rest

-- The top names of the imported modules, an empty or absent module left out.
unfoldable pub top_modules : List Event → List Text
unfolding text_of top_of
top_modules [] = []
top_modules (e ∷ events) =
    let rest = top_modules events in
    elim (text_of (codes "module") e.payload) [
      | none ↦ rest
      | some m ↦ if m == [] then rest else top_of m ∷ rest
    ]

pub record FilesystemSignals : Type 0 where
  pub created : List FsEntry
  pub modified : List FsEntry
  pub deleted : List FsEntry
  pub outside_package_dir : List Text
  pub sensitive_path_access : List Access
  pub autorun_location_write : List Text
  pub exec_drop : List FsEntry
  pub declared : List Text
  pub loaded_undeclared : List Text

module _ (stdlib : List Text) where
  -- `undeclared`
  unfoldable pub undeclared_modules : List Text → List Event → List Text
  unfolding top_modules distinct
  undeclared_modules declared_deps events =
      sort_by (λ m. m)
        (filter_by
          (λ m.
            not (m == [])
            && not (contains stdlib m)
            && not (contains declared_deps m)
            && not (m == codes "sitecustomize"))
          (distinct (top_modules (typed "code.import" events))))

  -- `build_filesystem_signals`
  unfoldable pub build_filesystem_signals :
      FsChanges → List Event → Text → List Text → FilesystemSignals
  unfolding is_outside realtime_paths is_autorun exec_drop_chmod undeclared_modules
  build_filesystem_signals fs_diff events root declared_deps =
      let written = fs_diff.created ++ fs_diff.modified in
      let realtime_writes = typed "file.write_outside_site" events in
      record {
        created = fs_diff.created;
        modified = fs_diff.modified;
        deleted = fs_diff.deleted;
        outside_package_dir =
            merge_realtime_writes (paths (filter_by (is_outside root) written))
              (realtime_paths realtime_writes);
        sensitive_path_access =
            map
              (λ e. record {
                stage = e.stage;
                event_type = e.event_type;
                path = text_of (codes "path") e.payload;
              })
              (filter_by (λ e. e.event_type == "file.read" || e.event_type == "file.write") events);
        autorun_location_write =
            merge_realtime_writes
              (paths (filter_by (λ f. mentions autorun_patterns f.path) written))
              (realtime_paths (filter_by is_autorun realtime_writes));
        exec_drop = exec_drop_chmod fs_diff.created events;
        declared = sort_by (λ m. m) declared_deps;
        loaded_undeclared = undeclared_modules declared_deps events;
      }
