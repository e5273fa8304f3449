-- ===== src/Signals/Files/Outside.antt =====
-- Which writes are reported as outside the package, and dropped programs that never are.
use whs_dynamic.Base.{
  List, [], ◌∷◌, ◌++◌, Option, none, some, Bool, true, false, ◌&&◌, ◌||◌, not, ◌≡◌, ◌∙◌, ap, refl,
  inl, inr, Text, codes, ◌==◌, nat_eq, list_eq, string_eq, list_beq_iff, beq_refl, contains, any,
  All, filter_by, starts_with, Bool-cases, arith,
}
use whs_dynamic.Event.{Event}
use whs_dynamic.Signals.{extra_writes, merge_realtime_writes}
use whs_dynamic.Signals.Merge.{FsEntry, FsChanges}
use whs_dynamic.Signals.Files.{
  build_filesystem_signals, is_outside, site_prefix, rstrip_slashes, is_own_infra, paths,
  realtime_paths, somes, typed, exec_drop_chmod, has_exec_bit, text_of,
}

-- `path` is a traced path and is not empty.
abbrev pub is_traced : Text → List (Option Text) → Bool
is_traced path realtime = not (path == []) && contains (somes realtime) path

contains-extra_writes :
    (diff : List Text) (realtime : List (Option Text)) (path : Text)
    → (contains diff path || contains (extra_writes diff realtime) path)
      ≡ (contains diff path || is_traced path realtime)
unfolding extra_writes somes
contains-extra_writes diff [] path = ground arith
contains-extra_writes diff (none ∷ realtime) path = contains-extra_writes diff realtime path
contains-extra_writes diff (some p ∷ realtime) path = elim (Bool-cases (path == p)) [
  | inl q ↦
      let same = (list_beq_iff path p).0 q in
      rw (← same) (ground (arith, beq_refl path, contains-extra_writes diff realtime path))
  | inr q ↦ ground (arith, q, contains-extra_writes diff realtime path)
]

contains-append :
    (xs ys : List Text) (path : Text)
    → contains (xs ++ ys) path ≡ (contains xs path || contains ys path)
contains-append [] ys path = refl
contains-append (x ∷ xs) ys path = ground (arith, contains-append xs ys path)

contains-paths :
    (p : FsEntry → Bool) (path : Text) (fs : List FsEntry)
    → contains (paths (filter_by p fs)) path ≡ any (λ f. p f && path == f.path) fs
contains-paths p path [] = refl
contains-paths p path (f ∷ fs) = ground (arith, contains-paths p path fs)

any-is_outside :
    (root path : Text) (fs : List FsEntry)
    → any (λ f. is_outside root f && path == f.path) fs
      ≡ any
          (λ f.
            not (starts_with f.path (rstrip_slashes root ++ codes "/site"))
            && not (is_own_infra f.path root)
            && path == f.path)
          fs
unfolding is_outside site_prefix
any-is_outside root path [] = refl
any-is_outside root path (f ∷ fs) = ground (arith, any-is_outside root path fs)

-- A path is reported as written outside the package exactly if it is the path of a created or modified
-- file that is neither under the site prefix nor one of the analysis's own files, or the path, not
-- empty, of a write outside the site that was traced.
pub outside_package_dir_lem :
    (stdlib : List Text) (fs_diff : FsChanges) (events : List Event) (root : Text)
    (declared : List Text) (path : Text)
    → contains
        (build_filesystem_signals stdlib fs_diff events root declared).outside_package_dir
        path
      ≡ (any
            (λ f.
              not (starts_with f.path (rstrip_slashes root ++ codes "/site"))
              && not (is_own_infra f.path root)
              && path == f.path)
            (fs_diff.created ++ fs_diff.modified)
          || is_traced path (realtime_paths (typed "file.write_outside_site" events)))
unfolding build_filesystem_signals merge_realtime_writes
outside_package_dir_lem stdlib fs_diff events root declared path =
    let written = fs_diff.created ++ fs_diff.modified in
    let diff = paths (filter_by (is_outside root) written) in
    let traced = realtime_paths (typed "file.write_outside_site" events) in
    contains-append diff (extra_writes diff traced) path
    ∙ contains-extra_writes diff traced path
    ∙ ap (λ b. b || is_traced path traced)
        (contains-paths (is_outside root) path written ∙ any-is_outside root path written)

-- Two paths with different starts.
different_starts :
    (path other : Text)
    → starts_with path (codes "/tmp/") ≡ true
    → starts_with other (codes "/workspace") ≡ true
    → (path == other) ≡ false
unfolding starts_with
different_starts [] other h k = ground (arith, h)
different_starts (c ∷ []) other h k = ground (arith, h)
different_starts (c ∷ d ∷ path) [] h k = refl
different_starts (c ∷ d ∷ path) (e ∷ []) h k = ground (arith, k)
different_starts (c ∷ d ∷ path) (e ∷ f ∷ other) h k = ground (arith, h, k)

not_among :
    (path : Text) (others : List Text)
    → starts_with path (codes "/tmp/") ≡ true
    → All (λ other. starts_with other (codes "/workspace") ≡ true) others
    → contains others path ≡ false
not_among path [] h k = refl
not_among path (other ∷ others) h (k, ks) =
    ground (arith, different_starts path other h k, not_among path others h ks)

none_dropped :
    (p : FsEntry → Bool) (chmods : List Text) (created : List FsEntry)
    → All (λ f. starts_with f.path (codes "/tmp/") ≡ true) created
    → All (λ other. starts_with other (codes "/workspace") ≡ true) chmods
    → filter_by (λ f. p f && contains chmods f.path) created ≡ []
none_dropped p chmods [] h k = refl
none_dropped p chmods (f ∷ created) (h, hs) k =
    ground (arith, not_among f.path chmods h k, none_dropped p chmods created hs k)

-- The paths of the permission changes that made a file executable.
abbrev pub chmod_paths : List Event → List Text
chmod_paths events = somes (
    realtime_paths (
      filter_by (λ e. has_exec_bit (text_of (codes "mode") e.payload)) (typed "file.chmod" events)))

-- The created files have paths on the host, under a temporary directory, and the traced permission
-- changes have paths in the container, under `/workspace`. Where they do, no dropped program is ever
-- reported, whatever was created and made executable.
pub exec_drop_chmod_never :
    (created : List FsEntry) (events : List Event)
    → All (λ f. starts_with f.path (codes "/tmp/") ≡ true) created
    → All (λ path. starts_with path (codes "/workspace") ≡ true) (chmod_paths events)
    → exec_drop_chmod created events ≡ []
unfolding exec_drop_chmod
exec_drop_chmod_never created events h k =
    none_dropped (λ f. has_exec_bit (text_of (codes "mode") f.details)) (chmod_paths events) created
      h k
