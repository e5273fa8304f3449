-- ===== src/Jobs/Upload.antt =====
-- `create_analysis_from_upload` of backend/app/main.py. The chunks are those that `file.read` gives, the
-- samples are the files below `samples_dir`, and the analysis is its directory there.
use mathlib.Core.List.{append_assoc, append-nil}
use whs_dynamic.Base.{
  ℕ, ◌+◌, ◌*◌, ◌≤◌, List, [], ◌∷◌, ◌++◌, Option, none, some, Bool, true, false, ◌≡◌, not, Text,
  codes, Bytes, ltb, ◌==◌, nat_eq, list_eq, contains, length, length-append, drop, put, find,
  find-put, ◌-◌, if◌then◌else◌, any, arith, Bool-cases, inl, inr, ◌⊎◌, ◌<◌,
}
use whs_dynamic.Jobs.{Server, queued_job}

-- `name.endswith(p)`
unfoldable pub ends_with : Text → Text → Bool
ends_with s p = if ltb (length s) (length p) then false else drop (length s - length p) s == p

-- `name.endswith(_UPLOAD_SUFFIXES)`
unfoldable pub is_artifact : Text → Bool
is_artifact name =
    any (ends_with name) (codes ".whl" ∷ codes ".tar.gz" ∷ codes ".tgz" ∷ codes ".zip" ∷ [])

-- `_VALID_NETWORKS`
abbrev pub valid_networks : List Text
valid_networks = codes "disabled" ∷ codes "restricted" ∷ codes "full" ∷ codes "sinkhole" ∷ []

-- `_MAX_UPLOAD_BYTES`
abbrev pub max_upload_bytes : ℕ
max_upload_bytes = 100 * 1024 * 1024

-- The while loop: what the file holds in the end, or `none` when it got too large.
unfoldable pub receive : ℕ → Bytes → List Bytes → Option Bytes
receive size written [] = some written
receive size written ([] ∷ chunks) = some written
receive size written ((b ∷ chunk) ∷ chunks) =
    let rest = receive (size + length (b ∷ chunk)) (written ++ (b ∷ chunk)) chunks in
    if ltb max_upload_bytes (size + length (b ∷ chunk)) then none else rest

pub data Reply : Type 0 where
  bad_network bad_suffix too_large : Reply
  queued_upload : (analysis_id : Text) → Reply

pub record Uploads : Type 0 where
  pub server : Server
  pub samples : List (Text × Option (Text × Bytes))

module _ (basename : Text → Text) where
  unfoldable pub create_analysis_from_upload :
      Text → Text → Text → List Bytes → Uploads → Reply × Uploads
  unfolding is_artifact
  create_analysis_from_upload analysis_id filename network chunks u =
      if not (contains valid_networks network)
      then (bad_network, u)
      else if not (is_artifact (basename filename))
      then (bad_suffix, u)
      else elim (receive 0 [] chunks) [
        | none ↦ (too_large, record u { samples = put analysis_id none u.samples })
        | some bytes ↦ (
          queued_upload analysis_id,
          record {
            server = record {
              jobs = put analysis_id (queued_job (basename filename) none 5) u.server.jobs;
              saved = u.server.saved;
            };
            samples = put analysis_id (some (basename filename, bytes)) u.samples;
          },
        )
      ]

-- All bytes of the chunks up to the first empty one.
unfoldable pub content : List Bytes → Bytes
content [] = []
content ([] ∷ chunks) = []
content ((b ∷ chunk) ∷ chunks) = (b ∷ chunk) ++ content chunks

receive-content :
    (size : ℕ) (written : Bytes) (chunks : List Bytes)
    → size ≤ max_upload_bytes
    → ((size + length (content chunks) ≤ max_upload_bytes)
        × (receive size written chunks ≡ some (written ++ content chunks)))
      ⊎ ((max_upload_bytes < size + length (content chunks)) × (receive size written chunks ≡ none))
unfolding receive content
receive-content size written [] h = inl (omega arith, rw append-nil)
receive-content size written ([] ∷ chunks) h = inl (omega arith, rw append-nil)
receive-content size written ((b ∷ chunk) ∷ chunks) h =
    let more = length-append {0} (b ∷ chunk) (content chunks) in
    elim (Bool-cases (ltb max_upload_bytes (size + length (b ∷ chunk)))) [
      | inl q ↦ inr (ground (arith, more, q), ground (arith, q))
      | inr q ↦
          elim (receive-content (size + length (b ∷ chunk)) (written ++ (b ∷ chunk)) chunks
            (ground (arith, q))) [
              | inl (fits, e) ↦ inl (ground (arith, more, fits), rw (q, e) (simp append_assoc))
              | inr (over, e) ↦ inr (ground (arith, more, over), ground (arith, q, e))
            ]
    ]

module _ (basename : Text → Text) where
  -- An upload is accepted exactly if the network mode is known, the name ends like an artifact and the
  -- bytes sent number at most 100 MiB. Then all of them are stored under the base name and a job of five
  -- stages is queued. Otherwise the first of these conditions that fails decides the answer, the jobs are
  -- as before, and nothing is stored but the empty directory of an upload that is too large.
  pub upload_accepted :
      (aid filename network : Text) (chunks : List Bytes) (u : Uploads)
      → let p = create_analysis_from_upload basename aid filename network chunks u in
        ((contains valid_networks network ≡ true)
          × (is_artifact (basename filename) ≡ true)
          × (length (content chunks) ≤ max_upload_bytes)
          × (p.0 ≡ queued_upload aid)
          × (find aid p.1.samples ≡ some (some (basename filename, content chunks)))
          × (find aid p.1.server.jobs ≡ some (queued_job (basename filename) none 5)))
        ⊎ (((contains valid_networks network ≡ false) × (p.0 ≡ bad_network) × (p.1 ≡ u))
            ⊎ ((contains valid_networks network ≡ true)
                × (is_artifact (basename filename) ≡ false)
                × (p.0 ≡ bad_suffix)
                × (p.1 ≡ u))
            ⊎ ((contains valid_networks network ≡ true)
                × (is_artifact (basename filename) ≡ true)
                × (max_upload_bytes < length (content chunks))
                × (p.0 ≡ too_large)
                × (p.1.server ≡ u.server)
                × (find aid p.1.samples ≡ some none)))
  unfolding create_analysis_from_upload
  upload_accepted aid filename network chunks u = ground (
    arith,
    receive-content 0 [] chunks (omega arith),
    find-put aid (queued_job (basename filename) none 5) u.server.jobs,
    find-put {V = Option (Text × Bytes)} aid none u.samples,
    find-put aid (some (basename filename, content chunks)) u.samples,
  )
