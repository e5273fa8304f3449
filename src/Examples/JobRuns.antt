-- ===== src/Examples/JobRuns.antt =====
-- backend/app/main.py on concrete requests.
use whs_dynamic.Base.{
  arith, ◌≤◌, ◌<◌, [], ◌∷◌, none, some, Bool, true, false, ◌≡◌, ◌⊎◌, refl, Text, codes, find, put,
  remove, contains, nat_eq, list_eq, length,
}
use whs_dynamic.Jobs.{
  Server, Request, Status, failed, report, queued_job, update_job, delete_analysis, get_analysis,
  save_report,
}
use whs_dynamic.Jobs.Steps.{waiting, staging, crashed, begin, stage, Steps, stay, go}
use whs_dynamic.Jobs.Steps.Bounds.{AllBounded, stages_bounded}
use whs_dynamic.Jobs.Steps.Runs.{deleted_run_returns}
use whs_dynamic.Jobs.Upload.{
  Reply, bad_network, bad_suffix, too_large, content, is_artifact, valid_networks, max_upload_bytes,
  Uploads, queued_upload, create_analysis_from_upload, upload_accepted,
}

abbrev id : Text
id = codes "a1"

abbrev request : Request
request = record { package_name = codes "requests"; version = none; custom_command = none }

abbrev empty : Server
empty = record { jobs = []; saved = [] }

abbrev one_job : Server
one_job = record { jobs = (id, queued_job (codes "requests") none 5) ∷ []; saved = [] }

abbrev started : Server
started = record {
  jobs =
      (
        id,
        record (queued_job (codes "requests") none 5) {
          status = Status.running;
          started_at = some (codes "t");
        },
      )
      ∷ [];
  saved = [];
}

abbrev one_stage : Server
one_stage = record {
  jobs =
      (
        id,
        record (queued_job (codes "requests") none 5) {
          status = Status.running;
          started_at = some (codes "t");
          stage = some (codes "resolve");
          completed_stages = 1;
        },
      )
      ∷ [];
  saved = [];
}

steps :
    (may_delete : Bool)
    → Steps id may_delete
        (record { server = one_job; phase = waiting })
        (record { server = one_stage; phase = staging })
unfolding update_job find put
steps may_delete =
    go (begin (codes "t") one_job started refl)
      (go (stage (codes "resolve") started one_stage refl) (stay _))

stages_bounded_example : AllBounded one_stage
stages_bounded_example = stages_bounded id true (steps true) (omega arith, tt)

started_deleted : delete_analysis id started ≡ some empty
unfolding delete_analysis find remove
started_deleted = refl

deleted_run_returns_example :
    (get_analysis id empty ≡ none)
    × Steps id true
        (record { server = started; phase = staging })
        (record { server = save_report id failed empty; phase = crashed })
    × (get_analysis id (save_report id failed empty)
        ≡ some (report (record { analysis_id = id; status = failed })))
deleted_run_returns_example =
    deleted_run_returns id (codes "install") (codes "t") started empty started_deleted

abbrev same_name : Text → Text
same_name name = name

abbrev uploads : Uploads
uploads = record { server = empty; samples = [] }

abbrev uploaded : Uploads
uploaded =
    (create_analysis_from_upload same_name id (codes "x.whl") (codes "sinkhole") ((1 ∷ 2 ∷ []) ∷ [])
      uploads).1

abbrev uploaded_reply : Reply
uploaded_reply =
    (create_analysis_from_upload same_name id (codes "x.whl") (codes "sinkhole") ((1 ∷ 2 ∷ []) ∷ [])
      uploads).0

upload_accepted_example :
    ((contains valid_networks (codes "sinkhole") ≡ true)
      × (is_artifact (codes "x.whl") ≡ true)
      × (length (content ((1 ∷ 2 ∷ []) ∷ [])) ≤ max_upload_bytes)
      × ((create_analysis_from_upload same_name id
            (codes "x.whl")
            (codes "sinkhole")
            ((1 ∷ 2 ∷ []) ∷ [])
            uploads).0
          ≡ queued_upload id)
      × (find id uploaded.samples ≡ some (some (codes "x.whl", content ((1 ∷ 2 ∷ []) ∷ []))))
      × (find id uploaded.server.jobs ≡ some (queued_job (codes "x.whl") none 5)))
    ⊎ (((contains valid_networks (codes "sinkhole") ≡ false)
          × (uploaded_reply ≡ bad_network)
          × (uploaded ≡ uploads))
        ⊎ ((contains valid_networks (codes "sinkhole") ≡ true)
            × (is_artifact (codes "x.whl") ≡ false)
            × (uploaded_reply ≡ bad_suffix)
            × (uploaded ≡ uploads))
        ⊎ ((contains valid_networks (codes "sinkhole") ≡ true)
            × (is_artifact (codes "x.whl") ≡ true)
            × (max_upload_bytes < length (content ((1 ∷ 2 ∷ []) ∷ [])))
            × (uploaded_reply ≡ too_large)
            × (uploaded.server ≡ empty)
            × (find id uploaded.samples ≡ some none)))
upload_accepted_example =
    upload_accepted same_name id (codes "x.whl") (codes "sinkhole") ((1 ∷ 2 ∷ []) ∷ []) uploads
