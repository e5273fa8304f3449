-- ===== src/Jobs.antt =====
-- backend/app/main.py: the analyses in flight, the saved reports, and the requests on them. An id, the
-- time and pathlib's `name` are arguments. `none` is a KeyError.
pub mod Requests
pub mod Steps
pub mod Abstract
pub mod Upload
use whs_dynamic.Base.{
  ℕ, zero, suc, ◌+◌, ◌*◌, min, List, [], ◌∷◌, ◌++◌, Option, none, some, Bool, true, false, ◌||◌,
  not, Text, String, ◌==◌, string_eq, nat_eq, list_eq, find, put, remove, any, map, length, ltb,
  ◌>>=◌, if◌then◌else◌,
}

pub data Status : Type 0 where
  queued running completed failed : Status

pub record Job : Type 0 where
  pub status : Status
  pub package_name : Text
  pub version : Option Text
  pub stage : Option Text
  pub completed_stages : ℕ
  pub total_stages : ℕ
  pub started_at : Option Text
  pub finished_at : Option Text

pub record Report : Type 0 where
  pub analysis_id : Text
  pub status : Status

-- `jobs`, and the directories below `data_dir` that hold a report.
pub record Server : Type 0 where
  pub jobs : List (Text × Job)
  pub saved : List (Text × Report)

-- The parts of `AnalysisRequest` that the job keeps.
pub record Request : Type 0 where
  pub package_name : Text
  pub version : Option Text
  pub custom_command : Option (List Text)

abbrev pub queued_job : Text → Option Text → ℕ → Job
queued_job name version total_stages = record {
  status = queued;
  package_name = name;
  version = version;
  stage = none;
  completed_stages = 0;
  total_stages = total_stages;
  started_at = none;
  finished_at = none;
}

-- `1 if request.custom_command else 0`
unfoldable pub extra_stages : Option (List Text) → ℕ
extra_stages none = 0
extra_stages (some []) = 0
extra_stages (some (c ∷ cs)) = 1

-- `create_analysis`, without the submission to the executor.
unfoldable pub create_analysis : Text → Request → Server → Server
unfolding extra_stages
create_analysis analysis_id request s = record s {
  jobs =
      put analysis_id
        (queued_job request.package_name request.version (5 + extra_stages request.custom_command))
        s.jobs;
}

-- `jobs[analysis_id].update(...)`
unfoldable pub update_job : Text → (Job → Job) → Server → Option Server
update_job analysis_id f s = do
  job ← find analysis_id s.jobs
  some (record s { jobs = put analysis_id (f job) s.jobs })

-- The first line of `_run_analysis`, and of `_run_uploaded_analysis`.
abbrev pub begin_run : Text → Text → Server → Option Server
begin_run analysis_id now =
    update_job analysis_id (λ job. record job { status = running; started_at = some now })

-- Their callback `on_stage`.
abbrev pub on_stage : Text → Text → Server → Option Server
on_stage analysis_id name = update_job analysis_id (λ job. record job {
  stage = some name;
  completed_stages = min (job.completed_stages + 1) job.total_stages;
})

-- Their last line.
abbrev pub end_run : Text → Status → Text → Server → Option Server
end_run analysis_id status now =
    update_job analysis_id (λ job. record job { status = status; finished_at = some now })

-- `save_report` of storage.py, which `analyze_package` calls last.
abbrev pub save_report : Text → Status → Server → Server
save_report analysis_id status s = record s {
  saved = put analysis_id (record { analysis_id = analysis_id; status = status }) s.saved;
}

-- `load_report` of storage.py
abbrev pub load_report : Text → Server → Option Report
load_report analysis_id s = find analysis_id s.saved

pub data Found : Type 0 where
  report : Report → Found
  job : Text → Job → Found

unfoldable pub in_flight : Status → Bool
in_flight queued = true
in_flight running = true
in_flight completed = false
in_flight failed = false

-- `pending` in `list_analysis`
unfoldable pub pending : List (Text × Report) → List (Text × Job) → List Found
unfolding in_flight
pending saved [] = []
pending saved ((aid, j) ∷ jobs) =
    let rest = pending saved jobs in
    if not (any (λ r. r.1.analysis_id == aid) saved)
    then (if in_flight j.status then job aid j ∷ rest else rest)
    else rest

-- `list_analysis`
unfoldable pub list_analysis : Server → List Found
list_analysis s = map (λ r. report r.1) s.saved ++ pending s.saved s.jobs

-- `get_analysis`; `none` is the 404 response.
unfoldable pub get_analysis : Text → Server → Option Found
get_analysis analysis_id s = elim (load_report analysis_id s) [
  | none ↦ elim (find analysis_id s.jobs) [ none ↦ none | some j ↦ some (job analysis_id j) ]
  | some r ↦ some (report r)
]

-- `delete_analysis`; `none` is the 404 response.
unfoldable pub delete_analysis : Text → Server → Option Server
delete_analysis analysis_id s =
    let gone =
      some (record { jobs = remove analysis_id s.jobs; saved = remove analysis_id s.saved }) in
    elim (find analysis_id s.jobs) [
      | some j ↦ gone
      | none ↦ elim (load_report analysis_id s) [ none ↦ none | some r ↦ gone ]
    ]
