-- ===== src/Jobs/Requests.antt =====
-- What the requests of backend/app/main.py leave, and what they then answer.
use whs_dynamic.Base.{
  ◌+◌, none, some, ◌≡◌, ◌↔◌, Text, nat_eq, list_eq, find, put, remove, find-put, find-remove, arith,
  Option-cases, inl, inr,
}
use whs_dynamic.Jobs.{
  Job, Server, Request, report, job, Status, queued_job, extra_stages, create_analysis, update_job,
  save_report, get_analysis, delete_analysis,
}

pub update_job_inv :
    (id : Text) (f : Job → Job) (s t : Server)
    → update_job id f s ≡ some t
    → (j : Job) × (find id s.jobs ≡ some j) × (record s { jobs = put id (f j) s.jobs } ≡ t)
unfolding update_job
update_job_inv id f s t e = elim (Option-cases (find id s.jobs)) [
  | inl q ↦ ground (arith, q, e)
  | inr (j, q) ↦ (j, q, ground (arith, q, e))
]

pub delete_analysis_inv :
    (id : Text) (s t : Server)
    → delete_analysis id s ≡ some t
    → record { jobs = remove id s.jobs; saved = remove id s.saved } ≡ t
unfolding delete_analysis
delete_analysis_inv id s t e = ground (arith, e)

-- The server after a deletion.
abbrev pub deleted : Text → Server → Server
deleted id s = record { jobs = remove id s.jobs; saved = remove id s.saved }

-- Exactly the analyses that are found can be deleted; one that was deleted is not found and cannot be
-- deleted again. Created anew it is found as a queued job of 5 stages, and of 6 with a command.
-- A report that is saved is found, also after the deletion.
pub requests_consistent :
    (id : Text) (request : Request) (status : Status) (s : Server)
    → (delete_analysis id s ≡ none ↔ get_analysis id s ≡ none)
      × (get_analysis id (deleted id s) ≡ none)
      × (delete_analysis id (deleted id s) ≡ none)
      × (get_analysis id (create_analysis id request (deleted id s))
          ≡ some (
              job id (
                queued_job request.package_name request.version
                  (5 + extra_stages request.custom_command))))
      × (get_analysis id (save_report id status (deleted id s))
          ≡ some (report (record { analysis_id = id; status = status })))
unfolding get_analysis delete_analysis create_analysis
requests_consistent id request status s = ground (
  arith,
  find-put id
      (queued_job request.package_name request.version (5 + extra_stages request.custom_command))
      (remove id s.jobs),
  find-remove id s.jobs,
  find-remove id s.saved,
  find-put id (record { analysis_id = id; status = status }) (remove id s.saved),
)
