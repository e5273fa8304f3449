-- ===== src/Jobs/Steps/Bounds.antt =====
-- The progress of every job.
use mathlib.Core.Path.{subst}
use whs_dynamic.Base.{
  nat_eq, list_eq, ◌≤◌, some, Bool, ◌≡◌, Text, All, All-put, All-remove, All-find, arith,
}
use whs_dynamic.Jobs.{Job, Server, create_analysis, update_job, delete_analysis}
use whs_dynamic.Jobs.Requests.{update_job_inv, delete_analysis_inv}
use whs_dynamic.Jobs.Steps.{
  System, Step, create, delete, other_begin, other_stage, other_save, other_end, begin, begin_error,
  stage, stage_error, analyzed, save, save_error, end, end_error, Steps, stay, go, go_deleting,
}

abbrev pub IsBounded : Job → Type 0
IsBounded job = job.completed_stages ≤ job.total_stages

abbrev pub AllBounded : Server → Type 0
AllBounded s = All (λ e. IsBounded e.1) s.jobs

update_job-AllBounded :
    (id : Text) (f : Job → Job) (s t : Server)
    → ((j : Job) → IsBounded j → IsBounded (f j))
    → AllBounded s
    → update_job id f s ≡ some t
    → AllBounded t
update_job-AllBounded id f s t keeps h e =
    let (j, q, same) = update_job_inv id f s t e in
    subst AllBounded same
      (All-put IsBounded id (f j) s.jobs (keeps j (All-find IsBounded id j s.jobs h q)) h)

delete_analysis-AllBounded :
    (id : Text) (s t : Server) → AllBounded s → delete_analysis id s ≡ some t → AllBounded t
delete_analysis-AllBounded id s t h e =
    subst AllBounded (delete_analysis_inv id s t e) (All-remove IsBounded id s.jobs h)

Step-AllBounded :
    (aid : Text)
    → {b : Bool} → {s t : System} → Step aid b s t
    → AllBounded s.server
    → AllBounded t.server
unfolding create_analysis
Step-AllBounded aid (create id request s _) h = All-put IsBounded id _ s.server.jobs (omega arith) h
Step-AllBounded aid (delete id s t e) h = delete_analysis-AllBounded id s.server t h e
Step-AllBounded aid (other_begin id now s t _ e) h =
    update_job-AllBounded id _ s.server t (λ j k. k) h e
Step-AllBounded aid (other_stage id name s t _ e) h =
    update_job-AllBounded id _ s.server t (λ j k. ground arith) h e
Step-AllBounded aid (other_save id status s _) h = h
Step-AllBounded aid (other_end id now status s t _ e) h =
    update_job-AllBounded id _ s.server t (λ j k. k) h e
Step-AllBounded aid (begin now s t e) h = update_job-AllBounded aid _ s t (λ j k. k) h e
Step-AllBounded aid (begin_error now s e) h = h
Step-AllBounded aid (stage name s t e) h = update_job-AllBounded aid _ s t (λ j k. ground arith) h e
Step-AllBounded aid (stage_error name s e) h = h
Step-AllBounded aid (analyzed status s) h = h
Step-AllBounded aid (save status s) h = h
Step-AllBounded aid (save_error status s) h = h
Step-AllBounded aid (end now status s t e) h = update_job-AllBounded aid _ s t (λ j k. k) h e
Step-AllBounded aid (end_error now status s e) h = h

-- However the requests and the workers follow each other, no job ever counts more completed stages than
-- it has stages.
pub stages_bounded :
    (aid : Text) (may_delete : Bool)
    → {s t : System} → Steps aid may_delete s t
    → AllBounded s.server
    → AllBounded t.server
stages_bounded aid may_delete (stay s) h = h
stages_bounded aid may_delete (go step steps) h =
    stages_bounded aid may_delete steps (Step-AllBounded aid step h)
stages_bounded aid may_delete (go_deleting _ step steps) h =
    stages_bounded aid may_delete steps (Step-AllBounded aid step h)
