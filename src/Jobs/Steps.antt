-- ===== src/Jobs/Steps.antt =====
-- The worker of one analysis of backend/app/main.py between the requests and the other workers. An
-- exception out of `on_stage` is caught in `analyze_package` of package.py, whose handler reports a
-- failed analysis and goes on to `save_report`; one out of the first or the last line ends the worker. An
-- exception of `write_log_bundle` or `save_report` themselves is not caught and ends it, too.
pub mod Bounds
pub mod Runs
use whs_dynamic.Base.{
  ℕ, List, Option, none, some, Bool, true, false, ◌≡◌, Text, ◌==◌, nat_eq, list_eq,
}
use whs_dynamic.Jobs.{
  Status, failed, Server, Request, create_analysis, begin_run, on_stage, end_run, save_report,
  delete_analysis,
}

pub data Phase : Type 0 where
  waiting staging ended crashed unsaved : Phase
  saving ending : Status → Phase

pub record System : Type 0 where
  pub server : Server
  pub phase : Phase

-- The steps, of which only a deletion of the analysis itself has the index `true`.
pub data Step (aid : Text) : Bool → System → System → Type 0 where
  create :
      (id : Text) (request : Request) (s : System)
      → (id == aid) ≡ false
      → Step aid false s (record s { server = create_analysis id request s.server })
  delete :
      (id : Text) (s : System) (t : Server)
      → delete_analysis id s.server ≡ some t
      → Step aid (id == aid) s (record s { server = t })
  other_begin :
      (id now : Text) (s : System) (t : Server)
      → (id == aid) ≡ false
      → begin_run id now s.server ≡ some t
      → Step aid false s (record s { server = t })
  other_stage :
      (id name : Text) (s : System) (t : Server)
      → (id == aid) ≡ false
      → on_stage id name s.server ≡ some t
      → Step aid false s (record s { server = t })
  other_save :
      (id : Text) (status : Status) (s : System)
      → (id == aid) ≡ false
      → Step aid false s (record s { server = save_report id status s.server })
  other_end :
      (id now : Text) (status : Status) (s : System) (t : Server)
      → (id == aid) ≡ false
      → end_run id status now s.server ≡ some t
      → Step aid false s (record s { server = t })
  begin :
      (now : Text) (s t : Server)
      → begin_run aid now s ≡ some t
      → Step aid false
          (record { server = s; phase = waiting })
          (record { server = t; phase = staging })
  begin_error :
      (now : Text) (s : Server)
      → begin_run aid now s ≡ none
      → Step aid false
          (record { server = s; phase = waiting })
          (record { server = s; phase = crashed })
  stage :
      (name : Text) (s t : Server)
      → on_stage aid name s ≡ some t
      → Step aid false
          (record { server = s; phase = staging })
          (record { server = t; phase = staging })
  stage_error :
      (name : Text) (s : Server)
      → on_stage aid name s ≡ none
      → Step aid false
          (record { server = s; phase = staging })
          (record { server = s; phase = saving failed })
  analyzed :
      (status : Status) (s : Server)
      → Step aid false
          (record { server = s; phase = staging })
          (record { server = s; phase = saving status })
  save :
      (status : Status) (s : Server)
      → Step aid false
          (record { server = s; phase = saving status })
          (record { server = save_report aid status s; phase = ending status })
  save_error :
      (status : Status) (s : Server)
      → Step aid false
          (record { server = s; phase = saving status })
          (record { server = s; phase = unsaved })
  end :
      (now : Text) (status : Status) (s t : Server)
      → end_run aid status now s ≡ some t
      → Step aid false
          (record { server = s; phase = ending status })
          (record { server = t; phase = ended })
  end_error :
      (now : Text) (status : Status) (s : Server)
      → end_run aid status now s ≡ none
      → Step aid false
          (record { server = s; phase = ending status })
          (record { server = s; phase = crashed })

-- Any number of steps; the index tells whether the analysis may be deleted on the way.
pub data Steps (aid : Text) (may_delete : Bool) : System → System → Type 0 where
  stay : (s : System) → Steps aid may_delete s s
  go : {s t u : System} → Step aid false s t → Steps aid may_delete t u → Steps aid may_delete s u
  go_deleting :
      {s t u : System}
      → may_delete ≡ true
      → Step aid true s t
      → Steps aid may_delete t u
      → Steps aid may_delete s u
