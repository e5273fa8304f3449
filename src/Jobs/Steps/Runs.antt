-- ===== src/Jobs/Steps/Runs.antt =====
-- How the run of an analysis ends, with and without its deletion.
use mathlib.Core.Path.{subst}
use whs_dynamic.Base.{
  Option, none, some, Bool, true, false, ◌≡◌, refl, sym, Text, nat_eq, list_eq, find, find-put,
  find-remove, beq_refl, arith,
}
use whs_dynamic.Jobs.{
  Server, report, failed, update_job, save_report, get_analysis, delete_analysis,
}
use whs_dynamic.Jobs.Requests.{delete_analysis_inv}
use whs_dynamic.Jobs.Steps.{
  Phase, waiting, staging, ended, crashed, unsaved, saving, ending, Step, delete, stage_error, save,
  end_error, Steps, stay, go, go_deleting,
}

abbrev pub is_some : {A : Type 0} → Option A → Bool
is_some none = false
is_some (some a) = true

abbrev pub has_job : Text → Server → Bool
has_job aid s = is_some (find aid s.jobs)

abbrev pub has_report : Text → Server → Bool
has_report aid s = is_some (find aid s.saved)

-- A run that has not been disturbed.
abbrev pub IsLive : Text → Phase → Server → Type 0
IsLive aid waiting s = has_job aid s ≡ true
IsLive aid staging s = has_job aid s ≡ true
IsLive aid (saving status) s = has_job aid s ≡ true
IsLive aid (ending status) s = (has_job aid s ≡ true) × (has_report aid s ≡ true)
IsLive aid ended s = has_report aid s ≡ true
IsLive aid unsaved s = has_job aid s ≡ true
IsLive aid crashed s = ⊥

-- A server that agrees with another on the analysis.
abbrev pub SameFor : Text → Server → Server → Type 0
SameFor aid s t = (find aid t.jobs ≡ find aid s.jobs) × (find aid t.saved ≡ find aid s.saved)

-- An analysis that is deleted while its stages run comes back: the worker goes on, ends with an
-- exception, and the analysis that was gone is found again with a report of a failure.
pub deleted_run_returns :
    (aid name now : Text) (s t : Server)
    → delete_analysis aid s ≡ some t
    → (get_analysis aid t ≡ none)
      × Steps aid true
          (record { server = s; phase = staging })
          (record { server = save_report aid failed t; phase = crashed })
      × (get_analysis aid (save_report aid failed t)
          ≡ some (report (record { analysis_id = aid; status = failed })))
unfolding get_analysis update_job
deleted_run_returns aid name now s t e =
    let gone : find aid t.jobs ≡ none =
      ground (arith, sym (delete_analysis_inv aid s t e), find-remove aid s.jobs) in
    let unsaved : find aid t.saved ≡ none =
      ground (arith, sym (delete_analysis_inv aid s t e), find-remove aid s.saved) in
    (
      rw (get_analysis, unsaved, gone),
      go_deleting refl
          (subst
            (λ b.
              Step aid b (record { server = s; phase = staging })
                (record { server = t; phase = staging }))
            (beq_refl aid) (delete aid (record { server = s; phase = staging }) t e))
          (go (stage_error name t (rw gone)) (
            go (save failed t)
              (go (end_error now failed (save_report aid failed t) (rw gone)) (stay _)))),
      rw (get_analysis, find-put aid (record { analysis_id = aid; status = failed }) t.saved),
    )
