-- ===== src/Pipeline/Run.antt =====
-- `analyze_package` of backend/app/package.py, as the calls that it makes. What a call gives, and whether
-- it raises an exception, is the world's, and may depend on the calls before. The calls that the source
-- guards with `_safe_call`, or with a handler of their own, do not raise and are left out. A parameter
-- `none` of a report is the failed run's empty dictionary.
pub mod Finish
pub mod Plan
use whs_dynamic.Base.{
  ℕ, List, [], ◌∷◌, ◌++◌, Option, none, some, Bool, true, false, Text, codes, take, filter_by, ◌==◌,
  nat_eq, list_eq, if◌then◌else◌,
}
use whs_dynamic.Event.{Value, text, Data, Event}
use whs_dynamic.Analyzer.{Finding, Severity, info, Chain, analyze, severity_of}
use whs_dynamic.Sandbox.{effective_network}

pub data Collector : Type 0 where
  host_sampler pcap ebpf sinkhole : Collector

-- A call of a function by its name, a stage's command, the report of a stage to `track`, a search of the
-- strace logs, and the calls of a collector.
pub data Action : Type 0 where
  call : Text → Action
  run : Text → Action
  track : Text → Action
  mark : Action
  collect : Text → Action
  note_import : Action
  start stop : Collector → Action

pub record World : Type 0 where
  pub raises : List Action → Action → Bool
  pub status : List Action → Text → Text
  pub collected : List Action → Text → List Event
  pub scripts : List Text
  pub exists : Text → Bool
  pub sinkhole_active : Bool
  pub import_event : Event

pub record Options : Type 0 where
  pub uploaded : Bool
  pub network : Text
  pub sdist : Bool
  pub custom_command : Bool

-- What the run has done, its stages with their status, and its events.
pub record Run : Type 0 where
  pub history : List Action
  pub stages : List (Text × Text)
  pub events : List Event

unfoldable pub status_of : Text → List (Text × Text) → Text
status_of name [] = []
status_of name ((n, status) ∷ stages) = if n == name then status else status_of name stages

-- A stage is listed before the callback of `track` is called.
unfoldable pub stages_after : World → Action → Run → List (Text × Text)
stages_after w (track name) s = s.stages ++ (name, w.status s.history name) ∷ []
stages_after w _ s = s.stages

unfoldable pub events_after : World → Action → Run → List Event
unfolding status_of
events_after w (collect name) s =
    if w.raises s.history (collect name) then s.events else s.events ++ w.collected s.history name
events_after w note_import s =
    if status_of (codes "import") s.stages == codes "completed"
    then s.events ++ w.import_event ∷ []
    else s.events
events_after w _ s = s.events

-- What a call does to the state, where it raises, too.
unfoldable pub record_action : World → Action → Run → Run
unfolding stages_after events_after
record_action w a s = record {
  history = s.history ++ a ∷ [];
  stages = stages_after w a s;
  events = events_after w a s;
}

-- The calls in their order, up to one that raises; whether one did.
unfoldable pub perform : World → List Action → Run → Bool × Run
unfolding record_action
perform w [] s = (false, s)
perform w (a ∷ as') s =
    let rest = perform w as' (record_action w a s) in
    if w.raises s.history a then (true, record_action w a s) else rest

-- `sinkhole = Sinkhole(...) if network == "sinkhole" else None`
unfoldable pub uses_sinkhole : Options → Bool
uses_sinkhole o = o.network == codes "sinkhole"

abbrev pub staged : Text → List Action
staged name = run name ∷ track name ∷ []

abbrev pub observed : Text → List Action
observed name = mark ∷ run name ∷ track name ∷ collect name ∷ []

-- An uploaded artifact, or a download.
unfoldable pub acquire : Options → List Action
acquire o =
    if o.uploaded
    then track (codes "resolve") ∷ call (codes "copy") ∷ track (codes "download") ∷ []
    else staged (codes "resolve")
      ++ (staged (codes "download") ++ call (codes "select_artifact") ∷ [])

-- From the artifact to the started collectors.
unfoldable pub prepare : Options → List Action
unfolding acquire uses_sinkhole
prepare o =
    acquire o
    ++ (staged (codes "inspect")
        ++ (call (codes "read_package_metadata")
            ∷ call (codes "ensure_python_image_pulled")
            ∷ call (codes "write_bootstrap")
            ∷ ((if uses_sinkhole o then start sinkhole ∷ [] else [])
                ++ start host_sampler ∷ start pcap ∷ start ebpf ∷ [])))

-- `own_console_scripts(...)[:3]`, those that exist.
unfoldable pub probed : World → List Text
probed w = filter_by w.exists (take 3 w.scripts)

unfoldable pub probes : List Text → List Action
probes [] = []
probes (script ∷ scripts) = observed (codes "probe:" ++ script) ++ probes scripts

-- The body of the inner `try`.
unfoldable pub execute : World → Options → List Action
unfolding probed probes
execute w o =
    (if o.sdist then call (codes "ensure_build_backends_cached") ∷ observed (codes "build") else [])
    ++ (observed (codes "install")
        ++ (observed (codes "import")
            ++ (note_import
                ∷ call (codes "own_console_scripts")
                ∷ (probes (probed w)
                    ++ (if o.custom_command then observed (codes "execute") else [])))))

-- Its `finally`.
unfoldable pub finish : Options → List Action
unfolding uses_sinkhole
finish o =
    stop host_sampler ∷ stop pcap ∷ stop ebpf ∷ (if uses_sinkhole o then stop sinkhole ∷ [] else [])

-- Behind it, up to the report.
abbrev pub evaluate : List Action
evaluate =
    call (codes "read_jsonl")
    ∷ call (codes "records")
    ∷ call (codes "snapshot")
    ∷ call (codes "diff")
    ∷ []

-- The calls in the temporary directory before the outer `try`.
abbrev pub opening : List Action
opening =
    call (codes "snapshot")
    ∷ call (codes "check_runtime")
    ∷ call (codes "GvisorStraceCollector")
    ∷ []

abbrev pub make_directory : Action
make_directory = call (codes "TemporaryDirectory")

-- The end of the `with`.
abbrev pub remove_directory : Action
remove_directory = call (codes "cleanup")

abbrev pub write_bundle : Action
write_bundle = call (codes "write_log_bundle")

abbrev pub save : Action
save = call (codes "save_report")

-- A finished report.
pub record Judged : Type 0 where
  pub findings : List Finding
  pub score : ℕ
  pub severity : Severity
  pub chains : List Chain

pub record AnalysisReport : Type 0 where
  pub status : Text
  pub network_mode : Text
  pub stages : List (Text × Text)
  pub result : Option Judged

abbrev pub new_run : Run
new_run = record { history = []; stages = []; events = [] }

module _ (w : World) (o : Options) where
  -- The inner `try` with its `finally`, which runs behind an exception, too.
  unfoldable pub try_stages : Run → Bool × Run
  unfolding perform execute finish
  try_stages s =
      let body = perform w (execute w o) s in
      let end = perform w (finish o) body.1 in (if body.0 then true else end.0, end.1)

  -- The outer `try`, without `analyze`.
  unfoldable pub try_run : Run → Bool × Run
  unfolding perform prepare try_stages
  try_run s =
      let before = perform w (prepare o) s in
      let staged = try_stages before.1 in
      let after = perform w evaluate staged.1 in
      if before.0 then (true, before.1) else if staged.0 then (true, staged.1) else after

  -- The start of the `with`, up to the outer `try`. An exception in it removes the directory.
  unfoldable pub enter : Bool × Run
  unfolding perform
  enter =
      let made = perform w (make_directory ∷ []) new_run in
      let opened = perform w opening made.1 in
      let removed = perform w (remove_directory ∷ []) opened.1 in
      if made.0 then (true, made.1) else if opened.0 then (true, removed.1) else (false, opened.1)

  -- Behind the outer `try`: the bundle, the end of the `with`, which an exception reaches, too, and the
  -- report.
  unfoldable pub try_keep : Run → Bool × Run
  unfolding perform
  try_keep s =
      let written = perform w (write_bundle ∷ []) s in
      let removed = perform w (remove_directory ∷ []) written.1 in
      let saved = perform w (save ∷ []) removed.1 in
      if written.0 then (true, removed.1) else if removed.0 then (true, removed.1) else saved

abbrev pub failed_report : Options → Run → AnalysisReport
failed_report o s = record {
  status = codes "failed";
  network_mode = o.network;
  stages = s.stages;
  result = none;
}

abbrev pub completed_report : World → Options → Run → List Finding → ℕ → List Chain → AnalysisReport
completed_report w o s findings score chains = record {
  status = codes "completed";
  network_mode = effective_network o.network w.sinkhole_active;
  stages = s.stages;
  result =
      some record {
        findings = findings;
        score = score;
        severity = severity_of score;
        chains = chains;
      };
}

module _ (show : Value → Text) (render : Data → Text) (w : World) (o : Options) where
  -- The report of a run, where a failed one has no result: a score of 0, no finding and no chain.
  unfoldable pub report_of : Bool × Run → AnalysisReport
  report_of (true, s) = failed_report o s
  report_of (false, s) = elim (analyze show render s.events) [
    | none ↦ failed_report o s
    | some (findings, score, chains) ↦ completed_report w o s findings score chains
  ]

  -- `analyze_package`; `none` is an exception outside of the outer `try`.
  unfoldable pub analyze_package : Option AnalysisReport × Run
  unfolding enter try_run report_of try_keep
  analyze_package =
      let entered = enter w o in
      let tried = try_run w o entered.1 in
      let kept = try_keep w o tried.1 in
      if entered.0
      then (none, entered.1)
      else (if kept.0 then none else some (report_of tried), kept.1)
