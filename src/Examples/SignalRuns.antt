-- ===== src/Examples/SignalRuns.antt =====
-- The signal builders on concrete events.
use whs_dynamic.Base.{
  ◌⊎◌, true, not, ℕ, List, [], ◌∷◌, ◌++◌, Option, none, some, Bool, false, ◌&&◌, ◌||◌, ◌≡◌, refl,
  Text, String, codes, All, any, map, filter_by, contains, ◌==◌, string_eq, nat_eq, list_eq,
  sort_by, distinct, IsSorted, with_key, starts_with,
}
use whs_dynamic.Event.{Value, number, text, Data, Event, get_key}
use whs_dynamic.Signals.{of_type}
use whs_dynamic.Signals.Tree.{Depths}
use whs_dynamic.Signals.Tree.Depths.{AreDepths}
use whs_dynamic.Signals.Process.{ProcessSignals, process_tree, build_process_signals}
use whs_dynamic.Signals.Process.Trees.{IsNodeOf, IsReported, build_process_signals_lem}
use whs_dynamic.Signals.Merge.{
  FsEntry, FsChanges, ResourceUsage, Observed, merged_events, build_events_jsonl,
}
use whs_dynamic.Signals.Merge.Counts.{
  how_many, is_incomplete, count_of_sources, build_events_jsonl_lem,
}
use whs_dynamic.Signals.Files.{
  rstrip_slashes, is_own_infra, build_filesystem_signals, realtime_paths, typed, exec_drop_chmod,
  has_exec_bit, somes, text_of,
}
use whs_dynamic.Signals.Files.Outside.{is_traced, outside_package_dir_lem, exec_drop_chmod_never}
use whs_dynamic.Signals.Network.{retry_patterns}
use whs_dynamic.Signals.Network.Retries.{is_reported}
use whs_dynamic.Signals.Behaviour.{StageTime, Residual, residual_of}
use whs_dynamic.Signals.Behaviour.Exits.{names_of, is_active, residual_of_lem}
use whs_dynamic.Signals.Summary.{Summary, Python, Sources}
use whs_dynamic.Collectors.Tcpdump.{Capturer, capturing, domains}
use whs_dynamic.Collectors.Tcpdump.Flows.{domain_never_retried}

-- A timestamp is its first character.
abbrev first_code : Text → Option ℕ
first_code [] = none
first_code (c ∷ s) = some c

abbrev no_text : Value → Text
no_text v = []

abbrev no_texts : Data → Text
no_texts d = []

abbrev event_at : Text → String → Option ℕ → Data → Event
event_at t event_type pid payload = record {
  timestamp = t;
  source = "gvisor";
  category = "process";
  event_type = event_type;
  stage = "install";
  pid = pid;
  ppid = none;
  payload = payload;
}

-- Two programs, of which each is said to be the other's parent.
abbrev cyclic : List Event
cyclic =
    event_at (codes "1") "process.exec" (some 7) ((codes "exe", text (codes "/bin/sh")) ∷ [])
    ∷ event_at (codes "2") "process.exec" (some 8) ((codes "exe", text (codes "/bin/curl")) ∷ [])
    ∷ event_at (codes "3") "process.fork" (some 7) ((codes "child_pid", number 8) ∷ [])
    ∷ event_at (codes "4") "process.fork" (some 8) ((codes "child_pid", number 7) ∷ [])
    ∷ []

build_process_signals_lem_example :
    (s : ProcessSignals) × (depths : Depths) × (build_process_signals first_code no_text no_texts
        cyclic
      ≡ some s)
    × AreDepths (process_tree first_code no_text no_texts cyclic) depths
    × All (IsNodeOf depths) s.process_tree
    × All (IsReported s) (of_type first_code "process.exec" cyclic)
build_process_signals_lem_example = build_process_signals_lem first_code no_text no_texts cyclic

abbrev dropper : FsEntry
dropper = record { path = codes "/tmp/w/run"; details = (codes "mode", text (codes "0o755")) ∷ [] }

abbrev changes : FsChanges
changes = record { created = dropper ∷ []; modified = []; deleted = [] }

abbrev usage : ResourceUsage
usage = record {
  proc_series = record { t = codes "9"; processes = 2; fields = [] } ∷ [];
  cgroup_series = [];
  processes = some 2;
  rss_kb = some 100;
  cpu_usec = none;
}

abbrev observed : Observed
observed = record {
  events = cyclic;
  fs_diff = changes;
  resource_usage = usage;
  pcap_flows = [];
  dns_domains = codes "a.test" ∷ [];
  env_log =
      record {
        timestamp = some 5;
        event = some "bulk_iteration";
        stage = some "import";
        fields = [];
      }
      ∷ [];
  code_log = [];
  sni_records = [];
  finished_at = codes "6";
  sinkhole_records = [];
}

abbrev iso : ℕ → Text
iso n = n ∷ []

build_events_jsonl_lem_example :
    ((is_incomplete iso observed ≡ true) × (build_events_jsonl iso observed ≡ none))
    ⊎ ((merged events : List Event) × (is_incomplete iso observed ≡ false)
        × (merged_events iso observed ≡ some merged)
        × (build_events_jsonl iso observed ≡ some events)
        × IsSorted (λ (e : Event). e.timestamp) events
        × ((t : Text)
            → with_key (λ (e : Event). e.timestamp) t events
              ≡ with_key (λ (e : Event). e.timestamp) t merged)
        × ((p : Event → Bool) → how_many p events ≡ count_of_sources iso observed p))
build_events_jsonl_lem_example = build_events_jsonl_lem iso observed

-- A program that was made executable, by its path in the container.
abbrev made_executable : List Event
made_executable =
    event_at (codes "2") "file.chmod" (some 7)
      ((codes "path", text (codes "/workspace/run")) ∷ (codes "mode", text (codes "0o755")) ∷ [])
    ∷ event_at (codes "3") "file.write_outside_site" (some 7)
        ((codes "path", text (codes "/workspace/run")) ∷ [])
    ∷ []

outside_package_dir_lem_example :
    contains
      (build_filesystem_signals [] changes made_executable (codes "/tmp/w") []).outside_package_dir
      (codes "/workspace/run")
    ≡ (any
          (λ f.
            not (starts_with f.path (rstrip_slashes (codes "/tmp/w") ++ codes "/site"))
            && not (is_own_infra f.path (codes "/tmp/w"))
            && codes "/workspace/run" == f.path)
          (changes.created ++ changes.modified)
        || is_traced
            (codes "/workspace/run")
            (realtime_paths (typed "file.write_outside_site" made_executable)))
outside_package_dir_lem_example =
    outside_package_dir_lem [] changes made_executable (codes "/tmp/w") [] (codes "/workspace/run")

exec_drop_chmod_never_example : exec_drop_chmod changes.created made_executable ≡ []
unfolding starts_with somes realtime_paths has_exec_bit text_of get_key
exec_drop_chmod_never_example =
    exec_drop_chmod_never changes.created made_executable (refl, tt) (refl, tt)

abbrev capture : Capturer
capture = record {
  network = codes "full";
  running = false;
  flows = [];
  dns_names = codes "a.test" ∷ codes "a.test" ∷ codes "a.test" ∷ codes "a.test" ∷ [];
  status = capturing;
}

domain_never_retried_example :
    is_reported (codes "a.test") (retry_patterns [] (domains capture)) ≡ false
unfolding domains sort_by distinct
domain_never_retried_example = domain_never_retried capture [] (codes "a.test") refl

-- The sample at 9 was taken while the second stage ran.
abbrev stage_times : List StageTime
stage_times =
    record { name = codes "build"; finished_at = codes "8"; duration = 10 }
    ∷ record { name = codes "install"; finished_at = codes "9"; duration = 10 }
    ∷ []

residual_of_lem_example :
    map (λ (r : Residual). r.stage) (residual_of first_code usage.proc_series stage_times)
    ≡ names_of first_code usage.proc_series
        (filter_by (is_active first_code usage.proc_series) stage_times)
residual_of_lem_example = residual_of_lem first_code usage.proc_series stage_times

abbrev python : Python Bool
python = record {
  iso = iso;
  parse_ts = first_code;
  to_str = no_text;
  data_str = no_texts;
  str_nat = iso;
  ratio = λ a b. a;
  entropy = λ s. 0;
  credential_matches = λ c. false;
  stdlib = [];
}

abbrev sources : Sources
sources = record {
  workspace_root = codes "/tmp/w";
  declared_deps = [];
  sni_mismatch_records = [];
  dns_answers = [];
  stages = stage_times;
  reputation = record {
    registry = [];
    days_since_publish = some 1;
    download_stats = [];
    candidate = none;
    distance = [];
    static_scan = [];
    diff_against_previous_release = [];
    domain_intel = [];
  };
}
