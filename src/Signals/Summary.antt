-- ===== src/Signals/Summary.antt =====
-- `build_reputation_context`, `build_summary` and `build_all` of backend/app/signals.py. The text of a
-- number is an argument; a JSON value that is only passed on stands as its text.
pub mod Counts
use whs_dynamic.Base.{
  ℕ, List, [], ◌∷◌, ◌++◌, Option, none, some, Bool, true, false, ◌&&◌, ◌||◌, not, Text, codes, map,
  take, length, join, ltb, ◌==◌, nat_eq, list_eq, if◌then◌else◌,
}
use whs_dynamic.Event.{Value, Data, Event}
use whs_dynamic.Signals.{Correlation, build_correlations}
use whs_dynamic.Signals.Merge.{Observed, Capture, build_events_jsonl}
use whs_dynamic.Signals.Process.{ProcessSignals, build_process_signals}
use whs_dynamic.Signals.Files.{FilesystemSignals, build_filesystem_signals}
use whs_dynamic.Signals.Network.{NetworkSignals, build_network_signals}
use whs_dynamic.Signals.Behaviour.{
  EnvSignals, TimingSignals, EvasionSignals, CodeSignals, StageTime, build_env_signals,
  build_timing_signals, build_evasion_signals, build_code_signals,
}

-- `build_reputation_context`, with the values that the summary reads.
pub record ReputationContext : Type 0 where
  pub registry : Text
  pub days_since_publish : Option ℕ
  pub download_stats : Text
  pub candidate : Option Text
  pub distance : Text
  pub static_scan : Text
  pub diff_against_previous_release : Text
  pub domain_intel : Text

pub record AllSignals (Matches : Type 0) : Type 0 where
  pub events : List Event
  pub process_signals : ProcessSignals
  pub filesystem_signals : FilesystemSignals
  pub network_signals : NetworkSignals Matches
  pub env_signals : EnvSignals
  pub timing_signals : TimingSignals
  pub evasion_signals : EvasionSignals
  pub code_signals : CodeSignals
  pub reputation_context : ReputationContext
  pub correlations : List Correlation

pub record Summary : Type 0 where
  pub counts : List (Text × ℕ)
  pub notable : List Text

-- `bool(xs)`
unfoldable pub nonempty {ℓ} : {A : Type ℓ} → List A → Bool
nonempty [] = false
nonempty (x ∷ xs) = true

unfoldable pub line_if : Bool → Text → List Text
line_if b line = if b then line ∷ [] else []

abbrev pub counts_of : {Matches : Type 0} → AllSignals Matches → List (Text × ℕ)
counts_of s =
    (codes "commands", length s.process_signals.commands)
    ∷ (codes "shell_spawns", length s.process_signals.shell_spawns)
    ∷ (codes "downloader_invocations", length s.process_signals.downloader_invocations)
    ∷ (codes "sensitive_path_access", length s.filesystem_signals.sensitive_path_access)
    ∷ (codes "outside_package_dir_writes", length s.filesystem_signals.outside_package_dir)
    ∷ (codes "loaded_undeclared_modules", length s.filesystem_signals.loaded_undeclared)
    ∷ (codes "exfil_channel_matches", length s.network_signals.exfil_channel_matches)
    ∷ (codes "sni_ip_mismatches", length s.network_signals.sni_ip_mismatch)
    ∷ (codes "ip_hardcode_bypass_attempts", length s.network_signals.ip_hardcode_bypass_attempts)
    ∷ (codes "env_bulk_iterations", s.env_signals.bulk_iteration_count)
    ∷ (codes "eval_exec_calls", length s.code_signals.eval_exec_calls)
    ∷ (codes "ci_env_checks", length s.evasion_signals.ci_env_checks)
    ∷ (codes "virtualization_probes", length s.evasion_signals.virtualization_probes)
    ∷ (codes "correlation_chains", length s.correlations)
    ∷ []

unfoldable pub typosquat_line : ReputationContext → List Text
typosquat_line r = elim r.candidate [
  | none ↦ []
  | some name ↦
      if name == []
      then []
      else (codes "name resembles popular package '"
          ++ (name ++ (codes "' (edit distance " ++ (r.distance ++ codes ")"))))
        ∷ []
]

module _ (str_nat : ℕ → Text) where
  -- `f"{len(xs)} ..."`, where there is one.
  unfoldable pub counted_line {ℓ} : {A : Type ℓ} → List A → Text → List Text
  unfolding nonempty line_if
  counted_line xs what = line_if (nonempty xs) (str_nat (length xs) ++ what)

  -- The first ten names, where there is one.
  unfoldable pub names_line : Text → List Text → List Text
  unfolding nonempty line_if
  names_line what names = line_if (nonempty names) (what ++ join (codes ", ") (take 10 names))

  unfoldable pub publish_line : ReputationContext → List Text
  publish_line r = elim r.days_since_publish [
    | none ↦ []
    | some days ↦
        if ltb days 3
        then (codes "analyzed version published only " ++ (str_nat days ++ codes " day(s) ago"))
          ∷ []
        else []
  ]

  -- `notable`
  unfoldable pub notable_of : {Matches : Type 0} → AllSignals Matches → List Text
  unfolding counted_line names_line typosquat_line publish_line line_if nonempty
  notable_of s =
      counted_line s.process_signals.shell_spawns (codes " shell process(es) spawned")
      ++ (counted_line s.filesystem_signals.sensitive_path_access
            (codes " sensitive path access(es)")
          ++ (names_line (codes "undeclared modules loaded at runtime: ")
                s.filesystem_signals.loaded_undeclared
              ++ (names_line (codes "possible exfil channel domains: ")
                    s.network_signals.exfil_channel_matches
                  ++ (counted_line s.network_signals.sni_ip_mismatch
                        (codes " TLS SNI/resolved-IP mismatch(es)")
                      ++ (counted_line s.network_signals.ip_hardcode_bypass_attempts (
                            codes
                              " connection(s) to an IP never seen in a DNS answer (possible hardcoded C2 address)")
                          ++ (typosquat_line s.reputation_context
                              ++ (publish_line s.reputation_context
                                  ++ (line_if
                                        (nonempty s.timing_signals.residual_processes_after_exit)
                                        (codes
                                          "process activity observed after a stage's own exit code was returned")
                                      ++ line_if
                                          (nonempty s.evasion_signals.ci_env_checks
                                            || nonempty s.evasion_signals.virtualization_probes)
                                          (codes
                                            "CI/virtualization detection probes observed")))))))))

  -- `build_summary`
  unfoldable pub build_summary : {Matches : Type 0} → AllSignals Matches → Summary
  unfolding notable_of
  build_summary s = record { counts = counts_of s; notable = notable_of s }

-- What the library functions do for `build_all`.
pub record Python (Matches : Type 0) : Type 0 where
  pub iso : ℕ → Text
  pub parse_ts : Text → Option ℕ
  pub to_str : Value → Text
  pub data_str : Data → Text
  pub str_nat : ℕ → Text
  pub ratio : ℕ → ℕ → ℕ
  pub entropy : Text → ℕ
  pub credential_matches : Capture → Matches
  pub stdlib : List Text

-- The other entries of `sources`.
pub record Sources : Type 0 where
  pub workspace_root : Text
  pub declared_deps : List Text
  pub sni_mismatch_records : List Data
  pub dns_answers : List (Text × List Text)
  pub stages : List StageTime
  pub reputation : ReputationContext

module _ {Matches : Type 0} (py : Python Matches) where
  abbrev pub all_signals : Observed → Sources → List Event → ProcessSignals → AllSignals Matches
  all_signals o sources events processes = record {
    events = events;
    process_signals = processes;
    filesystem_signals =
        build_filesystem_signals py.stdlib o.fs_diff events sources.workspace_root
          sources.declared_deps;
    network_signals =
        build_network_signals py.entropy py.credential_matches events o.pcap_flows o.dns_domains
          o.sni_records sources.sni_mismatch_records o.sinkhole_records sources.dns_answers;
    env_signals = build_env_signals py.parse_ts events;
    timing_signals = build_timing_signals py.parse_ts py.ratio o.resource_usage sources.stages;
    evasion_signals = build_evasion_signals py.parse_ts events;
    code_signals = build_code_signals py.stdlib events sources.declared_deps;
    reputation_context = sources.reputation;
    correlations = build_correlations py.parse_ts events;
  }

  -- The lines behind the merged events.
  unfoldable pub build_from :
      Observed → Sources → List Event → Option (AllSignals Matches × Summary)
  unfolding build_summary
  build_from o sources events =
      elim (build_process_signals py.parse_ts py.to_str py.data_str events) [
        | none ↦ none
        | some processes ↦
            let s = all_signals o sources events processes in some (s, build_summary py.str_nat s)
      ]

  -- `build_all`, with its summary; `none` is an exception, or would be a search for a depth out of rounds.
  unfoldable pub build_all : Observed → Sources → Option (AllSignals Matches × Summary)
  unfolding build_from
  build_all o sources = elim (build_events_jsonl py.iso o) [
    | none ↦ none
    | some events ↦ build_from o sources events
  ]
