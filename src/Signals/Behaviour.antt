-- ===== src/Signals/Behaviour.antt =====
-- `build_env_signals`, `build_timing_signals`, `build_evasion_signals` and `build_code_signals` of
-- backend/app/signals.py. Durations are in milliseconds; the rounded quotient of two floats and Python's
-- `str` of a value are arguments.
pub mod Exits
use whs_dynamic.Base.{
  ℕ, ◌+◌, List, [], ◌∷◌, ◌++◌, Option, none, some, Bool, true, false, ◌&&◌, ◌||◌, not, Text, codes,
  String, ◌==◌, nat_eq, list_eq, string_eq, contains, any, map, filter_by, has_text, ltb, leb, eqb,
  length, tally, starts_with, reverse, if◌then◌else◌,
}
use whs_dynamic.Event.{Value, text, Data, Event, get_key, truthy}
use whs_dynamic.Signals.{Pair, time_near, module_of}
use whs_dynamic.Signals.Merge.{Point, ResourceUsage}
use whs_dynamic.Signals.Files.{text_of, typed, undeclared_modules}

-- `_CI_ENV_KEYS`
abbrev pub ci_env_keys : List Text
ci_env_keys =
    codes "CI"
    ∷ codes "GITHUB_ACTIONS"
    ∷ codes "TRAVIS"
    ∷ codes "JENKINS_URL"
    ∷ codes "GITLAB_CI"
    ∷ codes "BUILDKITE"
    ∷ codes "CIRCLECI"
    ∷ []

-- A stage with one more value of an event.
pub record Noted (A : Type 0) : Type 0 where
  pub stage : String
  pub value : A

abbrev pub noted : String → Event → Noted (Option Value)
noted key e = record { stage = e.stage; value = get_key (codes key) e.payload }

-- The keys of the accesses, in their order, empty and absent ones left out.
unfoldable pub accessed_keys : List Event → List Text
unfolding text_of
accessed_keys [] = []
accessed_keys (e ∷ events) =
    let rest = accessed_keys events in
    elim (text_of (codes "key") e.payload) [
      | none ↦ rest
      | some key ↦ if e.event_type == "env.key_access" && not (key == []) then key ∷ rest else rest
    ]

pub record EnvSignals : Type 0 where
  pub bulk_iteration_count : ℕ
  pub bulk_iteration_events : List (Noted (Option Value))
  pub keys_accessed : List (Text × ℕ)
  pub network_after_bulk_access : List (Noted ℕ)

-- A stage's name, end and duration.
pub record StageTime : Type 0 where
  pub name : Text
  pub finished_at : Text
  pub duration : ℕ

pub record Residual : Type 0 where
  pub stage : Text
  pub samples_after_exit : ℕ

pub record TimingSignals : Type 0 where
  pub residual_processes_after_exit : List Residual
  pub max_processes : Option ℕ
  pub max_rss_kb : Option ℕ
  pub cpu_seconds_per_wall_second : Option ℕ
  pub pid_spike : Bool

unfoldable pub total_duration : List StageTime → ℕ
total_duration [] = 0
total_duration (s ∷ stages) = s.duration + total_duration stages

-- `sum(...) or 1`, one second.
unfoldable pub or_one : ℕ → ℕ
or_one n = if eqb n 0 then 1000 else n

pub record Sleep : Type 0 where
  pub stage : String
  pub duration : Option Value
  pub events_after : ℕ

pub record EvasionSignals : Type 0 where
  pub ci_env_checks : List (Noted (Option Value))
  pub virtualization_probes : List (Noted (Option Value))
  pub sleep_then_activity : List Sleep

unfoldable pub is_ci_key : Event → Bool
unfolding text_of
is_ci_key e = elim (text_of (codes "key") e.payload) [
  | none ↦ false
  | some key ↦ contains ci_env_keys key
]

pub record CodeCall : Type 0 where
  pub stage : String
  pub filename : Option Value
  pub source_preview : Option Value

pub record CodeSignals : Type 0 where
  pub eval_exec_calls : List CodeCall
  pub base64_then_exec : List (Noted (Option Value))
  pub dynamic_imports_undeclared : List Text

-- `str(e["data"].get("filename") or "").endswith(".py")`, of a text.
unfoldable pub is_source_file : Event → Bool
unfolding text_of
is_source_file e = elim (text_of (codes "filename") e.payload) [
  | none ↦ false
  | some name ↦ starts_with (reverse name) (reverse (codes ".py"))
]

-- `build_code_signals`
unfoldable pub build_code_signals : List Text → List Event → List Text → CodeSignals
unfolding is_source_file module_of
build_code_signals stdlib events declared_deps =
    let eval_exec = filter_by (λ e. not (is_source_file e)) (typed "code.compile" events) in
    let base64_stages =
      map (λ (e : Event). e.stage)
        (filter_by (λ e. contains (codes "base64" ∷ codes "binascii" ∷ []) (module_of e))
          (typed "code.import" events)) in
    record {
      eval_exec_calls =
          map
            (λ (e : Event). record {
              stage = e.stage;
              filename = get_key (codes "filename") e.payload;
              source_preview = get_key (codes "source_head") e.payload;
            })
            eval_exec;
      base64_then_exec =
          map (noted "filename") (filter_by (λ e. contains base64_stages e.stage) eval_exec);
      dynamic_imports_undeclared = undeclared_modules stdlib declared_deps events;
    }

module _ (parse_ts : Text → Option ℕ) where
  -- `build_env_signals`
  unfoldable pub build_env_signals : List Event → EnvSignals
  unfolding accessed_keys
  build_env_signals events =
      let env_events = filter_by (λ e. e.category == "env") events in
      let bulk = typed "env.bulk_access" env_events in
      record {
        bulk_iteration_count = length bulk;
        bulk_iteration_events = map (noted "via") bulk;
        keys_accessed = tally (accessed_keys env_events) [];
        network_after_bulk_access =
            map (λ (p : Pair). record { stage = p.a.stage; value = p.gap })
              (time_near parse_ts events "env.bulk_access" "network.connect" 5000);
      }

  -- `(_parse_ts(t) or finished) > finished`
  unfoldable pub is_after : ℕ → Text → Bool
  is_after finished t = elim (parse_ts t) [ none ↦ false | some at ↦ ltb finished at ]

  -- The loop over the stages.
  unfoldable pub residual_of : List Point → List StageTime → List Residual
  unfolding is_after
  residual_of series [] = []
  residual_of series (s ∷ stages) =
      let rest = residual_of series stages in
      elim (parse_ts s.finished_at) [
        | none ↦ rest
        | some finished ↦
            let after = filter_by (λ (p : Point). is_after finished p.t) series in
            if any (λ (p : Point). ltb 0 p.processes) after
            then record { stage = s.name; samples_after_exit = length after } ∷ rest
            else rest
      ]

  -- `cgroup.get("cpu_usec") and stage_dicts`
  unfoldable pub cpu_ratio : (ℕ → ℕ → ℕ) → Option ℕ → List StageTime → Option ℕ
  unfolding total_duration or_one
  cpu_ratio ratio none stages = none
  cpu_ratio ratio (some cpu_usec) [] = none
  cpu_ratio ratio (some cpu_usec) (s ∷ stages) =
      if eqb cpu_usec 0 then none else some (ratio cpu_usec (or_one (total_duration (s ∷ stages))))

  -- `build_timing_signals`
  unfoldable pub build_timing_signals : (ℕ → ℕ → ℕ) → ResourceUsage → List StageTime → TimingSignals
  unfolding residual_of cpu_ratio
  build_timing_signals ratio usage stages = record {
    residual_processes_after_exit = residual_of usage.proc_series stages;
    max_processes = usage.processes;
    max_rss_kb = usage.rss_kb;
    cpu_seconds_per_wall_second = cpu_ratio ratio usage.cpu_usec stages;
    pid_spike = elim usage.processes [ none ↦ false | some n ↦ leb 8 n ];
  }

  -- `(_parse_ts(e["timestamp"]) or ts) >= ts and e["stage"] == sleep["stage"]`
  unfoldable pub follows : ℕ → String → Event → Bool
  follows ts stage e =
      elim (parse_ts e.timestamp) [ none ↦ true | some at ↦ leb ts at ] && e.stage == stage

  -- The loop over the sleeps, among the events before and behind each.
  unfoldable pub sleeps_in : List Event → List Event → List Sleep
  unfolding follows
  sleeps_in before [] = []
  sleeps_in before (e ∷ events) =
      let rest = sleeps_in (before ++ e ∷ []) events in
      if e.event_type == "process.sleep"
      then elim (parse_ts e.timestamp) [
        | none ↦ rest
        | some ts ↦
            let after = filter_by (follows ts e.stage) (before ++ events) in
            if ltb 3 (length after)
            then record {
              stage = e.stage;
              duration = get_key (codes "duration_s") e.payload;
              events_after = length after;
            }
              ∷ rest
            else rest
      ]
      else rest

  -- `build_evasion_signals`
  unfoldable pub build_evasion_signals : List Event → EvasionSignals
  unfolding is_ci_key sleeps_in
  build_evasion_signals events = record {
    ci_env_checks = map (noted "key") (filter_by is_ci_key (typed "env.key_access" events));
    virtualization_probes = map (noted "path") (typed "evasion.probe" events);
    sleep_then_activity = sleeps_in [] events;
  }
