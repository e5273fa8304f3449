-- ===== src/Signals/Merge.antt =====
-- `build_events_jsonl` of backend/app/signals.py. The text of an epoch, `_iso`, is an argument.
pub mod Counts
use whs_dynamic.Base.{
  ℕ, List, [], ◌∷◌, ◌++◌, Option, none, some, Text, codes, String, map, ◌==◌, string_eq, concat,
  sort_by, ◌>>=◌, if◌then◌else◌,
}
use whs_dynamic.Event.{text, Data, Event}

-- An entry of `fs_diff`, by its path and its other fields.
pub record FsEntry : Type 0 where
  pub path : Text
  pub details : Data

pub record FsChanges : Type 0 where
  pub created : List FsEntry
  pub modified : List FsEntry
  pub deleted : List FsEntry

-- A point of a series of samples.
pub record Point : Type 0 where
  pub t : Text
  pub processes : ℕ
  pub fields : Data

pub record ResourceUsage : Type 0 where
  pub proc_series : List Point
  pub cgroup_series : List Point
  pub processes : Option ℕ
  pub rss_kb : Option ℕ
  pub cpu_usec : Option ℕ

-- A row of the two logs of the instrumentation, which the analysed program can write, too. It has no
-- timestamp where `row["timestamp"]` or the conversion of it raises.
pub record LogRow : Type 0 where
  pub timestamp : Option ℕ
  pub event : Option String
  pub stage : Option String
  pub fields : Data

pub record Flow : Type 0 where
  pub dst : Text
  pub fields : Data

pub record Capture : Type 0 where
  pub timestamp : Option Text
  pub host : Text
  pub fields : Data

unfoldable pub or_unknown : Option String → String
or_unknown none = "unknown"
or_unknown (some s) = s

unfoldable pub or_finished : Text → Option Text → Text
or_finished finished_at none = finished_at
or_finished finished_at (some t) = t

abbrev pub merged_event : Text → String → String → String → String → Data → Event
merged_event timestamp source category event_type stage payload = record {
  timestamp = timestamp;
  source = source;
  category = category;
  event_type = event_type;
  stage = stage;
  pid = none;
  ppid = none;
  payload = payload;
}

-- What `build_all` is given for the events.
pub record Observed : Type 0 where
  pub events : List Event
  pub fs_diff : FsChanges
  pub resource_usage : ResourceUsage
  pub pcap_flows : List Flow
  pub dns_domains : List Text
  pub env_log : List LogRow
  pub code_log : List LogRow
  pub sni_records : List Data
  pub finished_at : Text
  pub sinkhole_records : List Capture

module _ (iso : ℕ → Text) where
  abbrev pub fs_event : Text → String → FsEntry → Event
  fs_event finished_at event_type f =
      merged_event finished_at "fs-diff" "filesystem" event_type "filesystem"
        ((codes "path", text f.path) ∷ f.details)

  abbrev pub sample_event : String → Point → Event
  sample_event event_type p = merged_event p.t "host" "resource" event_type "resource" p.fields

  abbrev pub pcap_event : Text → String → String → Data → Event
  pcap_event finished_at category event_type fields =
      merged_event finished_at "pcap" category event_type "network" fields

  -- `row.get("event") == "bulk_iteration"`
  unfoldable pub env_type : Option String → String
  env_type none = "env.key_access"
  env_type (some event) = if event == "bulk_iteration" then "env.bulk_access" else "env.key_access"

  abbrev pub env_event : LogRow → ℕ → Event
  env_event row at =
      merged_event (iso at) "instrumentation" "env" (env_type row.event) (or_unknown row.stage)
        row.fields

  abbrev pub code_event : LogRow → ℕ → Event
  code_event row at =
      merged_event (iso at) "instrumentation" "code" (concat "code." (or_unknown row.event))
        (or_unknown row.stage) row.fields

  abbrev pub capture_event : Text → Capture → Event
  capture_event finished_at r =
      merged_event (or_finished finished_at r.timestamp) "sinkhole" "network" "network.connect"
        "unknown" r.fields

  -- The loop over the rows of a log; `none` is an exception.
  unfoldable pub log_events : (LogRow → ℕ → Event) → List LogRow → Option (List Event)
  log_events event [] = some []
  log_events event (row ∷ rows) = do
    at ← row.timestamp
    events ← log_events event rows
    some (event row at ∷ events)

  -- The list before it is sorted, from the events of the two logs.
  unfoldable pub merged_with : Observed → List Event → List Event → List Event
  unfolding or_finished
  merged_with o env_events code_events =
      o.events
      ++ (map (fs_event o.finished_at "filesystem.created") o.fs_diff.created
          ++ (map (fs_event o.finished_at "filesystem.modified") o.fs_diff.modified
              ++ (map (fs_event o.finished_at "filesystem.deleted") o.fs_diff.deleted
                  ++ (map (sample_event "resource.proc_sample") o.resource_usage.proc_series
                      ++ (map (sample_event "resource.cgroup_sample") o.resource_usage.cgroup_series
                          ++ (map (λ f. pcap_event o.finished_at "network" "network.flow" f.fields)
                                o.pcap_flows
                              ++ (map
                                    (λ d.
                                      pcap_event o.finished_at "dns" "dns.domain_resolved"
                                        ((codes "domain", text d) ∷ []))
                                    o.dns_domains
                                  ++ (map (pcap_event o.finished_at "network" "network.tls_sni")
                                        o.sni_records
                                      ++ (env_events
                                          ++ (code_events
                                              ++ map (capture_event o.finished_at)
                                                  o.sinkhole_records))))))))))

  unfoldable pub merged_events : Observed → Option (List Event)
  unfolding env_type or_unknown log_events merged_with
  merged_events o = do
    env_events ← log_events env_event o.env_log
    code_events ← log_events code_event o.code_log
    some (merged_with o env_events code_events)

  -- `build_events_jsonl`; `none` is an exception.
  unfoldable pub build_events_jsonl : Observed → Option (List Event)
  unfolding merged_events
  build_events_jsonl o = do merged ← merged_events o; some (sort_by (λ e. e.timestamp) merged)
