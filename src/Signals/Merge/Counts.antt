-- ===== src/Signals/Merge/Counts.antt =====
-- The merged events of backend/app/signals.py, counted by their sources.
use whs_dynamic.Base.{
  ℕ, ◌+◌, List, [], ◌∷◌, ◌++◌, none, some, Bool, true, false, ◌||◌, ◌≡◌, ◌∙◌, refl, ◌⊎◌, inl, inr,
  Text, map, any, length, filter_by, sort_by, IsSorted, with_key, sort_by-IsSorted,
  with_key-sort_by, count-sort_by, Option-cases, arith, codes,
}
use whs_dynamic.Event.{Event, text}
use whs_dynamic.Signals.Merge.{
  LogRow, Observed, log_events, merged_with, merged_events, build_events_jsonl, fs_event,
  sample_event, pcap_event, env_event, code_event, capture_event,
}

-- How many events pass a test.
abbrev pub how_many : (Event → Bool) → List Event → ℕ
how_many p events = length (filter_by p events)

abbrev pub is_untimed : LogRow → Bool
is_untimed row = elim row.timestamp [ none ↦ true | some at ↦ false ]

abbrev pub time_of : LogRow → ℕ
time_of row = elim row.timestamp [ none ↦ 0 | some at ↦ at ]

how_many-append :
    (p : Event → Bool) (xs ys : List Event) → how_many p (xs ++ ys) ≡ how_many p xs + how_many p ys
how_many-append p [] ys = omega arith
how_many-append p (x ∷ xs) ys = ground (arith, how_many-append p xs ys)

how_many-sources :
    (p : Event → Bool) (a b c d e f g h i j k l : List Event)
    → how_many p (a ++ (b ++ (c ++ (d ++ (e ++ (f ++ (g ++ (h ++ (i ++ (j ++ (k ++ l)))))))))))
      ≡ how_many p a
        + how_many p b
        + how_many p c
        + how_many p d
        + how_many p e
        + how_many p f
        + how_many p g
        + how_many p h
        + how_many p i
        + how_many p j
        + how_many p k
        + how_many p l
how_many-sources p a b c d e f g h i j k l = omega (
  arith,
  how_many-append p a (b ++ (c ++ (d ++ (e ++ (f ++ (g ++ (h ++ (i ++ (j ++ (k ++ l)))))))))),
  how_many-append p b (c ++ (d ++ (e ++ (f ++ (g ++ (h ++ (i ++ (j ++ (k ++ l))))))))),
  how_many-append p c (d ++ (e ++ (f ++ (g ++ (h ++ (i ++ (j ++ (k ++ l)))))))),
  how_many-append p d (e ++ (f ++ (g ++ (h ++ (i ++ (j ++ (k ++ l))))))),
  how_many-append p e (f ++ (g ++ (h ++ (i ++ (j ++ (k ++ l)))))),
  how_many-append p f (g ++ (h ++ (i ++ (j ++ (k ++ l))))),
  how_many-append p g (h ++ (i ++ (j ++ (k ++ l)))),
  how_many-append p h (i ++ (j ++ (k ++ l))),
  how_many-append p i (j ++ (k ++ l)),
  how_many-append p j (k ++ l),
  how_many-append p k (l),
)

log_events_lem :
    (event : LogRow → ℕ → Event) (iso : ℕ → Text) (rows : List LogRow)
    → ((any is_untimed rows ≡ true) × (log_events iso event rows ≡ none))
      ⊎ ((any is_untimed rows ≡ false)
          × (log_events iso event rows ≡ some (map (λ row. event row (time_of row)) rows)))
unfolding log_events
log_events_lem event iso [] = inr (refl, refl)
log_events_lem event iso (row ∷ rows) = elim (Option-cases row.timestamp) [
  | inl q ↦ inl (rw q refl, rw (log_events, q) refl)
  | inr (at, q) ↦ elim (log_events_lem event iso rows) [
    | inl (u, e) ↦ inl (rw q u, rw (log_events, q, e) refl)
    | inr (u, e) ↦ inr (rw q u, rw (log_events, q, e) refl)
  ]
]

module _ (iso : ℕ → Text) (o : Observed) where
  abbrev env_events : List Event
  env_events = map (λ row. env_event iso row (time_of row)) o.env_log

  abbrev code_events : List Event
  code_events = map (λ row. code_event iso row (time_of row)) o.code_log

  -- The number of events that pass a test, source by source.
  abbrev pub count_of_sources : (Event → Bool) → ℕ
  count_of_sources p =
      how_many p o.events
      + how_many p (map (fs_event iso o.finished_at "filesystem.created") o.fs_diff.created)
      + how_many p (map (fs_event iso o.finished_at "filesystem.modified") o.fs_diff.modified)
      + how_many p (map (fs_event iso o.finished_at "filesystem.deleted") o.fs_diff.deleted)
      + how_many p (map (sample_event iso "resource.proc_sample") o.resource_usage.proc_series)
      + how_many p (map (sample_event iso "resource.cgroup_sample") o.resource_usage.cgroup_series)
      + how_many p
          (map (λ f. pcap_event iso o.finished_at "network" "network.flow" f.fields) o.pcap_flows)
      + how_many p (
          map
            (λ d.
              pcap_event iso o.finished_at "dns" "dns.domain_resolved"
                ((codes "domain", text d) ∷ []))
            o.dns_domains)
      + how_many p (map (pcap_event iso o.finished_at "network" "network.tls_sni") o.sni_records)
      + how_many p env_events
      + how_many p code_events
      + how_many p (map (capture_event iso o.finished_at) o.sinkhole_records)

  merged-count :
      (p : Event → Bool)
      → how_many p (merged_with iso o env_events code_events) ≡ count_of_sources p
  unfolding merged_with
  merged-count p = how_many-sources p _ _ _ _ _ _ _ _ _ _ _ _

  abbrev pub is_incomplete : Bool
  is_incomplete = any is_untimed o.env_log || any is_untimed o.code_log

  pub merged_events_lem :
      ((is_incomplete ≡ true) × (merged_events iso o ≡ none))
      ⊎ ((is_incomplete ≡ false)
          × (merged_events iso o ≡ some (merged_with iso o env_events code_events)))
  unfolding merged_events
  merged_events_lem = elim (log_events_lem (env_event iso) iso o.env_log) [
    | inl (u, e) ↦ inl (ground (arith, u), rw (merged_events, e) refl)
    | inr (u, e) ↦ elim (log_events_lem (code_event iso) iso o.code_log) [
      | inl (v, f) ↦ inl (ground (arith, v), rw (merged_events, e, f) refl)
      | inr (v, f) ↦ inr (ground (arith, u, v), rw (merged_events, e, f) refl)
    ]
  ]

  -- The events are built exactly if every row of the two logs has a timestamp. Then they are in the order of
  -- their timestamps, those with the same timestamp in the order in which they were merged, and as many of
  -- them pass any test as do in all the sources together, so no event is lost or made up.
  pub build_events_jsonl_lem :
      ((is_incomplete ≡ true) × (build_events_jsonl iso o ≡ none))
      ⊎ ((merged events : List Event) × (is_incomplete ≡ false)
          × (merged_events iso o ≡ some merged)
          × (build_events_jsonl iso o ≡ some events)
          × IsSorted (λ (e : Event). e.timestamp) events
          × ((t : Text)
              → with_key (λ (e : Event). e.timestamp) t events
                ≡ with_key (λ (e : Event). e.timestamp) t merged)
          × ((p : Event → Bool) → how_many p events ≡ count_of_sources p))
  unfolding build_events_jsonl
  build_events_jsonl_lem =
      let merged = merged_with iso o env_events code_events in
      elim merged_events_lem [
        | inl (u, e) ↦ inl (u, rw (build_events_jsonl, e) refl)
        | inr (u, e) ↦ inr (
          merged,
          sort_by (λ (e : Event). e.timestamp) merged,
          u,
          e,
          rw (build_events_jsonl, e) refl,
          sort_by-IsSorted (λ (e : Event). e.timestamp) merged,
          (λ t. with_key-sort_by (λ (e : Event). e.timestamp) t merged),
          (λ p. count-sort_by (λ (e : Event). e.timestamp) p merged ∙ merged-count p),
        )
      ]
