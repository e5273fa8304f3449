-- ===== src/Signals.antt =====
-- backend/app/signals.py: pairs of events that are near in time, the correlations made of them, long
-- sleeps, and the writes seen only in the trace. A timestamp is parsed by an argument, in milliseconds.
pub mod Near
pub mod Tree
pub mod Merge
pub mod Process
pub mod Files
pub mod Network
pub mod Behaviour
pub mod Summary
use whs_dynamic.Base.{
  ℕ, ◌+◌, ◌-◌, List, [], ◌∷◌, ◌++◌, Option, none, some, Bool, true, false, ◌&&◌, ◌||◌, not, Text,
  codes, String, any, contains, ◌==◌, string_eq, nat_eq, list_eq, ltb, leb, length, map, filter_by,
  if◌then◌else◌,
}
use whs_dynamic.Event.{Value, null, number, text, Data, Event, get_key}

pub record Pair : Type 0 where
  pub a : Event
  pub b : Event
  pub gap : ℕ

pub record Correlation : Type 0 where
  pub title : String
  pub confidence : ℕ
  pub gap : ℕ
  pub events : List Event

-- `str(e["data"].get("module", ""))`, of a text.
unfoldable pub module_of : Event → Text
module_of e = elim (get_key (codes "module") e.payload) [
  | none ↦ []
  | some v ↦ elim v [ text s ↦ s | _ ↦ codes "?" ]
]

abbrev pub known_modules : List Text
known_modules = codes "urllib" ∷ codes "http" ∷ codes "requests" ∷ codes "socket" ∷ codes "ssl" ∷ []

-- `extra`: the traced paths that the entries do not have; an empty or absent path is left out.
unfoldable pub extra_writes : List Text → List (Option Text) → List Text
extra_writes diff_entries [] = []
extra_writes diff_entries (r ∷ realtime) =
    let rest = extra_writes diff_entries realtime in
    elim r [
      | none ↦ rest
      | some path ↦ if path == [] || contains diff_entries path then rest else path ∷ rest
    ]

-- `_merge_realtime_writes`, each entry by its path.
unfoldable pub merge_realtime_writes : List Text → List (Option Text) → List Text
unfolding extra_writes
merge_realtime_writes diff_entries realtime = diff_entries ++ extra_writes diff_entries realtime

module _ (parse_ts : Text → Option ℕ) where
  -- `gap <= window_s and (best is None or gap < best[1])`
  unfoldable pub nearer : ℕ → Option (Event × ℕ) → ℕ → Bool
  nearer window none gap = leb gap window
  nearer window (some (b, best)) gap = leb gap window && ltb gap best

  -- The inner loop, over the later events.
  unfoldable pub nearest : ℕ → ℕ → Option (Event × ℕ) → List Event → Option (Event × ℕ)
  unfolding nearer
  nearest window ta best [] = best
  nearest window ta best (b ∷ bs) = elim (parse_ts b.timestamp) [
    | none ↦ nearest window ta best bs
    | some tb ↦
        if ltb tb ta
        then nearest window ta best bs
        else nearest window ta (if nearer window best (tb - ta) then some (b, tb - ta) else best) bs
  ]

  unfoldable pub pairs_of : ℕ → List Event → List Event → List Pair
  unfolding nearest
  pairs_of window b_events [] = []
  pairs_of window b_events (a ∷ as') =
      let rest = pairs_of window b_events as' in
      elim (parse_ts a.timestamp) [
        | none ↦ rest
        | some ta ↦ elim (nearest window ta none b_events) [
          | none ↦ rest
          | some (b, gap) ↦ record { a = a; b = b; gap = gap } ∷ rest
        ]
      ]

  abbrev pub of_type : String → List Event → List Event
  of_type t = filter_by (λ e. e.event_type == t)

  -- `_time_near`
  unfoldable pub time_near : List Event → String → String → ℕ → List Pair
  unfolding pairs_of
  time_near events type_a type_b window =
      pairs_of window (of_type type_b events) (of_type type_a events)

  abbrev pub correlation : String → ℕ → Pair → Correlation
  correlation title confidence p = record {
    title = title;
    confidence = confidence;
    gap = p.gap;
    events = p.a ∷ p.b ∷ [];
  }

  -- `build_correlations`
  unfoldable pub build_correlations : List Event → List Correlation
  unfolding time_near module_of
  build_correlations events =
      map (correlation "Sensitive file read followed by network activity" 83)
        (time_near events "file.read" "network.connect" 5000)
      ++ (map (correlation "Bulk environment variable access followed by network activity" 70)
            (time_near events "env.bulk_access" "network.connect" 5000)
          ++ (map (correlation "File permission change followed by execution" 75)
                (time_near events "file.chmod" "process.exec" 10000)
              ++ map (correlation "Dynamically imported module followed by network activity" 60) (
                  filter_by (λ p. not (contains known_modules (module_of p.a)))
                    (time_near events "code.import" "network.connect" 5000))))
