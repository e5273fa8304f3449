-- ===== src/Signals/Network/Retries.antt =====
-- Which targets are reported as retried.
use whs_dynamic.Base.{
  ℕ, List, [], ◌∷◌, Option, none, some, Bool, false, ◌&&◌, ◌≡◌, ◌∙◌, ap, refl, inl, inr, Text, ◌==◌,
  nat_eq, list_eq, any, map, filter_by, ltb, find, tally, tally-IsDict, find-tally, merge_into,
  merge_into-IsDict, find-merge_into, any-entry, occurrences, arith, if◌then◌else◌,
}
use whs_dynamic.Signals.Merge.{Flow}
use whs_dynamic.Signals.Network.{target_counts, retry_patterns}

-- The target is reported.
abbrev pub is_reported : Text → List (Text × ℕ) → Bool
is_reported target patterns = any (λ c. c.0 == target) patterns

reported_entry :
    (target : Text) (d : List (Text × ℕ))
    → is_reported target (filter_by (λ c. ltb 3 c.1) d) ≡ any (λ c. c.0 == target && ltb 3 c.1) d
reported_entry target [] = refl
reported_entry target (c ∷ d) = ground (arith, reported_entry target d)

-- How often a target occurs: as a domain if it is one, and else as the destination of a flow.
abbrev pub times : List Flow → List Text → Text → ℕ
times flows domains target =
    let seen = occurrences target domains in
    if ltb 0 seen then seen else occurrences target (map (λ (f : Flow). f.dst) flows)

abbrev over_three : Option ℕ → Bool
over_three none = false
over_three (some n) = ltb 3 n

counted :
    (flows : List Flow) (domains : List Text) (target : Text)
    → over_three (elim (find target (tally domains [])) [
      | none ↦ find target (tally (map (λ (f : Flow). f.dst) flows) [])
      | some n ↦ some n
    ])
      ≡ ltb 3 (times flows domains target)
counted flows domains target = elim (find-tally target domains) [
  | inl (q, none_seen) ↦ elim (find-tally target (map (λ (f : Flow). f.dst) flows)) [
    | inl (r, none_sent) ↦ rw (q, r, none_seen, none_sent) refl
    | inr (r, sent) ↦ rw (q, r, none_seen) refl
  ]
  | inr (q, seen) ↦ rw (q) (ground (arith, seen))
]

-- A target is reported exactly if it occurs more than three times: among the domains where it is one of
-- them, and else among the destinations of the flows.
pub retry_patterns_lem :
    (flows : List Flow) (domains : List Text) (target : Text)
    → is_reported target (retry_patterns flows domains) ≡ ltb 3 (times flows domains target)
unfolding retry_patterns target_counts
retry_patterns_lem flows domains target =
    let dsts = tally (map (λ (f : Flow). f.dst) flows) [] in
    let names = tally domains [] in
    reported_entry target (merge_into dsts names)
    ∙ any-entry (ltb 3) target (merge_into dsts names)
        (merge_into-IsDict dsts names (tally-IsDict (map (λ (f : Flow). f.dst) flows) [] tt))
    ∙ ap over_three (find-merge_into target dsts names (tally-IsDict domains [] tt))
    ∙ counted flows domains target

-- A domain that occurs once among the domains, as each does in the sorted set that the capture gives,
-- is never reported as retried, however many queries for it there were and however many flows have it
-- as their destination.
pub distinct_domain_unreported :
    (flows : List Flow) (domains : List Text) (domain : Text)
    → occurrences domain domains ≡ 1
    → is_reported domain (retry_patterns flows domains) ≡ false
distinct_domain_unreported flows domains domain once =
    retry_patterns_lem flows domains domain ∙ rw once refl
