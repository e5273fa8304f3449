-- ===== src/Collectors/Tcpdump/Flows.antt =====
-- The counts of a capture, and its domains as the network signals read them.
use mathlib.Core.Path.{subst}
use whs_dynamic.Base.{
  ℕ, ◌≤◌, ◌<◌, List, [], ◌∷◌, Option, true, false, ◌≡◌, ◌∙◌, sym, refl, inl, inr, Text, codes,
  lower, has_text, length, length-take, filter_by, contains, ◌==◌, nat_eq, list_eq, list_beq_iff,
  distinct, add_distinct, count-sort_by, occurrences, count_of-tally_fresh, count_of, Bool-cases,
  arith,
}
use whs_dynamic.Signals.Merge.{Flow}
use whs_dynamic.Signals.Network.{retry_patterns}
use whs_dynamic.Signals.Network.Retries.{is_reported, distinct_domain_unreported}
use whs_dynamic.Collectors.Tcpdump.{
  FlowKey, flow_eq, Capturer, Captured, is_offline, new_capturer, start, stop, parsed_flows,
  domains, ranked, summary,
}

-- Occurrences are what passes a test for the key.
occurrences-filter_by :
    (d : Text) (xs : List Text) → occurrences d xs ≡ length (filter_by (λ x. x == d) xs)
occurrences-filter_by d [] = refl
occurrences-filter_by d (x ∷ xs) = ground (arith, occurrences-filter_by d xs)

occurrences-absent : (d : Text) (xs : List Text) → contains xs d ≡ false → occurrences d xs ≡ 0
occurrences-absent d [] h = refl
occurrences-absent d (x ∷ xs) h = elim (Bool-cases (x == d)) [
  | inl q ↦ absurd (ground (arith, h, list_beq_iff d x, (list_beq_iff x d).0 q))
  | inr q ↦ ground (arith, h, q, occurrences-absent d xs)
]

occurrences-present : (d : Text) (xs : List Text) → contains xs d ≡ true → 0 < occurrences d xs
occurrences-present d [] h = ground (arith, h)
occurrences-present d (x ∷ xs) h = elim (Bool-cases (d == x)) [
  | inl q ↦ let same : d ≡ x = (list_beq_iff d x).0 q in ground (arith, list_beq_iff x d, sym same)
  | inr q ↦ ground (arith, h, q, occurrences-present d xs)
]

occurrences-add_distinct :
    (d x : Text) (ys : List Text) → occurrences d ys ≤ 1 → occurrences d (add_distinct x ys) ≤ 1
unfolding add_distinct
occurrences-add_distinct d x ys h = elim (Bool-cases (contains ys x)) [
  | inl q ↦ rw (add_distinct, q) h
  | inr q ↦ elim (Bool-cases (x == d)) [
    | inl r ↦
        let absent = occurrences-absent x ys q in
        let same : x ≡ d = (list_beq_iff x d).0 r in
        let none_left : occurrences d ys ≡ 0 = subst (λ t. occurrences t ys ≡ 0) same absent in
        rw (add_distinct, q, r, none_left) (omega arith)
    | inr r ↦ rw (add_distinct, q, r) h
  ]
]

occurrences-distinct : (d : Text) (xs : List Text) → occurrences d (distinct xs) ≤ 1
unfolding distinct
occurrences-distinct d [] = omega arith
occurrences-distinct d (x ∷ xs) =
    occurrences-add_distinct d x (distinct xs) (occurrences-distinct d xs)

-- A domain of the capture occurs once among its domains.
occurrences-domains :
    (c : Capturer) (d : Text) → contains (domains c) d ≡ true → occurrences d (domains c) ≡ 1
unfolding domains
occurrences-domains c d h =
    let same : occurrences d (domains c) ≡ occurrences d (distinct c.dns_names) =
      occurrences-filter_by d (domains c)
      ∙ count-sort_by (λ x. x) (λ x. x == d) (distinct c.dns_names)
      ∙ sym (occurrences-filter_by d (distinct c.dns_names)) in
    omega (arith, same, occurrences-distinct d c.dns_names, occurrences-present d (domains c) h)

-- A domain that a capture saw is never reported as retried by the network signals, however often it was
-- queried: the capture keeps a set of names, and the signals count its elements.
pub domain_never_retried :
    (c : Capturer) (flows : List Flow) (d : Text)
    → contains (domains c) d ≡ true
    → is_reported d (retry_patterns flows (domains c)) ≡ false
domain_never_retried c flows d h =
    distinct_domain_unreported flows (domains c) d (occurrences-domains c d h)

module _ (parse_line : Text → Option FlowKey) (parse_dns_name : Text → Option Text) where
  -- A capture that was started on an open network and then stopped, with packets and without an error
  -- of permission, counts for each flow the lines of it, and its summary has at most as many flows as
  -- was asked for.
  pub stop_counts :
      (network : Text) (e : Captured) (k : FlowKey) (limit : ℕ)
      → is_offline network ≡ false
      → has_text (lower e.err) (codes "not permitted") ≡ false
      → has_text (lower e.err) (codes "permission") ≡ false
      → e.nonempty ≡ true
      → (count_of k
            (stop parse_line parse_dns_name e (start true true (new_capturer network))).flows
          ≡ occurrences k (parsed_flows parse_line parse_dns_name e.lines))
        × (length (
              summary limit
                (stop parse_line parse_dns_name e (start true true (new_capturer network))))
            ≤ limit)
  unfolding stop start new_capturer summary
  stop_counts network e k limit open_network permitted allowed packets = (
    rw (stop, start, open_network, permitted, allowed, packets)
        (count_of-tally_fresh k (parsed_flows parse_line parse_dns_name e.lines)),
    omega (
      arith,
      length-take limit (
          ranked (stop parse_line parse_dns_name e (start true true (new_capturer network))).flows),
    ),
  )
