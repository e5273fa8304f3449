-- ===== src/Signals/Near.antt =====
-- What a pair of near events is.
use mathlib.Core.Path.{subst}
use whs_dynamic.Base.{
  ℕ, ◌+◌, ◌-◌, ◌≤◌, List, [], ◌∷◌, Option, none, some, true, false, ◌≡◌, inl, inr, String, All,
  string_eq, ltb, Bool-cases, Option-cases, arith, Text,
}
use whs_dynamic.Event.{Event}
use whs_dynamic.Signals.{Pair, nearer, nearest, pairs_of, time_near}

module _ (parse_ts : Text → Option ℕ) where
  -- The gap of an event found for the time `ta`, within the window.
  abbrev pub IsFound : ℕ → ℕ → Option (Event × ℕ) → Type 0
  IsFound window ta none = Unit
  IsFound window ta (some (b, gap)) = (parse_ts b.timestamp ≡ some (ta + gap)) × (gap ≤ window)

  found :
      (window ta tb : ℕ) (b : Event) (best : Option (Event × ℕ))
      → parse_ts b.timestamp ≡ some tb
      → ltb tb ta ≡ false
      → nearer parse_ts window best (tb - ta) ≡ true
      → IsFound window ta (some (b, tb - ta))
  unfolding nearer
  found window ta tb b none q late better = ground (arith, q, late, better)
  found window ta tb b (some best) q late better = ground (arith, q, late, better)

  nearest-IsFound :
      (window ta : ℕ) (best : Option (Event × ℕ)) (bs : List Event)
      → IsFound window ta best
      → IsFound window ta (nearest parse_ts window ta best bs)
  unfolding nearest
  nearest-IsFound window ta best [] h = h
  nearest-IsFound window ta best (b ∷ bs) h = elim (Option-cases (parse_ts b.timestamp)) [
    | inl q ↦ rw (nearest, q) (nearest-IsFound window ta best bs h)
    | inr (tb, q) ↦ elim (Bool-cases (ltb tb ta)) [
      | inl early ↦ rw (nearest, q, early) (nearest-IsFound window ta best bs h)
      | inr late ↦ elim (Bool-cases (nearer parse_ts window best (tb - ta))) [
        | inl better ↦
            rw (nearest, q, late, better)
              (nearest-IsFound window ta (some (b, tb - ta)) bs
                (found window ta tb b best q late better))
        | inr worse ↦ rw (nearest, q, late, worse) (nearest-IsFound window ta best bs h)
      ]
    ]
  ]

  -- Both events of a pair have a timestamp, the second is not before the first, and the gap between them
  -- is at most the window.
  abbrev pub IsNear : ℕ → Pair → Type 0
  IsNear window p =
      (ta : ℕ) × (parse_ts p.a.timestamp ≡ some ta)
      × (parse_ts p.b.timestamp ≡ some (ta + p.gap))
      × (p.gap ≤ window)

  pairs_of-IsNear :
      (window : ℕ) (bs as' : List Event) → All (IsNear window) (pairs_of parse_ts window bs as')
  unfolding pairs_of
  pairs_of-IsNear window bs [] = tt
  pairs_of-IsNear window bs (a ∷ as') = elim (Option-cases (parse_ts a.timestamp)) [
    | inl q ↦ rw (pairs_of, q) (pairs_of-IsNear window bs as')
    | inr (ta, q) ↦ elim (Option-cases (nearest parse_ts window ta none bs)) [
      | inl none_found ↦ rw (pairs_of, q, none_found) (pairs_of-IsNear window bs as')
      | inr ((b, gap), r) ↦
          let near : IsFound window ta (some (b, gap)) =
            subst (IsFound window ta) r (nearest-IsFound window ta none bs tt) in
          rw (pairs_of, q, r) ((ta, q, near.0, near.1), pairs_of-IsNear window bs as')
    ]
  ]

  -- Every pair that `_time_near` reports is of two events with timestamps that can be read, the second
  -- not before the first and at most the window behind it, and its gap is the time between them.
  pub time_near-IsNear :
      (events : List Event) (type_a type_b : String) (window : ℕ)
      → All (IsNear window) (time_near parse_ts events type_a type_b window)
  unfolding time_near
  time_near-IsNear events type_a type_b window = pairs_of-IsNear window _ _
