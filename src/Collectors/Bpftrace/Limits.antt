-- ===== src/Collectors/Bpftrace/Limits.antt =====
-- The observations are limited and are all of programs that are not ignored.
use whs_dynamic.Base.{
  ℕ, ◌+◌, ◌≤◌, ◌<◌, List, [], ◌∷◌, Option, none, some, Bool, true, false, ◌≡◌, inl, inr, Text,
  length, length-append, leb, contains, nat_eq, list_eq, All, All-append, Bool-cases, Option-cases,
  arith,
}
use whs_dynamic.Collectors.Bpftrace.{
  Match, Observation, Ended, ignored, new_tracer, observation, add, parse_line, observe, start,
  stop,
}

-- The program is not an ignored one.
abbrev pub IsWatched : Observation → Type 0
IsWatched o = contains ignored o.comm ≡ false

observation-IsWatched : (m : Match) → All IsWatched (add [] (observation m))
unfolding observation add
observation-IsWatched m = ground arith

All-add :
    (seen : List Observation) (o : Option Observation)
    → All IsWatched seen
    → All IsWatched (add [] o)
    → All IsWatched (add seen o)
unfolding add
All-add seen none h k = h
All-add seen (some o) h k = All-append IsWatched seen (o ∷ []) h k

length-add :
    (seen : List Observation) (o : Option Observation) → length (add seen o) ≤ length seen + 1
unfolding add
length-add seen none = omega arith
length-add seen (some o) = omega (arith, length-append seen (o ∷ []))

module _ (pattern : Text → Option Match) where
  parse_line-IsWatched : (line : Text) → All IsWatched (add [] (parse_line pattern line))
  unfolding parse_line add
  parse_line-IsWatched line = elim (Option-cases (pattern line)) [
    | inl q ↦ rw (parse_line, q) tt
    | inr (m, q) ↦ rw (parse_line, q) (observation-IsWatched m)
  ]

  observe-IsWatched :
      (limit : ℕ) (lines : List Text) (seen : List Observation)
      → All IsWatched seen
      → All IsWatched (observe pattern limit lines seen)
  unfolding observe
  observe-IsWatched limit [] seen h = h
  observe-IsWatched limit (line ∷ lines) seen h =
      let seen' = add seen (parse_line pattern line) in
      let h' = All-add seen (parse_line pattern line) h (parse_line-IsWatched line) in
      elim (Bool-cases (leb limit (length seen'))) [
        | inl q ↦ rw (observe, q) h'
        | inr q ↦ rw (observe, q) (observe-IsWatched limit lines seen' h')
      ]

  length-observe :
      (limit : ℕ) (lines : List Text) (seen : List Observation)
      → length seen < limit
      → length (observe pattern limit lines seen) ≤ limit
  unfolding observe
  length-observe limit [] seen h = omega arith
  length-observe limit (line ∷ lines) seen h =
      let seen' = add seen (parse_line pattern line) in
      let few = length-add seen (parse_line pattern line) in
      elim (Bool-cases (leb limit (length seen'))) [
        | inl q ↦ rw (observe, q) (omega (arith, few))
        | inr q ↦ rw (observe, q) (length-observe limit lines seen' (ground (arith, q)))
      ]

  -- A collector that was started and then stopped with a positive limit has at most that many
  -- observations, none of a program that is to be ignored, whatever the subprocess wrote.
  pub stop_limited :
      (first_line : Text → Text) (limit : ℕ) (e : Ended) (found started : Bool)
      → 0 < limit
      → (length (stop pattern first_line limit e (start found started new_tracer)).observations
          ≤ limit)
        × All IsWatched
            (stop pattern first_line limit e (start found started new_tracer)).observations
  unfolding stop start
  stop_limited first_line limit e false started h = (omega arith, tt)
  stop_limited first_line limit e true false h = (omega arith, tt)
  stop_limited first_line limit e true true h =
      (length-observe limit e.lines [] h, observe-IsWatched limit e.lines [] tt)
