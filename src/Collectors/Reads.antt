-- ===== src/Collectors/Reads.antt =====
-- What a collected event vouches for.
use whs_dynamic.Base.{
  ℕ, List, [], ◌∷◌, ◌++◌, Option, none, some, Bool, true, false, ◌≡◌, inl, inr, Text, codes, String,
  take, All, All-append, leb, length, ◌==◌, string_eq, nat_eq, list_eq, Bool-cases, Option-cases,
  arith, if◌then◌else◌,
}
use whs_dynamic.Event.{text, Event, get_key}
use whs_dynamic.Collectors.{
  Entry, Patterns, sensitive, Counts, entry_events, open_events, mentions, exit_events, count,
  collect_lines, collect,
}

-- A read is of a path with one of the sensitive parts.
abbrev pub reads_sensitive : Event → Bool
reads_sensitive e =
    if e.event_type == "file.read"
    then elim (get_key (codes "path") e.payload) [
      | none ↦ false
      | some v ↦ elim v [ text path ↦ mentions sensitive path | _ ↦ false ]
    ]
    else true

module _ (now : Text) (p : Patterns) (stage : String) where
  -- The event is of this stage, and a read is a sensitive one.
  abbrev pub IsVouched : Event → Type 0
  IsVouched e = (e.stage ≡ stage) × (reads_sensitive e ≡ true)

  open_events-IsVouched : (e : Entry) (args : Text) → All IsVouched (open_events now p stage e args)
  unfolding open_events get_key
  open_events-IsVouched e args = ground arith

  entry_events-IsVouched :
      (e : Entry) (args : Text) → All IsVouched (entry_events now p stage e args)
  unfolding entry_events get_key
  entry_events-IsVouched e args = ground (arith, open_events-IsVouched e args)

  exit_events-IsVouched : (line : Text) → All IsVouched (exit_events now p stage line)
  unfolding exit_events
  exit_events-IsVouched line = ground arith

  collect_lines-IsVouched :
      (limit : ℕ) (lines : List Text) (events : List Event) (counts : Counts now p stage)
      → All IsVouched events
      → All IsVouched (collect_lines now p stage limit lines (events, counts)).0
  unfolding collect_lines
  collect_lines-IsVouched limit [] events counts h = h
  collect_lines-IsVouched limit (line ∷ lines) events counts h =
      elim (Option-cases (p.strace_line line)) [
        | inl q ↦
            rw (collect_lines, q)
              (collect_lines-IsVouched limit lines _ counts
                (All-append _ events _ h (exit_events-IsVouched line)))
        | inr (e, q) ↦
            let h' = All-append _ events _ h (entry_events-IsVouched e (take 512 e.args)) in
            let more =
              collect_lines-IsVouched limit lines _ (count now p stage e.syscall counts) h' in
            elim (Bool-cases
              (leb limit (length (events ++ entry_events now p stage e (take 512 e.args))))) [
                | inl r ↦ rw (collect_lines, q, r) h'
                | inr r ↦ rw (collect_lines, q, r) more
              ]
      ]

  -- Whatever the log files hold and whatever the limit is, every event that is collected is of the stage
  -- it is collected for, and every `file.read` event among them has a path with a sensitive part.
  pub collect-IsVouched :
      (limit : ℕ) (files : List (Option (List Text))) (events : List Event)
      (counts : Counts now p stage)
      → All IsVouched events
      → All IsVouched (collect now p stage limit files (events, counts)).0
  unfolding collect
  collect-IsVouched limit [] events counts h = h
  collect-IsVouched limit (none ∷ files) events counts h =
      collect-IsVouched limit files events counts h
  collect-IsVouched limit (some lines ∷ files) events counts h =
      let (events', counts') = collect_lines now p stage limit lines (events, counts) in
      let h' = collect_lines-IsVouched limit lines events counts h in
      elim (Bool-cases
        (leb limit (length (collect_lines now p stage limit lines (events, counts)).0))) [
          | inl r ↦ rw (collect, r) h'
          | inr r ↦ rw (collect, r) (collect-IsVouched limit files _ _ h')
        ]
