-- ===== src/Analyzer/Sound.antt =====
-- What a finding of backend/app/analyzer.py says about the events.
use whs_dynamic.Base.{
  List, [], ◌∷◌, Option, none, some, Bool, true, false, ◌≡◌, ◌&&◌, Text, String, contains, ◌==◌,
  string_eq, list_eq, nat_eq, arith, refl, min, All, codes, if◌then◌else◌, inl, inr, ◌⊎◌,
  Option-cases,
}
use whs_dynamic.Event.{Value, boolean, number, Data, Event, get_key, truthy}
use whs_dynamic.Analyzer.{
  Finding, Chain, finding, medium, high, critical, shell_or_downloader, exec_info, is_shell,
  is_package_stage, is_pip, is_blocked, rule, findings_of, analyze, join_args, total, chains_of,
}

-- An event of one type is of no other.
pub type_only :
    (e : Event) (a b : String)
    → (a == b) ≡ false
    → (e.event_type == a) ≡ true
    → (e.event_type == b) ≡ false
type_only e a b differ h = rw ((string_eq.equal_iff e.event_type a).0 h) differ

execs :
    (e : Event)
    → (e.event_type == "process.exec") ≡ true
    → ((e.event_type == "file.read") ≡ false)
      × ((e.event_type == "network.connect") ≡ false)
      × ((e.event_type == "privilege.change") ≡ false)
      × ((e.event_type == "sandbox.escape_syscall") ≡ false)
execs e h = (
  type_only e "process.exec" "file.read" refl h,
  type_only e "process.exec" "network.connect" refl h,
  type_only e "process.exec" "privilege.change" refl h,
  type_only e "process.exec" "sandbox.escape_syscall" refl h,
)

-- `" ".join` gets text or a list.
unfoldable pub joinable : Option Value → Bool
joinable none = true
joinable (some v) =
    if truthy v then elim v [ boolean b ↦ false | number n ↦ false | _ ↦ true ] else true

abbrev pub args_fine : Data → Bool
args_fine d = joinable (get_key (codes "args") d)

join_args_total : (o : Option Value) → joinable o ≡ true → (argv : Text) × (join_args o ≡ some argv)
unfolding join_args joinable
join_args_total none h = ([], refl)
join_args_total (some v) h = elim (Option-cases (join_args (some v))) [
  | inl q ↦ ground (arith, q)
  | inr r ↦ r
]

module _ (show : Value → Text) (render : Data → Text) where
  -- The event is the start of a program whose name and arguments satisfy the test.
  abbrev pub ran : (Text × Text → Bool) → Event → Bool
  ran p e =
      e.event_type == "process.exec"
      && elim (exec_info show render e.payload) [ none ↦ false | some words ↦ p words ]

  abbrev pub ran_shell : Event → Bool
  ran_shell = ran (λ words. contains shell_or_downloader words.0)

  abbrev pub touched_blocked : Event → Bool
  touched_blocked e = e.event_type == "network.connect" && is_blocked show render e.payload

  -- Which finding an event gives.
  abbrev pub Reported : Event → Finding → Type 0
  Reported e f =
      ((ran_shell e ≡ true) × (f ≡ finding "process.shell_or_downloader" medium 86 e))
      ⊎ ((ran is_pip e ≡ true)
          × (is_package_stage e ≡ true)
          × (f ≡ finding "python.runtime_install" high 84 e))
      ⊎ (((e.event_type == "file.read") ≡ true) × (f ≡ finding "file.sensitive_read" high 90 e))
      ⊎ ((touched_blocked e ≡ true) × (f ≡ finding "network.metadata_or_blocked" high 92 e))
      ⊎ (((e.event_type == "privilege.change") ≡ true)
          × (f ≡ finding "privilege.change_attempt" medium 80 e))
      ⊎ (((e.event_type == "sandbox.escape_syscall") ≡ true)
          × (f ≡ finding "sandbox.escape_syscall" critical 85 e))

  -- An event of which nothing is to be reported.
  pub record IsHarmless (e : Event) : Type 0 where
    pub no_shell : ran_shell e ≡ false
    pub no_install : (is_package_stage e && ran is_pip e) ≡ false
    pub no_read : (e.event_type == "file.read") ≡ false
    pub no_blocked : touched_blocked e ≡ false
    pub no_privilege : (e.event_type == "privilege.change") ≡ false
    pub no_escape : (e.event_type == "sandbox.escape_syscall") ≡ false

  -- The findings report the events in order, and the events between are harmless.
  pub data Explains : List Event → List Finding → Type 0 where
    done : Explains [] []
    reported :
        {e : Event} {es : List Event} {f : Finding} {fs : List Finding}
        → Reported e f
        → Explains es fs
        → Explains (e ∷ es) (f ∷ fs)
    harmless :
        {e : Event} {es : List Event} {fs : List Finding}
        → IsHarmless e
        → Explains es fs
        → Explains (e ∷ es) fs

  rule-Reported : (e : Event) (f : Finding) → rule show render e ≡ some (some f) → Reported e f
  unfolding rule is_shell
  rule-Reported e f h = elim (Option-cases (exec_info show render e.payload)) [
    | inl q ↦ ground (arith, q)
    | inr (words, q) ↦ ground (arith, q)
  ]

  rule-IsHarmless : (e : Event) → rule show render e ≡ some none → IsHarmless e
  unfolding rule is_shell
  rule-IsHarmless e h = elim (Option-cases (exec_info show render e.payload)) [
    | inl q ↦ ground (arith, q, execs e)
    | inr (words, q) ↦ ground (arith, q, execs e)
  ]

  exec_info_total :
      (d : Data)
      → args_fine d ≡ true
      → (words : Text × Text) × (exec_info show render d ≡ some words)
  unfolding exec_info
  exec_info_total d fine =
      let (argv, r) = join_args_total (get_key (codes "args") d) fine in
      elim (Option-cases (exec_info show render d)) [
        | inl q ↦ ground (arith, q, r)
        | inr words ↦ words
      ]

  rule_total :
      (e : Event)
      → args_fine e.payload ≡ true
      → (found : Option Finding) × (rule show render e ≡ some found)
  unfolding rule is_shell
  rule_total e fine =
      let (words, q) = exec_info_total e.payload fine in
      elim (Option-cases (rule show render e)) [
        | inl r ↦ ground (arith, q, r)
        | inr (found, r) ↦ (found, r)
      ]

  findings_step :
      (e : Event) (es : List Event) (found : Option Finding) (fs : List Finding)
      → rule show render e ≡ some found
      → findings_of show render es ≡ some fs
      → Explains es fs
      → (fs' : List Finding) × (findings_of show render (e ∷ es) ≡ some fs') × Explains (e ∷ es) fs'
  unfolding findings_of
  findings_step e es none fs r q x = (fs, rw (r, q), harmless (rule-IsHarmless e r) x)
  findings_step e es (some f) fs r q x = (f ∷ fs, rw (r, q), reported (rule-Reported e f r) x)

  pub findings_of-Explains :
      (es : List Event)
      → All (λ e. args_fine e.payload ≡ true) es
      → (fs : List Finding) × (findings_of show render es ≡ some fs) × Explains es fs
  unfolding findings_of
  findings_of-Explains [] h = ([], refl, done)
  findings_of-Explains (e ∷ es) (fine, h) =
      let (fs, q, x) = findings_of-Explains es h in
      let (found, r) = rule_total e fine in findings_step e es found fs r q x

  -- For events whose arguments are text, a list or absent, the analysis returns. Its findings report
  -- the events in their order, each by the rule that its type, program and data meet, with that
  -- event as evidence; every event between them is harmless. Its score is the sum of the severities'
  -- scores, at most 100.
  pub analyze-Explains :
      (es : List Event)
      → All (λ e. args_fine e.payload ≡ true) es
      → (fs : List Finding) × (chains : List Chain) × (analyze show render es
          ≡ some (fs, min 100 (total fs), chains))
        × Explains es fs
  unfolding analyze
  analyze-Explains es h = let (fs, q, x) = findings_of-Explains es h in (fs, chains_of fs, rw q, x)
