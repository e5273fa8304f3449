-- ===== src/Analyzer.antt =====
-- backend/app/analyzer.py, and the severity of a report in backend/app/package.py. Python's `str` of a
-- value that is no text, and of a whole dictionary, are arguments. `none` is a TypeError out of `join`.
pub mod Sound
pub mod Score
pub mod Chains
use whs_dynamic.Base.{
  ℕ, ◌+◌, min, List, [], ◌∷◌, ◌++◌, Option, none, some, Bool, true, false, ◌&&◌, ◌||◌, not, map,
  Text, codes, String, lower, has_text, starts_with, join, leb, ◌==◌, string_eq, nat_eq, list_eq,
  contains, ◌>>=◌, if◌then◌else◌,
}
use whs_dynamic.Event.{Value, null, boolean, number, text, texts, Data, get_key, truthy, Event}

pub data Severity : Type 0 where
  info low medium high critical : Severity

-- `_SCORES`
unfoldable pub score_of : Severity → ℕ
score_of info = 0
score_of low = 10
score_of medium = 25
score_of high = 45
score_of critical = 70

-- The confidence is in hundredths.
pub record Finding : Type 0 where
  pub rule_id : Text
  pub severity : Severity
  pub confidence : ℕ
  pub stage : String
  pub evidence : List Event

pub record Chain : Type 0 where
  pub title : String
  pub confidence : ℕ
  pub events : List Event

-- `_SHELL_OR_DOWNLOADER`
abbrev pub shell_or_downloader : List Text
shell_or_downloader =
    codes "curl"
    ∷ codes "wget"
    ∷ codes "bash"
    ∷ codes "sh"
    ∷ codes "dash"
    ∷ codes "zsh"
    ∷ codes "ksh"
    ∷ []

-- `s.rsplit("/", 1)[-1]`
unfoldable pub after_slash : Text → Text → Text
after_slash word [] = word
after_slash word (c ∷ s) = after_slash (if c == b'/' then [] else word ++ c ∷ []) s

-- `" ".join(data.get("args") or [])`
unfoldable pub join_args : Option Value → Option Text
join_args none = some []
join_args (some v) =
    if truthy v
    then elim v [
      | null ↦ some []
      | boolean b ↦ none
      | number n ↦ none
      | text s ↦ some (join (codes " ") (map (λ c. c ∷ []) s))
      | texts ts ↦ some (join (codes " ") ts)
    ]
    else some []

abbrev pub finding : String → Severity → ℕ → Event → Finding
finding rule_id severity confidence e = record {
  rule_id = codes rule_id;
  severity = severity;
  confidence = confidence;
  stage = e.stage;
  evidence = e ∷ [];
}

-- `event.stage not in ("build", "install")`
unfoldable pub is_package_stage : Event → Bool
is_package_stage e = not (e.stage == "build" || e.stage == "install")

-- `exe in ("pip", "pip3") or (exe in ("python", "python3") and "pip" in argv)`
unfoldable pub is_pip : Text × Text → Bool
is_pip (exe, argv) =
    exe == codes "pip"
    || exe == codes "pip3"
    || (exe == codes "python" || exe == codes "python3") && has_text argv (codes "pip")

-- `sum(_SCORES[f.severity] for f in findings)`
unfoldable pub total : List Finding → ℕ
unfolding score_of
total [] = 0
total (f ∷ fs) = score_of f.severity + total fs

-- `next((f for f in findings if p(f)), None)`
unfoldable pub first : (Finding → Bool) → List Finding → Option Finding
first p [] = none
first p (f ∷ fs) = if p f then some f else first p fs

abbrev pub is_sensitive : Finding → Bool
is_sensitive f = f.rule_id == codes "file.sensitive_read"

abbrev pub is_connection : Finding → Bool
is_connection f = starts_with f.rule_id (codes "network.")

unfoldable pub chains_of : List Finding → List Chain
unfolding first
chains_of fs = elim (first is_sensitive fs) [
  | none ↦ []
  | some sensitive ↦ elim (first is_connection fs) [
    | none ↦ []
    | some connection ↦
        record {
          title = "Sensitive data access followed by network activity";
          confidence = 83;
          events = sensitive.evidence ++ connection.evidence;
        }
        ∷ []
  ]
]

module _ (show : Value → Text) (render : Data → Text) where
  unfoldable pub to_text : Option Value → Option Value → Text
  to_text (some (text s)) other = s
  to_text (some v) other = show v
  to_text none (some (text s)) = s
  to_text none (some v) = show v
  to_text none none = []

  -- `_exec_info`
  unfoldable pub exec_info : Data → Option (Text × Text)
  unfolding after_slash to_text join_args
  exec_info d = elim (get_key (codes "executable") d) [
    | some v ↦ (do
      argv ← join_args (get_key (codes "args") d)
      some (lower (after_slash [] (to_text (some v) none)), lower argv))
    | none ↦ some (
      lower (after_slash [] (to_text (get_key (codes "exe") d) (get_key (codes "comm") d))),
      lower (to_text (get_key (codes "argv") d) (get_key (codes "args") d)),
    )
  ]

  -- The first test of the rules.
  unfoldable pub is_shell : Event → Option Bool
  is_shell e =
      if e.event_type == "process.exec"
      then (do (exe, _) ← exec_info e.payload; some (contains shell_or_downloader exe))
      else some false

  -- `"169.254.169.254" in text or event.data.get("blocked")`
  unfoldable pub is_blocked : Data → Bool
  is_blocked d =
      has_text (lower (render d)) (codes "169.254.169.254")
      || elim (get_key (codes "blocked") d) [ none ↦ false | some v ↦ truthy v ]

  -- The body of the loop: the finding of one event, if there is any.
  unfoldable pub rule : Event → Option (Option Finding)
  unfolding is_shell is_blocked is_package_stage is_pip
  rule e = do
    shell ← is_shell e
    (if shell
        then some (some (finding "process.shell_or_downloader" medium 86 e))
        else if e.event_type == "file.read"
        then some (some (finding "file.sensitive_read" high 90 e))
        else if e.event_type == "network.connect" && is_blocked e.payload
        then some (some (finding "network.metadata_or_blocked" high 92 e))
        else if e.event_type == "process.exec" && is_package_stage e
        then (do
          words ← exec_info e.payload
          some (if is_pip words then some (finding "python.runtime_install" high 84 e) else none))
        else if e.event_type == "privilege.change"
        then some (some (finding "privilege.change_attempt" medium 80 e))
        else if e.event_type == "sandbox.escape_syscall"
        then some (some (finding "sandbox.escape_syscall" critical 85 e))
        else some none)

  unfoldable pub findings_of : List Event → Option (List Finding)
  findings_of [] = some []
  findings_of (e ∷ es) = do
    found ← rule e
    fs ← findings_of es
    some (elim found [ none ↦ fs | some f ↦ f ∷ fs ])

  -- `analyze`
  unfoldable pub analyze : List Event → Option (List Finding × ℕ × List Chain)
  unfolding total chains_of
  analyze es = do fs ← findings_of es; some (fs, min 100 (total fs), chains_of fs)

-- The severity in the summary of a report.
unfoldable pub severity_of : ℕ → Severity
severity_of score =
    if leb 80 score
    then critical
    else if leb 60 score
    then high
    else if leb 40 score
    then medium
    else if leb 20 score
    then low
    else info
