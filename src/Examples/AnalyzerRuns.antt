-- ===== src/Examples/AnalyzerRuns.antt =====
-- backend/app/analyzer.py on concrete events.
use whs_dynamic.Base.{
  min, ◌≤◌, List, [], ◌∷◌, none, some, true, false, ◌≡◌, ◌⊎◌, ◌↔◌, refl, All, has_text, starts_with,
  lower_code, Text, codes, String, any, ◌==◌, string_eq,
}
use whs_dynamic.Event.{Value, boolean, Data, Event, get_key, truthy}
use whs_dynamic.Analyzer.{
  Finding, Chain, info, high, critical, total, analyze, severity_of, finding, findings_of, rule,
  is_shell, is_blocked, score_of, chains_of, first,
}
use whs_dynamic.Analyzer.Sound.{Explains, touched_blocked, args_fine, joinable, analyze-Explains}
use whs_dynamic.Analyzer.Score.{analyze_severity}
use whs_dynamic.Analyzer.Chains.{is_read, first_event, expected_chains, analyze_chains}

abbrev event : String → Data → Event
event event_type payload = record {
  timestamp = codes "t";
  source = "gvisor";
  category = "x";
  event_type = event_type;
  stage = "import";
  pid = none;
  ppid = none;
  payload = payload;
}

abbrev read : Event
read = event "file.read" []

abbrev connection : Event
connection = event "network.connect" ((codes "blocked", boolean true) ∷ [])

abbrev show : Value → Text
show v = codes "?"

abbrev render : Data → Text
render d = codes "{}"

abbrev events : List Event
events = read ∷ connection ∷ []

abbrev findings : List Finding
findings =
    finding "file.sensitive_read" high 90 read
    ∷ finding "network.metadata_or_blocked" high 92 connection
    ∷ []

abbrev chains : List Chain
chains =
    record {
      title = "Sensitive data access followed by network activity";
      confidence = 83;
      events = read ∷ connection ∷ [];
    }
    ∷ []

analyze_run : analyze show render events ≡ some (findings, 90, chains)
unfolding analyze findings_of rule is_shell is_blocked get_key truthy total score_of chains_of first
    has_text starts_with lower_code
analyze_run = refl

events_fine : All (λ e. args_fine e.payload ≡ true) events
unfolding get_key joinable
events_fine = (refl, (refl, tt))

analyze-Explains_example :
    (fs : List Finding) × (chains' : List Chain) × (analyze show render events
      ≡ some (fs, min 100 (total fs), chains'))
    × Explains show render events fs
analyze-Explains_example = analyze-Explains show render events events_fine

analyze_severity_example :
    (90 ≤ 100)
    × ((severity_of 90 ≡ info) ↔ (findings ≡ []))
    × ((any (λ e. e.event_type == "sandbox.escape_syscall") events ≡ false)
        ⊎ (severity_of 90 ≡ high)
        ⊎ (severity_of 90 ≡ critical))
analyze_severity_example =
    analyze_severity show render events findings 90 chains events_fine analyze_run

analyze_chains_example :
    chains
    ≡ expected_chains
        (first_event is_read events)
        (first_event (touched_blocked show render) events)
analyze_chains_example =
    analyze_chains show render events findings 90 chains events_fine analyze_run
