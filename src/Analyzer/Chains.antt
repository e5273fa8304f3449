-- ===== src/Analyzer/Chains.antt =====
-- The behavior chain of backend/app/analyzer.py, from the events.
use whs_dynamic.Base.{
  ℕ, List, [], ◌∷◌, Option, none, some, Bool, true, ◌≡◌, refl, All, ◌==◌, string_eq, arith,
  if◌then◌else◌, starts_with, Text,
}
use whs_dynamic.Event.{Value, Data, Event}
use whs_dynamic.Analyzer.{Finding, Chain, first, is_sensitive, is_connection, chains_of, analyze}
use whs_dynamic.Analyzer.Sound.{
  args_fine, touched_blocked, Reported, Explains, done, reported, harmless, type_only,
  findings_of-Explains,
}

-- The first event that passes a test.
unfoldable pub first_event : (Event → Bool) → List Event → Option Event
first_event p [] = none
first_event p (e ∷ es) = if p e then some e else first_event p es

abbrev pub is_read : Event → Bool
is_read e = e.event_type == "file.read"

-- The evidence of a finding that is looked for.
abbrev pub evidence_of : Option Finding → Option (List Event)
evidence_of none = none
evidence_of (some f) = some f.evidence

abbrev pub alone : Option Event → Option (List Event)
alone none = none
alone (some e) = some (e ∷ [])

-- What the chains should be.
unfoldable pub expected_chains : Option Event → Option Event → List Chain
expected_chains none c = []
expected_chains (some s) none = []
expected_chains (some s) (some c) =
    record {
      title = "Sensitive data access followed by network activity";
      confidence = 83;
      events = s ∷ c ∷ [];
    }
    ∷ []

module _ (show : Value → Text) (render : Data → Text) where
  sensitive-read : (e : Event) (f : Finding) → Reported show render e f → is_sensitive f ≡ is_read e
  sensitive-read e f r = ground (
    arith,
    r,
    type_only e "process.exec" "file.read" refl,
    type_only e "network.connect" "file.read" refl,
    type_only e "privilege.change" "file.read" refl,
    type_only e "sandbox.escape_syscall" "file.read" refl,
  )

  connection-blocked :
      (e : Event) (f : Finding)
      → Reported show render e f
      → is_connection f ≡ touched_blocked show render e
  unfolding starts_with
  connection-blocked e f r = ground (
    arith,
    r,
    type_only e "process.exec" "network.connect" refl,
    type_only e "file.read" "network.connect" refl,
    type_only e "privilege.change" "network.connect" refl,
    type_only e "sandbox.escape_syscall" "network.connect" refl,
  )

  Reported-evidence : (e : Event) (f : Finding) → Reported show render e f → f.evidence ≡ e ∷ []
  Reported-evidence e f r = ground (arith, r)

  first-sensitive :
      {es : List Event}
      → {fs : List Finding} → Explains show render es fs
      → evidence_of (first is_sensitive fs) ≡ alone (first_event is_read es)
  unfolding first first_event
  first-sensitive done = refl
  first-sensitive (reported {e} {es} {f} {fs} r x) =
      ground (arith, sensitive-read e f r, Reported-evidence e f r, first-sensitive x)
  first-sensitive (harmless {e} {es} {fs} h x) = ground (arith, h.no_read, first-sensitive x)

  first-connection :
      {es : List Event}
      → {fs : List Finding} → Explains show render es fs
      → evidence_of (first is_connection fs) ≡ alone (first_event (touched_blocked show render) es)
  unfolding first first_event
  first-connection done = refl
  first-connection (reported {e} {es} {f} {fs} r x) =
      ground (arith, connection-blocked e f r, Reported-evidence e f r, first-connection x)
  first-connection (harmless {e} {es} {fs} h x) = ground (arith, h.no_blocked, first-connection x)

  chains_of-expected :
      (fs : List Finding) (s c : Option Event)
      → evidence_of (first is_sensitive fs) ≡ alone s
      → evidence_of (first is_connection fs) ≡ alone c
      → chains_of fs ≡ expected_chains s c
  unfolding chains_of expected_chains
  chains_of-expected fs s c p q = ground (arith, p, q)

  -- For events whose arguments are text, a list or absent: an analysis that returns reports one chain if the events hold a sensitive read and a connection to a metadata or
  -- blocked address, in either order, and its evidence is the first of each; it reports no chain else.
  pub analyze_chains :
      (es : List Event) (fs : List Finding) (score : ℕ) (chains : List Chain)
      → All (λ e. args_fine e.payload ≡ true) es
      → analyze show render es ≡ some (fs, score, chains)
      → chains
        ≡ expected_chains (first_event is_read es) (first_event (touched_blocked show render) es)
  unfolding analyze
  analyze_chains es fs score chains fine h =
      let (fs', q, x) = findings_of-Explains show render es fine in
      ground (
        arith,
        h,
        q,
        chains_of-expected fs' (first_event is_read es)
            (first_event (touched_blocked show render) es) (first-sensitive x) (first-connection x),
      )
