-- ===== src/Analyzer/Score.antt =====
-- The score and the severity of an analysis of backend/app/analyzer.py.
use whs_dynamic.Base.{
  ℕ, ◌≤◌, List, [], some, true, false, ◌≡◌, ◌↔◌, ◌⊎◌, refl, All, any, ◌==◌, string_eq, Bool-cases,
  inl, inr, arith, Text,
}
use whs_dynamic.Event.{Value, Data, Event}
use whs_dynamic.Analyzer.{
  Finding, Chain, info, high, critical, score_of, total, analyze, severity_of,
}
use whs_dynamic.Analyzer.Sound.{
  args_fine, Reported, Explains, done, reported, harmless, type_only, analyze-Explains,
}

module _ (show : Value → Text) (render : Data → Text) where
  Reported-score : (e : Event) (f : Finding) → Reported show render e f → 25 ≤ score_of f.severity
  unfolding score_of
  Reported-score e f h = ground (arith, h)

  escape-score :
      (e : Event) (f : Finding)
      → (e.event_type == "sandbox.escape_syscall") ≡ true
      → Reported show render e f
      → 70 ≤ score_of f.severity
  unfolding score_of
  escape-score e f h r = ground (
    arith,
    r,
    type_only e "sandbox.escape_syscall" "process.exec" refl h,
    type_only e "sandbox.escape_syscall" "file.read" refl h,
    type_only e "sandbox.escape_syscall" "network.connect" refl h,
    type_only e "sandbox.escape_syscall" "privilege.change" refl h,
  )

  total-least :
      {es : List Event}
      → {fs : List Finding} → Explains show render es fs
      → (fs ≡ []) ⊎ (25 ≤ total fs)
  unfolding total
  total-least done = inl refl
  total-least (reported {e} {es} {f} {fs} r x) = ground (arith, Reported-score e f r)
  total-least (harmless h x) = total-least x

  total-escape :
      {es : List Event}
      → {fs : List Finding} → Explains show render es fs
      → any (λ e. e.event_type == "sandbox.escape_syscall") es ≡ true
      → 70 ≤ total fs
  unfolding total
  total-escape done h = ground (arith, h)
  total-escape (reported {e} {es} {f} {fs} r x) h =
      elim (Bool-cases (e.event_type == "sandbox.escape_syscall")) [
        | inl q ↦ ground (arith, escape-score e f q r)
        | inr q ↦ ground (arith, q, h, total-escape x)
      ]
  total-escape (harmless {e} {es} {fs} i x) h = total-escape x (ground (arith, i.no_escape, h))

  -- For events whose arguments are text, a list or absent: of an analysis that returns, the score is at most 100, the severity is INFO exactly when nothing was
  -- found, and a syscall for a sandbox escape anywhere in it makes the severity HIGH or CRITICAL.
  pub analyze_severity :
      (es : List Event) (fs : List Finding) (score : ℕ) (chains : List Chain)
      → All (λ e. args_fine e.payload ≡ true) es
      → analyze show render es ≡ some (fs, score, chains)
      → (score ≤ 100)
        × ((severity_of score ≡ info) ↔ (fs ≡ []))
        × ((any (λ e. e.event_type == "sandbox.escape_syscall") es ≡ false)
            ⊎ (severity_of score ≡ high)
            ⊎ (severity_of score ≡ critical))
  unfolding severity_of total
  analyze_severity es fs score chains fine h =
      let (fs', chains', q, x) = analyze-Explains show render es fine in
      elim (Bool-cases (any (λ e. e.event_type == "sandbox.escape_syscall") es)) [
        | inl some_escape ↦ ground (arith, h, q, total-least x, total-escape x some_escape)
        | inr none_escapes ↦ ground (arith, h, q, total-least x, none_escapes)
      ]
