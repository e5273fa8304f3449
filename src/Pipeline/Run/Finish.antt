-- ===== src/Pipeline/Run/Finish.antt =====
-- How a run ends: its collectors and its report.
use mathlib.Core.Path.{subst}
use whs_dynamic.Base.{
  ℕ, List, [], ◌∷◌, none, some, Bool, true, false, ◌≡◌, sym, refl, inl, inr, ◌⊎◌, Text, All,
  All-append, Bool-cases, arith,
}
use whs_dynamic.Event.{Value, Data}
use whs_dynamic.Analyzer.{Finding, Chain, analyze}
use whs_dynamic.Pipeline.Run.{
  Action, stop, World, Options, Run, record_action, perform, uses_sinkhole, acquire, prepare,
  opening, make_directory, remove_directory, write_bundle, save, enter, try_keep, try_run,
  analyze_package, new_run, AnalysisReport, failed_report, completed_report,
}

module _ (w : World) where
  -- A property of all calls that may be made.
  perform-All :
      (P : Action → Type 0) (as' : List Action) (s : Run)
      → All P as'
      → All P s.history
      → All P (perform w as' s).1.history
  unfolding perform record_action
  perform-All P [] s h k = k
  perform-All P (a ∷ as') s (p, h) k =
      let k' = All-append P s.history (a ∷ []) k (p, tt) in
      elim (Bool-cases (w.raises s.history a)) [
        | inl q ↦ rw (perform, q) k'
        | inr q ↦ rw (perform, q) (perform-All P as' (record_action w a s) h k')
      ]

-- No call of a collector's `stop`.
abbrev pub IsNoStop : Action → Type 0
IsNoStop (stop c) = ⊥
IsNoStop _ = Unit

module _ (show : Value → Text) (render : Data → Text) (w : World) (o : Options) where
  abbrev pub entered : Bool × Run
  entered = enter w o

  abbrev pub prepared : Bool × Run
  prepared = perform w (prepare o) entered.1

  abbrev pub tried : Bool × Run
  tried = try_run w o entered.1

  abbrev pub final : Run
  final = (analyze_package show render w o).1

  final_entered : entered.0 ≡ false → final ≡ (try_keep w o tried.1).1
  unfolding analyze_package
  final_entered ready = rw (final, analyze_package, ready) refl

  prepare-IsNoStop : All IsNoStop (prepare o)
  unfolding prepare acquire uses_sinkhole
  prepare-IsNoStop = ground arith

  enter-IsNoStop : All IsNoStop entered.1.history
  unfolding enter
  enter-IsNoStop =
      let made = perform w (make_directory ∷ []) new_run in
      let opened = perform w opening made.1 in
      let before = perform-All w IsNoStop (make_directory ∷ []) new_run (tt, tt) tt in
      let inside = perform-All w IsNoStop opening made.1 (tt, (tt, (tt, tt))) before in
      let behind = perform-All w IsNoStop (remove_directory ∷ []) opened.1 (tt, tt) inside in
      elim (Bool-cases made.0) [
        | inl q ↦ rw q before
        | inr q ↦ elim (Bool-cases opened.0) [ inl p ↦ rw (q, p) behind | inr p ↦ rw (q, p) inside ]
      ]

  try_keep-IsNoStop : (s : Run) → All IsNoStop s.history → All IsNoStop (try_keep w o s).1.history
  unfolding try_keep
  try_keep-IsNoStop s h =
      let written = perform w (write_bundle ∷ []) s in
      let removed = perform w (remove_directory ∷ []) written.1 in
      let inside = perform-All w IsNoStop (write_bundle ∷ []) s (tt, tt) h in
      let behind = perform-All w IsNoStop (remove_directory ∷ []) written.1 (tt, tt) inside in
      let last = perform-All w IsNoStop (save ∷ []) removed.1 (tt, tt) behind in
      elim (Bool-cases written.0) [
        | inl q ↦ rw q behind
        | inr q ↦ elim (Bool-cases removed.0) [ inl p ↦ rw (q, p) behind | inr p ↦ rw (q, p) last ]
      ]

  -- Where the outer `try` is reached and a call in it up to the last start raises, no collector is stopped:
  -- neither a sampler nor a sinkhole that was already started.
  pub unstopped_after_failed_start :
      entered.0 ≡ false → prepared.0 ≡ true → All IsNoStop final.history
  unfolding try_run perform
  unstopped_after_failed_start begun raised =
      let before = perform-All w IsNoStop (prepare o) entered.1 prepare-IsNoStop enter-IsNoStop in
      let same : tried.1 ≡ prepared.1 = rw (try_run, raised) refl in
      subst (λ (s : Run). All IsNoStop s.history) (sym (final_entered begun))
        (try_keep-IsNoStop tried.1 (subst (λ (s : Run). All IsNoStop s.history) (sym same) before))

  -- The report of a finished run is the judgement of its events, that of a run of which a call or the
  -- analysis raised an exception is empty.
  abbrev pub IsReportOf : Bool × Run → AnalysisReport → Type 0
  IsReportOf t r =
      ((r ≡ failed_report o t.1) × ((t.0 ≡ true) ⊎ (analyze show render t.1.events ≡ none)))
      ⊎ ((findings : List Finding) × (score : ℕ) × (chains : List Chain) × (t.0 ≡ false)
          × (analyze show render t.1.events ≡ some (findings, score, chains))
          × (r ≡ completed_report w o t.1 findings score chains))

  abbrev pub keep : List Action
  keep = write_bundle ∷ remove_directory ∷ save ∷ []
