-- ===== src/Pipeline/Run/Plan.antt =====
-- The order of a run's stages.
use mathlib.Core.Path.{subst}
use mathlib.Core.List.{append_assoc, append-nil}
use whs_dynamic.Base.{
  ◌≤◌, List, [], ◌∷◌, ◌++◌, Bool, true, false, ◌≡◌, ◌∙◌, sym, ap, refl, ◌⊎◌, inl, inr, Text, codes,
  map, map-append, take, length, length-take, length-append, length-map, length-filter_by,
  Bool-cases, arith, if◌then◌else◌,
}
use whs_dynamic.Event.{Value, Data}
use whs_dynamic.Pipeline.Run.{
  Action, track, World, Options, Run, stages_after, record_action, perform, uses_sinkhole, acquire,
  prepare, probed, probes, execute, finish, evaluate, opening, make_directory, remove_directory,
  write_bundle, save, enter, try_keep, try_stages, try_run, analyze_package, new_run, call, run,
  mark, collect, note_import, start, stop, observed,
}

-- The stages that a list of calls reports.
abbrev pub tracked : List Action → List Text
tracked [] = []
tracked (track name ∷ as') = name ∷ tracked as'
tracked (_ ∷ as') = tracked as'

abbrev pub names : Run → List Text
names s = map (λ e. e.0) s.stages

-- The stages of a run, in their order.
abbrev pub plan : Options → List Text → List Text
plan o scripts =
    codes "resolve"
    ∷ codes "download"
    ∷ codes "inspect"
    ∷ ((if o.sdist then codes "build" ∷ [] else [])
        ++ (codes "install"
            ∷ codes "import"
            ∷ (map (λ script. codes "probe:" ++ script) scripts
                ++ (if o.custom_command then codes "execute" ∷ [] else []))))

tracked-append : (as' bs : List Action) → tracked (as' ++ bs) ≡ tracked as' ++ tracked bs
tracked-append [] bs = refl
tracked-append (track name ∷ as') bs = ap (λ t. name ∷ t) (tracked-append as' bs)
tracked-append (call f ∷ as') bs = tracked-append as' bs
tracked-append (run f ∷ as') bs = tracked-append as' bs
tracked-append (mark ∷ as') bs = tracked-append as' bs
tracked-append (collect f ∷ as') bs = tracked-append as' bs
tracked-append (note_import ∷ as') bs = tracked-append as' bs
tracked-append (start c ∷ as') bs = tracked-append as' bs
tracked-append (stop c ∷ as') bs = tracked-append as' bs

tracked-probes :
    (scripts : List Text) (bs : List Action)
    → tracked (probes scripts ++ bs)
      ≡ map (λ script. codes "probe:" ++ script) scripts ++ tracked bs
unfolding probes
tracked-probes [] bs = refl
tracked-probes (script ∷ scripts) bs =
    ap (λ t. (codes "probe:" ++ script) ∷ t) (tracked-probes scripts bs)

names-record_action :
    (w : World) (a : Action) (s : Run) → names (record_action w a s) ≡ names s ++ tracked (a ∷ [])
unfolding record_action stages_after
names-record_action w (track name) s = map-append (λ e. e.0) s.stages _
names-record_action w (call f) s = sym (append-nil (names s))
names-record_action w (run f) s = sym (append-nil (names s))
names-record_action w mark s = sym (append-nil (names s))
names-record_action w (collect f) s = sym (append-nil (names s))
names-record_action w note_import s = sym (append-nil (names s))
names-record_action w (start c) s = sym (append-nil (names s))
names-record_action w (stop c) s = sym (append-nil (names s))

-- What calls add to the stages is a start of what they all would report, and all of it where none
-- raises.
abbrev Adds : Run → List Text → Bool × Run → Type 0
Adds s plan' (raised, s') =
    (done rest : List Text) × (plan' ≡ done ++ rest)
    × (names s' ≡ names s ++ done)
    × ((raised ≡ true) ⊎ (rest ≡ []))

perform-Adds : (w : World) (as' : List Action) (s : Run) → Adds s (tracked as') (perform w as' s)
unfolding perform
perform-Adds w [] s = ([], [], refl, sym (append-nil (names s)), inr refl)
perform-Adds w (a ∷ as') s = elim (Bool-cases (w.raises s.history a)) [
  | inl q ↦
      rw (perform, q)
        (
          tracked (a ∷ []),
          tracked as',
          tracked-append (a ∷ []) as',
          names-record_action w a s,
          inl refl,
        )
  | inr q ↦
      let (done, rest, e, f, g) = perform-Adds w as' (record_action w a s) in
      rw (perform, q)
        (
          tracked (a ∷ []) ++ done,
          rest,
          tracked-append (a ∷ []) as'
              ∙ ap (λ t. tracked (a ∷ []) ++ t) e
              ∙ sym (append_assoc (tracked (a ∷ [])) done rest),
          f
              ∙ ap (λ t. t ++ done) (names-record_action w a s)
              ∙ append_assoc (names s) (tracked (a ∷ [])) done,
          g,
        )
]

-- Calls that report no stage.
sequence_quiet :
    (s : Run) (plan' : List Text) (r r' : Bool × Run)
    → Adds s plan' r
    → Adds r.1 [] r'
    → Adds s plan' (if r.0 then true else r'.0, r'.1)
sequence_quiet s plan' (b, s1) (c, s2) (done, rest, e, f, g) ([], rest', e', f', g') = (
  done,
  rest,
  e,
  f' ∙ append-nil (names s1) ∙ f,
  elim g [ inl q ↦ inl (rw q refl) | inr q ↦ inr q ],
)
sequence_quiet s plan' (b, s1) (c, s2) (done, rest, e, f, g) (x ∷ done', rest', e', f', g') =
    absurd (ground (arith, e'))

-- Calls behind calls that did not raise.
sequence_ok :
    (s s1 : Run) (p q : List Text) (r : Bool × Run)
    → Adds s p (false, s1)
    → Adds s1 q r
    → Adds s (p ++ q) r
sequence_ok s s1 p q r (done, rest, e, f, g) (done', rest', e', f', g') =
    let full : rest ≡ [] = elim g [ inl wrong ↦ absurd (ground (arith, wrong)) | inr h ↦ h ] in
    let all_done : p ≡ done = e ∙ ap (λ t. done ++ t) full ∙ append-nil done in
    (
      done ++ done',
      rest',
      ap (λ t. t ++ q) all_done ∙ ap (λ t. done ++ t) e' ∙ sym (append_assoc done done' rest'),
      f' ∙ ap (λ t. t ++ done') f ∙ append_assoc (names s) done done',
      g',
    )

-- No calls behind calls that raised.
sequence_raised : (s s1 : Run) (p q : List Text) → Adds s p (true, s1) → Adds s (p ++ q) (true, s1)
sequence_raised s s1 p q (done, rest, e, f, g) =
    (done, rest ++ q, ap (λ t. t ++ q) e ∙ append_assoc done rest q, f, inl refl)

sequence_calls :
    (s : Run) (p q : List Text) (r r' : Bool × Run)
    → Adds s p r
    → Adds r.1 q r'
    → Adds s (p ++ q) (if r.0 then (true, r.1) else r')
sequence_calls s p q (true, s1) r' h k = sequence_raised s s1 p q h
sequence_calls s p q (false, s1) r' h k = sequence_ok s s1 p q r' h k

-- Calls that report no stage keep the names.
names_kept : (s : Run) (r : Bool × Run) → Adds s [] r → names r.1 ≡ names s
names_kept s r ([], rest, e, f, g) = f ∙ append-nil (names s)
names_kept s r (x ∷ done, rest, e, f, g) = absurd (ground (arith, e))

module _ (w : World) (o : Options) where
  tracked-prepare : tracked (prepare o) ≡ codes "resolve" ∷ codes "download" ∷ codes "inspect" ∷ []
  unfolding prepare acquire uses_sinkhole
  tracked-prepare = ground arith

  tracked-finish : tracked (finish o) ≡ []
  unfolding finish uses_sinkhole
  tracked-finish = ground arith

  try_stages-Adds : (s : Run) → Adds s (tracked (execute w o)) (try_stages w o s)
  unfolding try_stages
  try_stages-Adds s =
      let body = perform w (execute w o) s in
      let end = perform-Adds w (finish o) body.1 in
      sequence_quiet s (tracked (execute w o)) body (perform w (finish o) body.1)
        (perform-Adds w (execute w o) s)
        (subst (λ p. Adds body.1 p (perform w (finish o) body.1)) tracked-finish end)

  try_run-Adds : (s : Run) → Adds s (tracked (prepare o) ++ tracked (execute w o)) (try_run w o s)
  unfolding try_run
  try_run-Adds s =
      let before = perform w (prepare o) s in
      let staged = try_stages w o before.1 in
      sequence_calls s (tracked (prepare o)) (tracked (execute w o)) before
        (if staged.0 then (true, staged.1) else perform w evaluate staged.1)
        (perform-Adds w (prepare o) s)
        (subst
          (λ p.
            Adds before.1 p (if staged.0 then (true, staged.1) else perform w evaluate staged.1))
          (append-nil (tracked (execute w o)))
          (sequence_calls before.1 (tracked (execute w o)) [] staged (perform w evaluate staged.1)
            (try_stages-Adds before.1) (perform-Adds w evaluate staged.1)))

  quiet-names :
      (as' : List Action) (s : Run) → tracked as' ≡ [] → names (perform w as' s).1 ≡ names s
  quiet-names as' s quiet =
      names_kept s (perform w as' s)
        (subst (λ p. Adds s p (perform w as' s)) quiet (perform-Adds w as' s))

  enter-names : names (enter w o).1 ≡ []
  unfolding enter
  enter-names =
      let made = perform w (make_directory ∷ []) new_run in
      let opened = perform w opening made.1 in
      let before : names made.1 ≡ [] = quiet-names (make_directory ∷ []) new_run refl in
      let inside : names opened.1 ≡ [] = quiet-names opening made.1 refl ∙ before in
      let behind = quiet-names (remove_directory ∷ []) opened.1 refl ∙ inside in
      elim (Bool-cases made.0) [
        | inl q ↦ rw q before
        | inr q ↦ elim (Bool-cases opened.0) [ inl p ↦ rw (q, p) behind | inr p ↦ rw (q, p) inside ]
      ]

  try_keep-names : (s : Run) → names (try_keep w o s).1 ≡ names s
  unfolding try_keep
  try_keep-names s =
      let written = perform w (write_bundle ∷ []) s in
      let removed = perform w (remove_directory ∷ []) written.1 in
      let inside : names written.1 ≡ names s = quiet-names (write_bundle ∷ []) s refl in
      let behind = quiet-names (remove_directory ∷ []) written.1 refl ∙ inside in
      let last = quiet-names (save ∷ []) removed.1 refl ∙ behind in
      elim (Bool-cases written.0) [
        | inl q ↦ rw q behind
        | inr q ↦ elim (Bool-cases removed.0) [ inl p ↦ rw (q, p) behind | inr p ↦ rw (q, p) last ]
      ]

  tracked-last :
      tracked (if o.custom_command then observed (codes "execute") else [])
      ≡ (if o.custom_command then codes "execute" ∷ [] else [])
  tracked-last = ground arith

  tracked-execute : tracked (prepare o) ++ tracked (execute w o) ≡ plan o (probed w)
  unfolding execute
  tracked-execute =
      let rest =
        tracked-probes (probed w) (if o.custom_command then observed (codes "execute") else [])
        ∙ ap (λ t. map (λ script. codes "probe:" ++ script) (probed w) ++ t) tracked-last in
      rw tracked-prepare
        (elim (Bool-cases o.sdist) [ inl q ↦ rw (q, rest) refl | inr q ↦ rw (q, rest) refl ])

  plan_short : length (plan o (probed w)) ≤ 10
  unfolding probed
  plan_short =
      let few = length-filter_by w.exists (take 3 w.scripts) in
      let most = length-take 3 w.scripts in
      let scripts = length-map (λ script. codes "probe:" ++ script) (probed w) in
      let last : length (if o.custom_command then codes "execute" ∷ [] else []) ≤ 1 =
        ground arith in
      let ends =
        length-append (map (λ script. codes "probe:" ++ script) (probed w))
          (if o.custom_command then codes "execute" ∷ [] else []) in
      elim (Bool-cases o.sdist) [
        | inl q ↦ rw q (omega (arith, few, most, scripts, last, ends))
        | inr q ↦ rw q (omega (arith, few, most, scripts, last, ends))
      ]

  -- The stages of a run are a start of the plan: resolve, download, inspect, build for a source
  -- distribution only, install, import, a probe for each of at most three scripts, and the custom
  -- command if there is one.
  pub stages_planned :
      (show : Value → Text) (render : Data → Text)
      → (rest : List Text) × (plan o (probed w) ≡ names (analyze_package show render w o).1 ++ rest)
        × (length (names (analyze_package show render w o).1) ≤ 10)
  unfolding analyze_package
  stages_planned show render =
      let (done, rest, e, f, g) = try_run-Adds (enter w o).1 in
      let whole : plan o (probed w) ≡ done ++ rest = sym tracked-execute ∙ e in
      let kept =
        try_keep-names (try_run w o (enter w o).1).1 ∙ f ∙ ap (λ t. t ++ done) enter-names in
      elim (Bool-cases (enter w o).0) [
        | inl q ↦
            let none_run : names (analyze_package show render w o).1 ≡ [] =
              rw (analyze_package, q) enter-names in
            (
              plan o (probed w),
              ap (λ t. t ++ plan o (probed w)) (sym none_run),
              omega (arith, ap length none_run),
            )
        | inr q ↦
            let run_names : names (analyze_package show render w o).1 ≡ done =
              rw (analyze_package, q) kept in
            (
              rest,
              whole ∙ ap (λ t. t ++ rest) (sym run_names),
              omega (
                arith,
                plan_short,
                ap length whole,
                length-append done rest,
                ap length run_names,
              ),
            )
      ]
