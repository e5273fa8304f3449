-- ===== src/Signals/Behaviour/Exits.antt =====
-- When a stage is reported with processes behind its exit.
use whs_dynamic.Base.{
  ℕ, List, [], ◌∷◌, Option, none, some, Bool, true, false, ◌&&◌, ◌≡◌, refl, ap, map, inl, inr, Text,
  nat_eq, list_eq, any, any-filter_by, filter_by, ltb, Bool-cases, Option-cases,
}
use whs_dynamic.Signals.Merge.{Point}
use whs_dynamic.Signals.Behaviour.{StageTime, Residual, is_after, residual_of}

module _ (parse_ts : Text → Option ℕ) (series : List Point) where
  -- The time of a sample can be read and is greater than the stage's end.
  abbrev pub is_later : ℕ → Text → Bool
  is_later finished t = elim (parse_ts t) [ none ↦ false | some at ↦ ltb finished at ]

  -- Some sample with processes is later than the stage's end, whatever ran then.
  abbrev pub is_active : StageTime → Bool
  is_active s = elim (parse_ts s.finished_at) [
    | none ↦ false
    | some finished ↦ any (λ (p : Point). is_later finished p.t && ltb 0 p.processes) series
  ]

  abbrev pub names_of : List StageTime → List Text
  names_of = map (λ (s : StageTime). s.name)

  -- The stages that are reported with residual processes are, in their order, those of which the end can
  -- be read and behind whose end some sample with processes was taken, also where that sample was taken
  -- while a later stage ran.
  pub residual_of_lem :
      (stages : List StageTime)
      → map (λ (r : Residual). r.stage) (residual_of parse_ts series stages)
        ≡ names_of (filter_by is_active stages)
  unfolding residual_of is_after
  residual_of_lem [] = refl
  residual_of_lem (s ∷ stages) = elim (Option-cases (parse_ts s.finished_at)) [
    | inl q ↦
        let quiet : is_active s ≡ false = rw (is_active, q) refl in
        rw (residual_of, q, quiet) (residual_of_lem stages)
    | inr (finished, q) ↦
        let later =
          any-filter_by (λ (p : Point). is_later finished p.t) (λ (p : Point). ltb 0 p.processes)
            series in
        elim (Bool-cases (any (λ (p : Point). is_later finished p.t && ltb 0 p.processes) series)) [
          | inl r ↦
              let on : is_active s ≡ true = rw (is_active, q) r in
              rw (residual_of, on, q, later, r) (ap (λ t. s.name ∷ t) (residual_of_lem stages))
          | inr r ↦
              let off : is_active s ≡ false = rw (is_active, q) r in
              rw (residual_of, off, q, later, r) (residual_of_lem stages)
        ]
  ]
