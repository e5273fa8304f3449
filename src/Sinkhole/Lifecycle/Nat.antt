-- ===== src/Sinkhole/Lifecycle/Nat.antt =====
-- `_setup_nat` of backend/app/sinkhole.py: what its four commands leave behind.
use mathlib.Core.Path.{subst}
use whs_dynamic.Base.{
  List, [], ◌∷◌, ◌≢◌, ◌∙◌, true, ◌≡◌, refl, sym, ◌⊎◌, inl, inr, Text, arith, Bool,
}
use whs_dynamic.Sinkhole.Lifecycle.{
  Call, nat_new, nat_return, nat_dnat, nat_prerouting, Reply, finished, Log, Sinkhole, Result,
  returned, setup_nat, run_all,
}
use whs_dynamic.Sinkhole.Lifecycle.Pending.{network_pending, chain_pending, rule_pending, IsOpening}
use whs_dynamic.Sinkhole.Lifecycle.Phases.{called, Reply-cases, run_all-cases}

module _ (host : Log → Call → Reply) (s : Sinkhole) (h : IsOpening s) (c : Text) where
  new-IsOpening : IsOpening (called host (nat_new c) s)
  unfolding network_pending rule_pending
  new-IsOpening = ground arith

  return-IsOpening : IsOpening (called host (nat_return c) s)
  unfolding network_pending rule_pending
  return-IsOpening = ground arith

  dnat-IsOpening : IsOpening (called host (nat_dnat c) s)
  unfolding network_pending rule_pending
  dnat-IsOpening = ground arith

  prerouting-IsOpening :
      (n : Text)
      → ((w : List Text) → host s.log (nat_prerouting n c) ≢ finished 0 w)
      → IsOpening (called host (nat_prerouting n c) s)
  unfolding network_pending rule_pending
  prerouting-IsOpening n fails = elim (Reply-cases (host s.log (nat_prerouting n c))) [
    | inl (w, e) ↦ ground (arith, fails w e)
    | inr e ↦ ground (arith, h)
  ]

  prerouting-left :
      (n : Text) (w : List Text)
      → host s.log (nat_prerouting n c) ≡ finished 0 w
      → rule_pending (called host (nat_prerouting n c) s).log ≡ true
  unfolding rule_pending
  prerouting-left n w e = ground (arith, e)

-- The four commands either all succeed, and then the object has only its log changed and the chain and
-- the rule are there, or they do not end with success, and no rule is there.
abbrev pub Installed : (s t : Sinkhole) → Type 0
Installed s t =
    (t.active ≡ s.active)
    × (t.network_created ≡ s.network_created)
    × (network_pending t.log ≡ network_pending s.log)
    × (chain_pending t.log ≡ true)
    × (rule_pending t.log ≡ true)

abbrev pub Outcome : Sinkhole → Result Bool × Sinkhole → Type 0
Outcome s p = ((p.0 ≡ returned true) × Installed s p.1) ⊎ ((p.0 ≢ returned true) × IsOpening p.1)

module _ (host : Log → Call → Reply) (n : Text) (s : Sinkhole) (h : IsOpening s) where
  abbrev s₁ : Sinkhole
  s₁ = called host (nat_new s.nat_chain) s

  abbrev s₂ : Sinkhole
  s₂ = called host (nat_return s.nat_chain) s₁

  abbrev s₃ : Sinkhole
  s₃ = called host (nat_dnat s.nat_chain) s₂

  abbrev s₄ : Sinkhole
  s₄ = called host (nat_prerouting n s.nat_chain) s₃

  installed :
      (w : List Text)
      → host s.log (nat_new s.nat_chain) ≡ finished 0 w
      → rule_pending s₄.log ≡ true
      → Installed s s₄
  unfolding network_pending chain_pending
  installed w e r = ground (arith, e)

  -- A command that fails ends the run without success.
  ends :
      {p : Result Bool × Sinkhole}
      → {r : Result Bool} → {t : Sinkhole} → p ≡ (r, t)
      → r ≢ returned true
      → IsOpening t
      → Outcome s p
  ends q bad o = subst (Outcome s) (sym q) (inr (bad, o))

  commands-Outcome : Outcome s (
      run_all host
        (nat_new s.nat_chain
          ∷ nat_return s.nat_chain
          ∷ nat_dnat s.nat_chain
          ∷ nat_prerouting n s.nat_chain
          ∷ [])
        s)
  unfolding run_all
  commands-Outcome =
      let h₁ = new-IsOpening host s h s.nat_chain in
      let h₂ = return-IsOpening host s₁ h₁ s.nat_chain in
      let h₃ = dnat-IsOpening host s₂ h₂ s.nat_chain in
      elim (run_all-cases host (nat_new s.nat_chain)
        (nat_return s.nat_chain ∷ nat_dnat s.nat_chain ∷ nat_prerouting n s.nat_chain ∷ []) s) [
          | inr ((r, q, bad), _) ↦ ends q bad h₁
          | inl ((w, e), q) ↦
              subst (Outcome s) (sym q)
                (elim (run_all-cases host (nat_return s.nat_chain)
                  (nat_dnat s.nat_chain ∷ nat_prerouting n s.nat_chain ∷ []) s₁) [
                    | inr ((r, q, bad), _) ↦ ends q bad h₂
                    | inl (_, q) ↦
                        subst (Outcome s) (sym q)
                          (elim (run_all-cases host (nat_dnat s.nat_chain)
                            (nat_prerouting n s.nat_chain ∷ []) s₂) [
                              | inr ((r, q, bad), _) ↦ ends q bad h₃
                              | inl (_, q) ↦
                                  subst (Outcome s) (sym q)
                                    (elim (run_all-cases host (nat_prerouting n s.nat_chain) []
                                      s₃) [
                                        | inr ((r, q, bad), fails) ↦
                                            ends q bad
                                              (prerouting-IsOpening host s₃ h₃ s.nat_chain n fails)
                                        | inl ((v, f), q) ↦ subst (Outcome s) (sym q) (
                                            inl (
                                              refl,
                                              installed w e
                                                  (prerouting-left host s₃ h₃ s.nat_chain n v f),
                                            ))
                                      ])
                            ])
                  ])
        ]

  -- `_setup_nat` as a whole.
  pub setup_nat-Outcome :
      let p = setup_nat host n s in
      ((p.0 ≡ returned true) × (p.1.nat_installed ≡ true) × Installed s p.1)
      ⊎ ((p.0 ≢ returned true) × IsOpening p.1)
  unfolding setup_nat
  setup_nat-Outcome = elim commands-Outcome [
    | inl (e, o) ↦ ground (arith, e, o)
    | inr (e, o) ↦ ground (arith, e, o)
  ]

module _ (host : Log → Call → Reply) where
  chain-step :
      (c : Call) (cs : List Call) (s : Sinkhole)
      → ((r : Reply) → (log : Log) → chain_pending ((c, r) ∷ log) ≡ chain_pending log)
      → ((t : Sinkhole)
          → chain_pending t.log ≡ true
          → chain_pending (run_all host cs t).1.log ≡ true)
      → chain_pending s.log ≡ true
      → chain_pending (run_all host (c ∷ cs) s).1.log ≡ true
  chain-step c cs s quiet rest left =
      let left' = quiet (host s.log c) s.log ∙ left in
      elim (run_all-cases host c cs s) [
        | inl (_, q) ↦ rw q (rest (called host c s) left')
        | inr ((r, q, _), _) ↦ rw q left'
      ]

  last_stays :
      (v : Sinkhole) → chain_pending v.log ≡ true → chain_pending (run_all host [] v).1.log ≡ true
  unfolding run_all
  last_stays v left = left

  commands-chain :
      (n c : Text) (s : Sinkhole) (words : List Text)
      → host s.log (nat_new c) ≡ finished 0 words
      → chain_pending
          (run_all host (nat_new c ∷ nat_return c ∷ nat_dnat c ∷ nat_prerouting n c ∷ []) s).1.log
        ≡ true
  unfolding chain_pending
  commands-chain n c s words made =
      let quiet =
        chain-step (nat_return c) (nat_dnat c ∷ nat_prerouting n c ∷ []) (called host (nat_new c) s)
          (λ r log. refl)
          (λ t.
            chain-step (nat_dnat c) (nat_prerouting n c ∷ []) t (λ r log. refl)
              (λ u. chain-step (nat_prerouting n c) [] u (λ r log. refl) last_stays))
          (ground (arith, made)) in
      elim (run_all-cases host (nat_new c) (nat_return c ∷ nat_dnat c ∷ nat_prerouting n c ∷ [])
        s) [ inl (_, q) ↦ rw q quiet | inr (_, fails) ↦ ground (arith, fails words made) ]

  pub setup_nat-chain :
      (n : Text) (s : Sinkhole) (words : List Text)
      → host s.log (nat_new s.nat_chain) ≡ finished 0 words
      → chain_pending (setup_nat host n s).1.log ≡ true
  unfolding setup_nat
  setup_nat-chain n s words made = ground (arith, commands-chain n s.nat_chain s words made)
