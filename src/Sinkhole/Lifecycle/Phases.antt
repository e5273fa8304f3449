-- ===== src/Sinkhole/Lifecycle/Phases.antt =====
-- What each phase of `start` does to the object and to the host.
use whs_dynamic.Base.{
  ℕ, zero, suc, List, [], ◌∷◌, ◌++◌, ◌≢◌, none, some, Bool, true, false, ◌≡◌, refl, ◌⊎◌, inl, inr,
  Text, codes, arith,
}
use whs_dynamic.Sinkhole.Lifecycle.{
  Call, bind, nat_delete_rule, nat_flush, nat_delete_chain, Reply, finished, permission_error,
  os_error, timeout_expired, Log, Sinkhole, Result, returned, raised, run, succeeds, which_openssl,
  generate_ca, create_docker_network, gateway_and_subnet, run_all, teardown_nat,
  remove_docker_network, cleanup_partial, open_sockets,
}
use whs_dynamic.Sinkhole.Lifecycle.Pending.{
  network_pending, chain_pending, rule_pending, IsOpening, IsDown,
}

-- The phase keeps the object in the opening state, whether it returns or raises.
abbrev pub Keeps : {A : Type 0} → Result A × Sinkhole → Type 0
Keeps (r, t) = IsOpening t

module _ (host : Log → Call → Reply) (s : Sinkhole) (h : IsOpening s) where
  pub generate_ca-IsOpening : IsOpening (generate_ca host s).1
  unfolding generate_ca run network_pending rule_pending
  generate_ca-IsOpening = ground arith

  pub which-IsOpening : IsOpening (succeeds host which_openssl s).1
  unfolding run network_pending rule_pending
  which-IsOpening = ground arith

  pub which-created : (succeeds host which_openssl s).1.network_created ≡ s.network_created
  unfolding run
  which-created = ground arith

  pub generate_ca-created : (generate_ca host s).1.network_created ≡ s.network_created
  unfolding generate_ca run
  generate_ca-created = ground arith

  pub gateway-IsOpening : IsOpening (gateway_and_subnet host s).1
  unfolding gateway_and_subnet run network_pending rule_pending
  gateway-IsOpening = ground arith

  pub create-IsOpening : s.network_created ≡ false → IsOpening (create_docker_network host s).1
  unfolding create_docker_network run network_pending rule_pending
  create-IsOpening fresh = ground arith

  pub gateway-created : (gateway_and_subnet host s).1.network_created ≡ s.network_created
  unfolding gateway_and_subnet run
  gateway-created = ground arith

  pub create-created :
      (b : Bool)
      → (create_docker_network host s).0 ≡ returned b
      → (create_docker_network host s).1.network_created ≡ b
  unfolding create_docker_network run
  create-created b e = ground (arith, e)

  pub cleanup-IsDown :
      ((cleanup_partial host s).0 ≡ returned tt) → IsDown (cleanup_partial host s).1
  unfolding cleanup_partial teardown_nat remove_docker_network run network_pending rule_pending
  cleanup-IsDown ends = ground arith

  pub cleanup-active : (cleanup_partial host s).1.active ≡ false
  unfolding cleanup_partial teardown_nat remove_docker_network run
  cleanup-active = ground arith

pub Reply-cases :
    (r : Reply)
    → ((w : List Text) × (r ≡ finished 0 w))
      ⊎ ((n : ℕ) × (w : List Text) × (r ≡ finished (suc n) w))
      ⊎ (r ≡ permission_error)
      ⊎ (r ≡ os_error)
      ⊎ (r ≡ timeout_expired)
Reply-cases (finished zero w) = inl (w, refl)
Reply-cases (finished (suc n) w) = inr (inl (n, w, refl))
Reply-cases permission_error = inr (inr (inl refl))
Reply-cases os_error = inr (inr (inr (inl refl)))
Reply-cases timeout_expired = inr (inr (inr (inr refl)))

-- The object after a call.
abbrev pub called : (Log → Call → Reply) → Call → Sinkhole → Sinkhole
called host c s = record s { log = (c, host s.log c) ∷ s.log }

module _ (host : Log → Call → Reply) where
  called-IsOpening : (port : ℕ) (s : Sinkhole) → IsOpening s → IsOpening (called host (bind port) s)
  unfolding network_pending rule_pending
  called-IsOpening port s h = ground arith

  pub open_sockets-IsOpening :
      (ports opened : List ℕ) (s : Sinkhole)
      → IsOpening s
      → IsOpening (open_sockets host ports opened s).1
  unfolding open_sockets
  open_sockets-IsOpening [] opened s h = h
  open_sockets-IsOpening (port ∷ ports) opened s h = ground (
    arith,
    called-IsOpening port s h,
    open_sockets-IsOpening ports (opened ++ port ∷ []) (called host (bind port) s)
        (called-IsOpening port s h),
  )

  pub open_sockets-created :
      (ports opened : List ℕ) (s : Sinkhole)
      → (open_sockets host ports opened s).1.network_created ≡ s.network_created
  unfolding open_sockets
  open_sockets-created [] opened s = refl
  open_sockets-created (port ∷ ports) opened s =
      ground (arith, open_sockets-created ports (opened ++ port ∷ []) (called host (bind port) s))

  -- A call either returns its code and its words or raises.
  run-cases :
      (c : Call) (s : Sinkhole)
      → ((code : ℕ) × (words : List Text) × (run host c s
            ≡ (returned (code, words), called host c s)))
        ⊎ ((e : Reply) × (run host c s ≡ (raised e, called host c s)))
  unfolding run
  run-cases c s = elim (Reply-cases (host s.log c)) [
    | inl (w, e) ↦ inl (0, w, ground (arith, e))
    | inr (inl (n, w, e)) ↦ inl (suc n, w, ground (arith, e))
    | inr (inr (inl e)) ↦ inr (permission_error, ground (arith, e))
    | inr (inr (inr (inl e))) ↦ inr (os_error, ground (arith, e))
    | inr (inr (inr (inr e))) ↦ inr (timeout_expired, ground (arith, e))
  ]

  pub teardown_nat-removes :
      (s : Sinkhole)
      → s.nat_installed ≡ true
      → (teardown_nat host s).0 ≡ returned tt
      → let t = (teardown_nat host s).1 in
        (chain_pending t.log ≡ false)
        × (rule_pending t.log ≡ false)
        × (t.network_created ≡ s.network_created)
        × (t.captures ≡ s.captures)
        × (t.bind_ip ≡ s.bind_ip)
  unfolding teardown_nat chain_pending rule_pending
  teardown_nat-removes s on ends =
      let rule =
        nat_delete_rule (elim s.nat_subnet [ none ↦ codes "None" | some n ↦ n ]) s.nat_chain in
      let s₁ = called host rule s in
      let s₂ = called host (nat_flush s.nat_chain) s₁ in
      elim (run-cases rule s) [
        | inr (e, q) ↦ ground (arith, on, ends, q)
        | inl (_, _, q) ↦ elim (run-cases (nat_flush s.nat_chain) s₁) [
          | inr (e, q₁) ↦ ground (arith, on, ends, q, q₁)
          | inl (_, _, q₁) ↦ elim (run-cases (nat_delete_chain s.nat_chain) s₂) [
            | inr (e, q₂) ↦ ground (arith, on, ends, q, q₁, q₂)
            | inl (_, _, q₂) ↦ ground (arith, on, q, q₁, q₂)
          ]
        ]
      ]

  pub remove_docker_network-removes :
      (s : Sinkhole)
      → s.network_created ≡ true
      → (remove_docker_network host s).0 ≡ returned tt
      → let t = (remove_docker_network host s).1 in
        (network_pending t.log ≡ false)
        × (chain_pending t.log ≡ chain_pending s.log)
        × (rule_pending t.log ≡ rule_pending s.log)
        × (t.captures ≡ s.captures)
        × (t.bind_ip ≡ s.bind_ip)
  unfolding remove_docker_network run network_pending chain_pending rule_pending
  remove_docker_network-removes s on ends = ground (arith, on, ends)

  pub cleanup-chain :
      (s : Sinkhole)
      → s.nat_installed ≡ false
      → chain_pending (cleanup_partial host s).1.log ≡ chain_pending s.log
  unfolding cleanup_partial teardown_nat remove_docker_network run chain_pending
  cleanup-chain s off = ground (arith, off)

  -- A command either succeeds, and the rest is run, or ends the run.
  pub run_all-cases :
      (c : Call) (cs : List Call) (s : Sinkhole)
      → (((w : List Text) × (host s.log c ≡ finished 0 w))
          × (run_all host (c ∷ cs) s ≡ run_all host cs (called host c s)))
        ⊎ (((r : Result Bool) × (run_all host (c ∷ cs) s ≡ (r, called host c s))
              × (r ≢ returned true))
            × ((w : List Text) → host s.log c ≢ finished 0 w))
  unfolding run_all run
  run_all-cases c cs s = elim (Reply-cases (host s.log c)) [
    | inl (w, e) ↦ inl ((w, e), ground (arith, e))
    | inr (inl (n, w, e)) ↦
        inr
          ((returned false, ground (arith, e), λ f. ground (arith, f)), λ v f. ground (arith, e, f))
    | inr (inr (inl e)) ↦ inr (
      (raised permission_error, ground (arith, e), λ f. ground (arith, f)),
      λ w f. ground (arith, e, f),
    )
    | inr (inr (inr (inl e))) ↦
        inr (
          (raised os_error, ground (arith, e), λ f. ground (arith, f)),
          λ w f. ground (arith, e, f),
        )
    | inr (inr (inr (inr e))) ↦ inr (
      (raised timeout_expired, ground (arith, e), λ f. ground (arith, f)),
      λ w f. ground (arith, e, f),
    )
  ]
