-- ===== src/Sinkhole/Lifecycle/Pending.antt =====
-- What the calls so far have left to do on the host: a resource is pending if a successful call made it and
-- no later call asked for its removal. As in the source, the return code of a removal is not looked at.
use whs_dynamic.Base.{[], eqb, if◌then◌else◌, ◌∷◌, Bool, true, false, ◌≡◌}
use whs_dynamic.Sinkhole.Lifecycle.{
  network_create, network_rm, nat_new, nat_delete_chain, nat_prerouting, nat_delete_rule, finished,
  Log, Sinkhole,
}

unfoldable pub network_pending : Log → Bool
network_pending [] = false
network_pending ((network_create n, finished code w) ∷ log) =
    let before = network_pending log in if eqb code 0 then true else before
network_pending ((network_rm n, r) ∷ log) = false
network_pending (_ ∷ log) = network_pending log

unfoldable pub chain_pending : Log → Bool
chain_pending [] = false
chain_pending ((nat_new c, finished code w) ∷ log) =
    let before = chain_pending log in if eqb code 0 then true else before
chain_pending ((nat_delete_chain c, r) ∷ log) = false
chain_pending (_ ∷ log) = chain_pending log

-- The rule that sends the traffic of the analysis to the chain.
unfoldable pub rule_pending : Log → Bool
rule_pending [] = false
rule_pending ((nat_prerouting n c, finished code w) ∷ log) =
    let before = rule_pending log in if eqb code 0 then true else before
rule_pending ((nat_delete_rule n c, r) ∷ log) = false
rule_pending (_ ∷ log) = rule_pending log

-- Before a cleanup.
pub record IsOpening (s : Sinkhole) : Type 0 where
  pub idle : s.active ≡ false
  pub no_nat : s.nat_installed ≡ false
  pub network : network_pending s.log ≡ s.network_created
  pub rule : rule_pending s.log ≡ false

pub record IsUp (s : Sinkhole) : Type 0 where
  pub active : s.active ≡ true
  pub created : s.network_created ≡ true
  pub installed : s.nat_installed ≡ true
  pub network : network_pending s.log ≡ true
  pub chain : chain_pending s.log ≡ true
  pub rule : rule_pending s.log ≡ true

pub record IsDown (s : Sinkhole) : Type 0 where
  pub active : s.active ≡ false
  pub network : network_pending s.log ≡ false
  pub rule : rule_pending s.log ≡ false
