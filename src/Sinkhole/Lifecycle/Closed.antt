-- ===== src/Sinkhole/Lifecycle/Closed.antt =====
-- `start` and `stop` of backend/app/sinkhole.py as wholes.
use whs_dynamic.Base.{List, true, false, ◌≡◌, ◌≢◌, ◌⊎◌, inl, inr, Text, arith}
use whs_dynamic.Sinkhole.Lifecycle.{
  Call, nat_new, Reply, finished, Log, Sinkhole, Result, returned, setup_nat, finish_start,
}
use whs_dynamic.Sinkhole.Lifecycle.Pending.{chain_pending, IsOpening, IsUp, IsDown}
use whs_dynamic.Sinkhole.Lifecycle.Phases.{cleanup-chain}
use whs_dynamic.Sinkhole.Lifecycle.Nat.{setup_nat-Outcome, setup_nat-chain}

-- How `start` may end.
abbrev pub Ends : Result (Unit {0}) × Sinkhole → Type 0
Ends p = (IsUp p.1 ⊎ IsDown p.1) ⊎ (((p.0 ≢ returned tt)) × (p.1.active ≡ false))

module _ (host : Log → Call → Reply) where
  -- When the command that makes the NAT chain succeeds, and `_setup_nat` as a whole does not, the start
  -- ends with the chain still there, whatever the host answers.
  pub finish_start_leaks :
      (subnet : Text) (s : Sinkhole) (words : List Text)
      → IsOpening s
      → host s.log (nat_new s.nat_chain) ≡ finished 0 words
      → (setup_nat host subnet s).0 ≢ returned true
      → chain_pending (finish_start host subnet s).1.log ≡ true
  unfolding finish_start
  finish_start_leaks subnet s words h made bad =
      let t = (setup_nat host subnet s).1 in
      let left = setup_nat-chain host subnet s words made in
      elim (setup_nat-Outcome host subnet s h) [
        | inl (e, _, _) ↦ ground (arith, bad e)
        | inr (_, o) ↦ ground (arith, bad, left, cleanup-chain host t o.no_nat)
      ]
