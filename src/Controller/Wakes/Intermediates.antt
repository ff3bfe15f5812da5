-- ===== src/Controller/Wakes/Intermediates.antt =====
-- The phases of an intermediate's rotation: pkirotation_intermediate.go.
use private_pki_operator.Common.{◌≢◌, String, List, [], ◌∷◌}
use private_pki_operator.Action.{Message}
use private_pki_operator.Api.{
  Phase, unset, idle, preserving_old_root, dual_trust_active, awaiting_reissuance, verifying_chain,
  complete, other_phase,
}
use private_pki_operator.Cluster.{Client}
use private_pki_operator.Controller.Discovery.{Downstream}
use private_pki_operator.Controller.StaleSweep.{sweep_intermediate_children}
use private_pki_operator.Controller.Intermediate.{
  intermediate_first_run, yield_to_owner, intermediate_skid_changed, reconcile_idle_intermediate,
  reconcile_complete_intermediate, skid_drifted, trigger_cascade,
  reconcile_awaiting_reissuance_intermediate, close_cascade, verify_cascade,
  reconcile_verifying_chain_intermediate, reconcile_intermediate,
}
use private_pki_operator.Controller.Frame.Build.{StoresStatus}
use private_pki_operator.Controller.Wakes.{
  Woken, Woken-pure, Woken-bind, Woken-transition_to, wakes_rules,
}

module _ {W : Type 0} (c : Client W) (law : StoresStatus c) where
  module _ {before : Phase} where
    Woken-sweep : Woken before (sweep_intermediate_children c)
    unfolding sweep_intermediate_children
    Woken-sweep =
        let hour = Woken-pure {W = W} {before = before} 3600 cc in search wakes_rules depth 30

    Woken-idle : awaiting_reissuance ≢ before → Woken before (reconcile_idle_intermediate c)
    unfolding reconcile_idle_intermediate intermediate_first_run intermediate_skid_changed
        yield_to_owner
    Woken-idle n =
        let sweep = Woken-sweep in
        let start = Woken-transition_to {before = before} c law awaiting_reissuance n in
        let yield = Woken-pure {W = W} {before = before} 30 cc in search wakes_rules depth 30

    Woken-close :
        complete ≢ before
        → (found : Downstream) (pending : List Message)
        → Woken before (close_cascade c found pending)
    unfolding close_cascade
    Woken-close n found [] = Woken-bind _ _ (λ _. Woken-transition_to c law complete n)
    Woken-close n found (m ∷ ms) =
        let wait = Woken-pure {W = W} {before = before} 15 cc in search wakes_rules depth 30

    Woken-drifted :
        idle ≢ before → (live during : String) → Woken before (skid_drifted c live during)
    unfolding skid_drifted
    Woken-drifted n live during =
        let back = Woken-transition_to {before = before} c law idle n in search wakes_rules depth 30

  Woken-awaiting : Woken awaiting_reissuance (reconcile_awaiting_reissuance_intermediate c)
  unfolding reconcile_awaiting_reissuance_intermediate trigger_cascade
  Woken-awaiting =
      let on = Woken-transition_to {before = awaiting_reissuance} c law verifying_chain cc in
      let back = Woken-drifted {before = awaiting_reissuance} cc in search wakes_rules depth 30

  Woken-verifying : Woken verifying_chain (reconcile_verifying_chain_intermediate c)
  unfolding reconcile_verifying_chain_intermediate verify_cascade
  Woken-verifying =
      let close = Woken-close {before = verifying_chain} cc in
      let back = Woken-drifted {before = verifying_chain} cc in search wakes_rules depth 30

  Woken-complete : Woken complete (reconcile_complete_intermediate c)
  unfolding reconcile_complete_intermediate
  Woken-complete =
      let back = Woken-transition_to {before = complete} c law idle cc in
      search wakes_rules depth 30

  pub Woken-intermediate : (before : Phase) → Woken before (reconcile_intermediate c before)
  unfolding reconcile_intermediate
  Woken-intermediate unset = Woken-idle cc
  Woken-intermediate idle = Woken-idle cc
  Woken-intermediate preserving_old_root = Woken-transition_to c law idle cc
  Woken-intermediate dual_trust_active = Woken-transition_to c law idle cc
  Woken-intermediate awaiting_reissuance = Woken-awaiting
  Woken-intermediate verifying_chain = Woken-verifying
  Woken-intermediate complete = Woken-complete
  Woken-intermediate (other_phase s) = Woken-transition_to c law idle cc
