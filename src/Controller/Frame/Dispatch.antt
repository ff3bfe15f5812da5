-- ===== src/Controller/Frame/Dispatch.antt =====
-- The dispatch of a reconcile, for frames that allow every phase and every change of the status.
use private_pki_operator.Common.{◌≢◌, refl}
use private_pki_operator.Action.Keeps.{Keeps}
use private_pki_operator.Api.{
  Phase, Status, unset, idle, preserving_old_root, dual_trust_active, awaiting_reissuance,
  verifying_chain, complete, other_phase,
}
use private_pki_operator.Cluster.{Client}
use private_pki_operator.Controller.State.{State}
use private_pki_operator.Controller.Intermediate.{reconcile_intermediate}
use private_pki_operator.Controller.Reconcile.{reconcile_root}
use private_pki_operator.Controller.Frame.{Frame}
use private_pki_operator.Controller.Frame.Handlers.{
  Keeps-reconcile_idle, Keeps-reconcile_preserving_old_root, Keeps-reconcile_dual_trust_active,
  Keeps-reconcile_awaiting_reissuance, Keeps-reconcile_verifying_chain,
}
use private_pki_operator.Controller.Frame.Cascades.{
  Keeps-reconcile_idle_intermediate, Keeps-reconcile_awaiting_reissuance_intermediate,
  Keeps-reconcile_verifying_chain_intermediate, Keeps-reconcile_complete_intermediate,
}

module _ {W : Type 0} {c : Client W} {Q : Phase → Type 0} {U : (Status → Status) → Type 0}
    {P : State W → Type 0} (F : Frame c Q U P) (q : (p : Phase) → Q p)
    (u : (f : Status → Status) → U f) where
  -- Every phase of a root but Complete, which trims the staging ConfigMap.
  pub Keeps-reconcile_root : (p : Phase) → p ≢ complete → Keeps P (reconcile_root c p)
  unfolding reconcile_root
  Keeps-reconcile_root unset n = F.keeps_transition_to idle (q idle)
  Keeps-reconcile_root idle n = Keeps-reconcile_idle F (q _) (λ s. u _) (λ s. u _) (λ s. u _)
  Keeps-reconcile_root preserving_old_root n =
      Keeps-reconcile_preserving_old_root F (q _) (q _) (u _) (λ s. u _)
  Keeps-reconcile_root dual_trust_active n = Keeps-reconcile_dual_trust_active F (q _)
  Keeps-reconcile_root awaiting_reissuance n = Keeps-reconcile_awaiting_reissuance F (q _)
  Keeps-reconcile_root verifying_chain n = Keeps-reconcile_verifying_chain F (q _)
  Keeps-reconcile_root complete n = absurd (n refl)
  Keeps-reconcile_root (other_phase s) n = F.keeps_transition_to idle (q idle)

  pub Keeps-reconcile_intermediate : (p : Phase) → Keeps P (reconcile_intermediate c p)
  unfolding reconcile_intermediate
  Keeps-reconcile_intermediate unset =
      Keeps-reconcile_idle_intermediate F (q _) (u _) (λ s. u _) (λ s. u _)
  Keeps-reconcile_intermediate idle =
      Keeps-reconcile_idle_intermediate F (q _) (u _) (λ s. u _) (λ s. u _)
  Keeps-reconcile_intermediate preserving_old_root = F.keeps_transition_to idle (q idle)
  Keeps-reconcile_intermediate dual_trust_active = F.keeps_transition_to idle (q idle)
  Keeps-reconcile_intermediate awaiting_reissuance =
      Keeps-reconcile_awaiting_reissuance_intermediate F (q _) (q _)
  Keeps-reconcile_intermediate verifying_chain =
      Keeps-reconcile_verifying_chain_intermediate F (q _) (q _)
  Keeps-reconcile_intermediate complete = Keeps-reconcile_complete_intermediate F (q _) (u _)
  Keeps-reconcile_intermediate (other_phase s) = F.keeps_transition_to idle (q idle)
