-- ===== src/Controller/Reconcile.antt =====
-- pkirotation_controller.go: the dispatch of one reconcile.
pub mod Missing
use private_pki_operator.Common.{String, ◌≡◌, refl, false, if◌then◌else◌}
use private_pki_operator.Action.{ok, Action, pure, fail, modify, handle, ◌>>=◌, ◌>>◌}
use private_pki_operator.Api.{
  Phase, idle, preserving_old_root, dual_trust_active, awaiting_reissuance, verifying_chain,
  complete, is_intermediate_ca, PkiRotation,
}
use private_pki_operator.Cluster.{Client}
use private_pki_operator.Metrics.{record_phase, forget_phase}
use private_pki_operator.Controller.State.{State, Requeue, call, set_pkir, set_metrics}
use private_pki_operator.Controller.Conditions.{transition_to}
use private_pki_operator.Controller.Phases.{
  reconcile_idle, reconcile_preserving_old_root, reconcile_dual_trust_active, reconcile_complete,
}
use private_pki_operator.Controller.Cascade.{
  reconcile_awaiting_reissuance, reconcile_verifying_chain,
}
use private_pki_operator.Controller.Intermediate.{reconcile_intermediate}

module _ {W : Type 0} (c : Client W) where
  -- The switch of `Reconcile` for a root; an empty or unknown phase becomes Idle.
  unfoldable pub reconcile_root : Phase → Action (State W) Requeue
  reconcile_root idle = reconcile_idle c
  reconcile_root preserving_old_root = reconcile_preserving_old_root c
  reconcile_root dual_trust_active = reconcile_dual_trust_active c
  reconcile_root awaiting_reissuance = reconcile_awaiting_reissuance c
  reconcile_root verifying_chain = reconcile_verifying_chain c
  reconcile_root complete = reconcile_complete c
  reconcile_root _ = transition_to c idle

  -- `Reconcile`, the object having been read.
  unfoldable pub reconcile_pkir : PkiRotation → Action (State W) Requeue
  reconcile_pkir pkir =
      if is_intermediate_ca pkir.spec.role
      then reconcile_intermediate c pkir.status.phase
      else reconcile_root pkir.status.phase

  -- `Reconcile`.
  unfoldable pub reconcile : String → Action (State W) Requeue
  reconcile name =
      handle (call (c.get_pki_rotation name))
        (λ pkir. do set_pkir (λ _. pkir); set_metrics record_phase; reconcile_pkir pkir)
        (λ e.
          if e.is_not_found
          then modify (λ s. record s { metrics = forget_phase name s.metrics }) >> pure 0
          else fail e)

module _ {W : Type 0} (c : Client W) where
  -- A reconcile whose object could be read is its dispatch, from the state after the read.
  pub reconcile_read :
      (name : String) (s : State W) (pkir : PkiRotation) (w : W)
      → c.get_pki_rotation name s.world ≡ (ok pkir, w)
      → reconcile c name s
        ≡ reconcile_pkir c pkir
            (record s { world = w; pkir = pkir; metrics = record_phase pkir s.metrics })
  unfolding reconcile handle ◌>>=◌ call set_pkir set_metrics modify
  reconcile_read name s pkir w e = rw e refl

  pub reconcile_pkir-root :
      (pkir : PkiRotation) (s : State W)
      → is_intermediate_ca pkir.spec.role ≡ false
      → reconcile_pkir c pkir s ≡ reconcile_root c pkir.status.phase s
  unfolding reconcile_pkir
  reconcile_pkir-root pkir s role = rw role refl
