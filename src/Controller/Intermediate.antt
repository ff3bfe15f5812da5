-- ===== src/Controller/Intermediate.antt =====
-- pkirotation_intermediate.go: the cascade of an intermediate CA that its own key change starts.
pub mod Idle
pub mod Awaiting
pub mod Verifying
unfoldable pub use Idle.*
unfoldable pub use Awaiting.*
unfoldable pub use Verifying.*
use private_pki_operator.Common.{false, none, [], ◌∷◌}
use private_pki_operator.Action.{text, Action, ◌>>=◌, ◌>>◌}
use private_pki_operator.Api.{Phase, unset, idle, awaiting_reissuance, verifying_chain, complete}
use private_pki_operator.Cluster.{Client}
use private_pki_operator.Controller.State.{State, Requeue, set_status, record_event}
use private_pki_operator.Controller.Conditions.{transition_to}

module _ {W : Type 0} (c : Client W) where
  -- `reconcileCompleteIntermediate`.
  unfoldable pub reconcile_complete_intermediate : Action (State W) Requeue
  reconcile_complete_intermediate = do
    set_status (λ s. record s { previous_skid = ""; rotation_started_at = none })
    record_event (record {
      warning = false;
      reason = "IntermediateRotationComplete";
      message = text "Intermediate CA cascade rotation complete; returning to Idle" ∷ [];
    })
    transition_to c idle

  -- The switch of `reconcileIntermediate`.
  unfoldable pub reconcile_intermediate : Phase → Action (State W) Requeue
  reconcile_intermediate unset = reconcile_idle_intermediate c
  reconcile_intermediate idle = reconcile_idle_intermediate c
  reconcile_intermediate awaiting_reissuance = reconcile_awaiting_reissuance_intermediate c
  reconcile_intermediate verifying_chain = reconcile_verifying_chain_intermediate c
  reconcile_intermediate complete = reconcile_complete_intermediate
  reconcile_intermediate _ = transition_to c idle
