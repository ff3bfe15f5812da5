-- ===== src/Controller/Conditions.antt =====
-- pkirotation_status.go: phase and condition writes.
pub mod Upsert
pub mod Tests
pub mod Transition
use private_pki_operator.Common.{
  ℕ, String, Option, none, some, List, [], ◌∷◌, ◌==◌, Bool, true, false, if◌then◌else◌,
}
use private_pki_operator.Action.{Message, Action, pure, handle, ◌>>=◌, ◌>>◌}
use private_pki_operator.Api.{
  Phase, preserving_old_root, dual_trust_active, awaiting_reissuance, is_intermediate_ca,
  ConditionType, dual_trust_active_condition, intermediate_reissued, chain_verified,
  other_condition, Condition, PkiRotation,
}
use private_pki_operator.Cluster.{Client}
use private_pki_operator.Metrics.{record_phase, record_transition}
use private_pki_operator.Controller.State.{
  State, Requeue, now, set_status, set_pkir, set_metrics, get_pkir, update_status,
}

abbrev pub same_type : ConditionType → ConditionType → Bool
same_type dual_trust_active_condition dual_trust_active_condition = true
same_type intermediate_reissued intermediate_reissued = true
same_type chain_verified chain_verified = true
same_type (other_condition s) (other_condition t) = s == t
same_type _ _ = false

-- The loop of `setCondition`: overwrite the first condition of the type, else append one.
unfoldable pub upsert_condition : Condition → List Condition → List Condition
upsert_condition n [] = n ∷ []
upsert_condition n (c ∷ cs) =
    let rest = upsert_condition n cs in if same_type c.type n.type then n ∷ cs else c ∷ rest

-- The `RotationStartedAt` that a phase change leaves: the root's starts with PreservingOldRoot and
-- an intermediate's with AwaitingReissuance, if it has not started.
abbrev start_rotation : Phase → Bool → ℕ → Option ℕ → Option ℕ
start_rotation preserving_old_root b t none = some t
start_rotation awaiting_reissuance true t none = some t
start_rotation _ b t started = started

abbrev dual_trust_since : Phase → ℕ → Option ℕ → Option ℕ
dual_trust_since dual_trust_active t since = some t
dual_trust_since _ t since = since

-- The status that `transitionTo` writes.
unfoldable pub enter_phase : Phase → ℕ → PkiRotation → PkiRotation
enter_phase phase t pkir = record pkir {
  status = record pkir.status {
    phase = phase;
    last_transition_time = some t;
    rotation_started_at =
        start_rotation phase (is_intermediate_ca pkir.spec.role) t pkir.status.rotation_started_at;
    dual_trust_active_at = dual_trust_since phase t pkir.status.dual_trust_active_at;
  };
}

module _ {W : Type 0} (c : Client W) where
  -- `transitionTo`.
  unfoldable pub transition_to : Phase → Action (State W) Requeue
  transition_to phase = do
    t ← now c
    pkir ← get_pkir
    set_pkir (enter_phase phase t)
    update_status c
    set_metrics (λ p. record_transition p pkir.status.phase phase)
    set_metrics record_phase
    pure 0

  -- `updateConditionStatus`: a failed write is logged and changes nothing.
  unfoldable pub update_condition_status : Action (State W) Unit
  update_condition_status = handle (update_status c) pure (λ _. pure tt)

  -- `setCondition`.
  unfoldable pub set_condition : ConditionType → Bool → String → Message → Action (State W) Unit
  unfolding upsert_condition
  set_condition type status reason message = do
    t ← now c
    set_status (λ s. record s {
      conditions =
          upsert_condition
            (record {
              type = type;
              status = status;
              reason = reason;
              message = message;
              last_transition_time = t;
            })
            s.conditions;
    })
