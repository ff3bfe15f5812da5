-- ===== src/Controller/Intermediate/Idle.antt =====
-- pkirotation_intermediate.go: Idle, where a change of the key is noticed, unless the owner rotates.
use private_pki_operator.Common.{
  String, Bool, true, false, Option, none, some, List, [], ◌∷◌, ◌==◌, if◌then◌else◌,
}
use private_pki_operator.Action.{text, errorf, Action, pure, fail, within, ◌>>=◌, ◌>>◌}
use private_pki_operator.Api.{
  Phase, unset, idle, awaiting_reissuance, OwnerReference, CertificateRef,
}
use private_pki_operator.Cluster.{Client}
use private_pki_operator.Metrics.{record_phase}
use private_pki_operator.Controller.State.{
  State, Requeue, call, set_status, set_metrics, get_pkir, update_status,
}
use private_pki_operator.Controller.Conditions.{transition_to}
use private_pki_operator.Controller.EnsureIntermediates.{pkirotation_kind, intermediate_skid}
use private_pki_operator.Controller.StaleSweep.{sweep_intermediate_children}

-- `phase == PhaseIdle || phase == ""`.
abbrev pub is_idle : Phase → Bool
is_idle unset = true
is_idle idle = true
is_idle _ = false

-- `spec.intermediateCA` is nil.
abbrev pub is_missing : Option CertificateRef → Bool
is_missing none = true
is_missing (some r) = false

module _ {W : Type 0} (c : Client W) where
  -- The loop of `isOwnerRootCAIdle`: the first owner that is a PKIRotation decides.
  unfoldable pub owner_is_idle : List OwnerReference → Action (State W) Bool
  owner_is_idle [] = pure true
  owner_is_idle (ref ∷ refs) =
      let rest = owner_is_idle refs in
      if ref.kind == pkirotation_kind
      then (do
        owner ←
            within (text "getting owner PKIRotation " ∷ text ref.name ∷ [])
              (call (c.get_pki_rotation ref.name))
        pure (is_idle owner.status.phase))
      else rest

  -- `isOwnerRootCAIdle`.
  unfoldable pub is_owner_root_ca_idle : Action (State W) Bool
  is_owner_root_ca_idle = do pkir ← get_pkir; owner_is_idle pkir.owner_references

  -- Outcome 2 of `reconcileIdleIntermediate`: the first run.
  unfoldable pub intermediate_first_run : String → Action (State W) Requeue
  intermediate_first_run skid = do
    set_status (λ s. record s { current_skid = skid; phase = idle })
    within (text "updating status with intermediate CA SKID" ∷ []) (update_status c)
    sweep_intermediate_children c

  -- The repair of an empty phase in outcome 3.
  unfoldable pub normalise_phase : Phase → Action (State W) Unit
  normalise_phase unset = do
    set_status (λ s. record s { phase = idle })
    within (text "normalising empty phase to Idle" ∷ []) (update_status c)
    set_metrics record_phase
  normalise_phase _ = pure tt

  -- Outcome 4, the owner rotating: take the SKID, and look again later.
  unfoldable pub yield_to_owner : Action (State W) Requeue
  yield_to_owner = do
    set_status (λ s. record s { phase = idle })
    within (text "updating status on yield" ∷ []) (update_status c)
    set_metrics record_phase
    pure 30

  -- Outcome 4: the SKID changed.
  unfoldable pub intermediate_skid_changed : String → Action (State W) Requeue
  intermediate_skid_changed skid = do
    owner_idle ← within (text "checking owner PKIRotation phase" ∷ []) is_owner_root_ca_idle
    set_status (λ s. record s { current_skid = skid })
    if owner_idle then transition_to c awaiting_reissuance else yield_to_owner

  -- `reconcileIdleIntermediate`.
  unfoldable pub reconcile_idle_intermediate : Action (State W) Requeue
  reconcile_idle_intermediate = do
    pkir ← get_pkir
    if is_missing pkir.spec.intermediate_ca_ref
        then fail (errorf (text "role=IntermediateCA but spec.intermediateCA is nil" ∷ []))
        else do
          skid ← within (text "reading intermediate CA SKID" ∷ []) (intermediate_skid c pkir)
          if pkir.status.current_skid == ""
              then intermediate_first_run skid
              else if pkir.status.current_skid == skid
              then normalise_phase pkir.status.phase >> sweep_intermediate_children c
              else intermediate_skid_changed skid
