-- ===== src/Controller/Cascade.antt =====
-- pkirotation_phases.go, AwaitingReissuance and VerifyingChain: the cascade tier by tier.
use private_pki_operator.Common.{
  ℕ, ◌+◌, ◌-◌, String, Bool, true, false, not, ◌||◌, Option, none, some, List, [], ◌∷◌, ◌==◌,
  if◌then◌else◌, ltb, num_eq, length,
}
use private_pki_operator.Action.{text, num, Action, pure, within, ◌>>=◌, ◌>>◌, on_option, each}
use private_pki_operator.Api.{verifying_chain, complete, intermediate_reissued, chain_verified}
use private_pki_operator.Cluster.{Client, Certificate}
use private_pki_operator.Metrics.{record_reissuance_timeout, record_downstream_reissued}
use private_pki_operator.Controller.State.{State, Requeue, now, set_metrics, get_pkir, record_event}
use private_pki_operator.Controller.Conditions.{
  transition_to, set_condition, update_condition_status,
}
use private_pki_operator.Controller.Certificates.{
  discover_intermediates, discover_namespace_intermediates, discover_leaf_certs, trigger_reissuance,
  certificate_akid, latest_not_before, is_certificate_resource_ready,
}
use private_pki_operator.Controller.VerifyChain.{
  cert_text, is_after, verify_tier1_chain, verify_tier2_chain, verify_leaf_chain,
}

-- `defaultReissuanceTimeout`, in seconds.
abbrev pub default_reissuance_timeout : ℕ
default_reissuance_timeout = 900

abbrev pub timeout_of : ℕ → ℕ
timeout_of t = if num_eq t 0 then default_reissuance_timeout else t

-- `RotationStartedAt != nil && time.Since(RotationStartedAt) > timeout`.
unfoldable pub is_overdue : ℕ → ℕ → Option ℕ → Bool
is_overdue t timeout none = false
is_overdue t timeout (some started) = ltb timeout (t - started)

-- `tier2PendingReason`; no text when nothing is pending.
unfoldable pub tier2_pending_reason : ℕ → List Certificate → String
tier2_pending_reason base [] = ""
tier2_pending_reason base (cert ∷ certs) =
    let rest = tier2_pending_reason base certs in
    if not (is_certificate_resource_ready cert)
    then "Namespace intermediate CA re-issuance in progress"
    else if not (is_after base cert.not_before)
    then "Waiting for namespace intermediate CA re-issuance"
    else rest

module _ {W : Type 0} (c : Client W) where
  -- The timeout warning of `waitForReissuance`.
  unfoldable pub warn_if_overdue : Action (State W) Unit
  warn_if_overdue = do
    pkir ← get_pkir
    t ← now c
    if is_overdue t (timeout_of pkir.spec.reissuance_timeout) pkir.status.rotation_started_at
        then (do
          record_event (record {
            warning = true;
            reason = "ReissuanceTimeout";
            message =
                text "Intermediate CA re-issuance has not completed after "
                ∷ num (timeout_of pkir.spec.reissuance_timeout)
                ∷ text "; check cert-manager status"
                ∷ [];
          })
          set_metrics record_reissuance_timeout)
        else pure tt

  -- `waitForReissuance`.
  unfoldable pub wait_for_reissuance : String → Action (State W) Requeue
  wait_for_reissuance message = do
    warn_if_overdue
    set_condition c intermediate_reissued false "AwaitingCertManagerRenewal" (text message ∷ [])
    update_condition_status c
    pure 30

  -- `tier1ReissuedAgainstNewRoot`.
  unfoldable pub tier1_reissued_against_new_root : List Certificate → Action (State W) Bool
  tier1_reissued_against_new_root [] = pure true
  tier1_reissued_against_new_root (cert ∷ certs) = do
    akid ← within (text "reading AKID for " ∷ cert_text cert) (certificate_akid c cert)
    pkir ← get_pkir
    if akid == "" || not (akid == pkir.status.current_skid)
        then pure false
        else tier1_reissued_against_new_root certs

  -- One round of `triggerStaleTier2`: the certificate as it is afterwards.
  unfoldable pub trigger_if_stale : ℕ → Certificate → Action (State W) Certificate
  trigger_if_stale base cert =
      if is_after base cert.not_before
      then pure cert
      else within (text "triggering reissuance for tier-2 " ∷ cert_text cert)
          (trigger_reissuance c cert)

  -- `triggerLeafReissuance`.
  unfoldable pub trigger_leaf_reissuance : List Certificate → List Certificate → Action (State W) ℕ
  trigger_leaf_reissuance tier1 tier2 = do
    leaves ← within (text "discovering leaf certs" ∷ []) (discover_leaf_certs c tier1 tier2)
    each
        (λ cert.
          within (text "triggering reissuance for leaf " ∷ cert_text cert)
            (trigger_reissuance c cert))
        leaves
    if ltb 0 (length leaves)
        then record_event (record {
          warning = false;
          reason = "LeafReissuanceTriggered";
          message =
              text "Triggered re-issuance of "
              ∷ num (length leaves)
              ∷ text " leaf cert(s) after intermediate CA rotation"
              ∷ [];
        })
        else pure tt
    pure (length leaves)

  -- The end of `reconcileAwaitingReissuance`, tier 2 being done.
  unfoldable pub finish_reissuance : List Certificate → List Certificate → Action (State W) Requeue
  finish_reissuance tier1 tier2 = do
    leaf_count ← trigger_leaf_reissuance tier1 tier2
    set_condition c intermediate_reissued true "AllIntermediatesReissued" (
        text "All intermediate CAs renewed ("
        ∷ num (length tier1)
        ∷ text " cluster, "
        ∷ num (length tier2)
        ∷ text " namespace); triggered "
        ∷ num leaf_count
        ∷ text " leaf cert(s)"
        ∷ [])
    transition_to c verifying_chain

  -- `reconcileAwaitingReissuance`, tier 1 being done. The triggers leave the certificates as the
  -- API server stored them, and those are what is then looked at.
  unfoldable pub await_tier2 : List Certificate → Action (State W) Requeue
  await_tier2 tier1 = do
    found ←
        within (text "discovering tier-2 intermediates" ∷ [])
          (discover_namespace_intermediates c tier1)
    tier2 ← each (trigger_if_stale (latest_not_before tier1)) found
    let message = tier2_pending_reason (latest_not_before tier1) tier2
    if message == "" then finish_reissuance tier1 tier2 else wait_for_reissuance message

  -- `reconcileAwaitingReissuance`.
  unfoldable pub reconcile_awaiting_reissuance : Action (State W) Requeue
  reconcile_awaiting_reissuance = do
    tier1 ← within (text "discovering tier-1 intermediates" ∷ []) (discover_intermediates c)
    reissued ← tier1_reissued_against_new_root tier1
    if reissued
        then await_tier2 tier1
        else wait_for_reissuance "Waiting for cluster intermediate CA re-issuance"

  -- The end of `reconcileVerifyingChain`.
  unfoldable pub chain_is_verified :
      List Certificate → List Certificate → List Certificate → Action (State W) Requeue
  chain_is_verified tier1 tier2 leaves = do
    set_metrics (λ p. record_downstream_reissued p (length tier1 + length tier2) (length leaves))
    set_condition c chain_verified true "Verified" (
        text "Full chain verified: "
        ∷ num (length tier1)
        ∷ text " cluster + "
        ∷ num (length tier2)
        ∷ text " namespace intermediates, "
        ∷ num (length leaves)
        ∷ text " leaf certs"
        ∷ [])
    record_event (record {
      warning = false;
      reason = "ChainVerified";
      message = text "PKI chain verified; removing old root from trust bundle" ∷ [];
    })
    transition_to c complete

  -- `reconcileVerifyingChain`, the tiers 1 and 2 being verified.
  unfoldable pub verify_leaves : List Certificate → List Certificate → Action (State W) Requeue
  verify_leaves tier1 tier2 = do
    leaves ← within (text "discovering leaf certs" ∷ []) (discover_leaf_certs c tier1 tier2)
    stop ← verify_leaf_chain c (latest_not_before tier1) tier2 leaves
    on_option stop (chain_is_verified tier1 tier2 leaves) pure

  -- `reconcileVerifyingChain`, tier 1 being verified.
  unfoldable pub verify_tier2 : List Certificate → Action (State W) Requeue
  verify_tier2 tier1 = do
    tier2 ←
        within (text "discovering tier-2 intermediates" ∷ [])
          (discover_namespace_intermediates c tier1)
    stop ← verify_tier2_chain c (latest_not_before tier1) tier2
    on_option stop (verify_leaves tier1 tier2) pure

  -- `reconcileVerifyingChain`.
  unfoldable pub reconcile_verifying_chain : Action (State W) Requeue
  reconcile_verifying_chain = do
    tier1 ← within (text "discovering tier-1 intermediates" ∷ []) (discover_intermediates c)
    stop ← verify_tier1_chain c tier1
    on_option stop (verify_tier2 tier1) pure
