-- ===== src/Controller/Phases.antt =====
-- pkirotation_phases.go: the phase handlers of a root's rotation.
use private_pki_operator.Common.{
  String, Bool, true, false, not, ◌&&◌, Option, none, some, [], ◌∷◌, ◌==◌, if◌then◌else◌, length,
  any, lookup,
}
use private_pki_operator.Action.{
  text, num, Error, wrap, Action, pure, fail, within, handle, ◌>>=◌, ◌>>◌, each,
}
use private_pki_operator.Api.{
  idle, preserving_old_root, dual_trust_active, awaiting_reissuance, dual_trust_active_condition,
  intermediate_reissued,
}
use private_pki_operator.Cluster.{Client, CertificateRequest, ObjectCondition}
use private_pki_operator.Controller.State.{
  State, Requeue, call, set_status, get_pkir, record_event, update_status,
}
use private_pki_operator.Controller.Conditions.{
  transition_to, set_condition, update_condition_status,
}
use private_pki_operator.Controller.Certificates.{
  current_root_skid, discover_intermediates, trigger_reissuance, clear_reissuance_trigger,
}
use private_pki_operator.Controller.TrustBundle.{
  extend_staging_config_map, trim_staging_config_map, ensure_staging_config_map, ensure_bundle,
}
use private_pki_operator.Controller.EnsureIntermediates.{ensure_intermediate_ca_crs}
use private_pki_operator.Controller.EnsureIntermediates.Sync.{sync_child_skids}
use private_pki_operator.Controller.StaleSweep.{sweep_root_children}
use private_pki_operator.Controller.VerifyChain.{cert_text}

-- `isCertificateRequestReady`.
unfoldable pub is_certificate_request_ready : CertificateRequest → Bool
is_certificate_request_ready cr =
    any (λ (cond : ObjectCondition). cond.type == "Ready" && cond.status == "True") cr.conditions

-- `cert-manager.io/certificate-name`, cert-manager's `CertificateNameKey`.
abbrev pub certificate_name_key : String
certificate_name_key = "cert-manager.io/certificate-name"

abbrev annotation_of : Option String → String
annotation_of none = ""
annotation_of (some value) = value

-- `ann != nil && ann[key] == name`; a missing annotation reads as "".
unfoldable pub is_for_certificate : String → CertificateRequest → Bool
is_for_certificate name cr = elim cr.annotations [
  | none ↦ false
  | some entries ↦ annotation_of (lookup certificate_name_key entries) == name
]

module _ {W : Type 0} (c : Client W) where
  -- `hasActiveCertificateRequest`.
  unfoldable pub has_active_certificate_request : Action (State W) Bool
  has_active_certificate_request = do
    pkir ← get_pkir
    crs ←
        within (text "listing CertificateRequests" ∷ [])
          (call (c.list_certificate_requests pkir.spec.root_ca_ref.certificate_namespace))
    pure (
        any
          (λ cr.
            is_for_certificate pkir.spec.root_ca_ref.certificate_name cr
            && not (is_certificate_request_ready cr))
          crs)

  -- The end of `reconcileIdle`: children, then the sweep.
  unfoldable pub tend_children : Action (State W) Requeue
  tend_children = do
    within (text "ensuring intermediate CA CRs" ∷ []) (ensure_intermediate_ca_crs c)
    sweep_root_children c

  -- `reconcileIdle`, the SKID having changed while nobody looked.
  unfoldable pub idle_skid_changed : String → Action (State W) Requeue
  idle_skid_changed skid = do
    set_status (λ s. record s { previous_skid = s.current_skid; current_skid = skid })
    transition_to c preserving_old_root

  -- `reconcileIdle`, the first run.
  unfoldable pub idle_first_run : String → Action (State W) Requeue
  idle_first_run skid = do
    set_status (λ s. record s { current_skid = skid })
    within (text "updating status with root SKID" ∷ []) (update_status c)
    tend_children

  -- `reconcileIdle`, the SKID being unchanged.
  unfoldable pub idle_unchanged : String → Action (State W) Requeue
  idle_unchanged skid = do
    active ←
        within (text "checking for active CertificateRequest" ∷ []) has_active_certificate_request
    if active
        then (do
          set_status (λ s. record s { previous_skid = skid })
          transition_to c preserving_old_root)
        else tend_children

  -- `reconcileIdle`.
  unfoldable pub reconcile_idle : Action (State W) Requeue
  reconcile_idle = do
    within (text "ensuring staging ConfigMap" ∷ []) (ensure_staging_config_map c)
    within (text "ensuring trust bundle" ∷ []) (ensure_bundle c)
    skid ← within (text "reading root CA SKID" ∷ []) (current_root_skid c)
    pkir ← get_pkir
    if not (pkir.status.current_skid == "") && not (pkir.status.current_skid == skid)
        then idle_skid_changed skid
        else if pkir.status.current_skid == ""
        then idle_first_run skid
        else idle_unchanged skid

  -- `reconcilePreservingOldRoot`, the SKID being unchanged: the renewal is under way, or it kept
  -- the key.
  unfoldable pub preserving_unchanged : Action (State W) Requeue
  preserving_unchanged = do
    active ←
        within (text "checking for active CertificateRequest" ∷ []) has_active_certificate_request
    if active then pure 10 else do
      set_status (λ s. record s { previous_skid = ""; rotation_started_at = none })
      transition_to c idle

  -- `reconcilePreservingOldRoot`, the new root being there.
  unfoldable pub preserving_changed : String → Action (State W) Requeue
  preserving_changed skid = do
    set_status (λ s. record s { current_skid = skid })
    transition_to c dual_trust_active

  -- `reconcilePreservingOldRoot`.
  unfoldable pub reconcile_preserving_old_root : Action (State W) Requeue
  reconcile_preserving_old_root = do
    skid ← within (text "reading root CA SKID" ∷ []) (current_root_skid c)
    pkir ← get_pkir
    if skid == pkir.status.previous_skid then preserving_unchanged else preserving_changed skid

  -- `reconcileDualTrustActive`, the staging ConfigMap not being written.
  unfoldable pub staging_failed : Error → Action (State W) Requeue
  staging_failed e = do
    set_condition c dual_trust_active_condition false "StagingWriteFailed" e.message
    update_condition_status c
    fail (wrap (text "extending staging ConfigMap" ∷ []) e)

  -- `reconcileDualTrustActive`, both roots being staged.
  unfoldable pub trigger_tier1 : Action (State W) Requeue
  trigger_tier1 = do
    set_condition c dual_trust_active_condition true "StagingConfigMapExtended"
        (text "Both old and new root PEMs present in staging ConfigMap" ∷ [])
    tier1 ← within (text "discovering tier-1 intermediates" ∷ []) (discover_intermediates c)
    each
        (λ cert.
          within (text "triggering reissuance for " ∷ cert_text cert) (trigger_reissuance c cert))
        tier1
    set_condition c intermediate_reissued false "AnnotationApplied" (
        text "Re-issuance triggered for "
        ∷ num (length tier1)
        ∷ text " cluster intermediate(s); tier-2 and leaf certs triggered after tier-1 confirmed"
        ∷ [])
    record_event (record {
      warning = false;
      reason = "ReissuanceTriggered";
      message =
          text "Triggered re-issuance of "
          ∷ num (length tier1)
          ∷ text " cluster intermediate CA(s); tier-2 will be triggered after tier-1 is confirmed"
          ∷ [];
    })
    transition_to c awaiting_reissuance

  -- `reconcileDualTrustActive`.
  unfoldable pub reconcile_dual_trust_active : Action (State W) Requeue
  reconcile_dual_trust_active =
      handle (extend_staging_config_map c) (λ _. trigger_tier1) staging_failed

  -- `reconcileComplete`.
  unfoldable pub reconcile_complete : Action (State W) Requeue
  reconcile_complete = do
    within (text "trimming staging ConfigMap" ∷ []) (trim_staging_config_map c)
    within (text "clearing renewBefore trigger annotations" ∷ []) (clear_reissuance_trigger c)
    set_status (λ s. record s {
      previous_skid = "";
      rotation_started_at = none;
      dual_trust_active_at = none;
    })
    within (text "syncing child intermediate CA SKIDs" ∷ []) (sync_child_skids c)
    record_event (record {
      warning = false;
      reason = "RotationComplete";
      message = text "Root CA rotation complete; trust bundle updated to new root only" ∷ [];
    })
    transition_to c idle
