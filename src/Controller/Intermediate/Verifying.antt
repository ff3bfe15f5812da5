-- ===== src/Controller/Intermediate/Verifying.antt =====
-- pkirotation_intermediate.go: VerifyingChain, which waits for every certificate below.
use private_pki_operator.Common.{
  ℕ, ◌+◌, Bool, true, false, not, ◌||◌, Option, none, some, List, [], ◌∷◌, ◌++◌, ◌==◌,
  if◌then◌else◌, length, any,
}
use private_pki_operator.Action.{text, num, Message, Action, pure, within, handle, ◌>>=◌, ◌>>◌}
use private_pki_operator.Api.{complete, intermediate_reissued, chain_verified}
use private_pki_operator.Cluster.{Client, Certificate}
use private_pki_operator.Metrics.{record_downstream_reissued}
use private_pki_operator.Controller.State.{State, Requeue, set_metrics, get_pkir, record_event}
use private_pki_operator.Controller.Conditions.{
  transition_to, set_condition, update_condition_status,
}
use private_pki_operator.Controller.Certificates.{certificate_akid, is_certificate_resource_ready}
use private_pki_operator.Controller.Discovery.{IssuerAnchor, Downstream}
use private_pki_operator.Controller.EnsureIntermediates.{intermediate_skid}
use private_pki_operator.Controller.StaleSweep.{load_intermediate_cert}
use private_pki_operator.Controller.VerifyChain.{cert_text, is_not_before, retrigger}
use private_pki_operator.Controller.Intermediate.Awaiting.{skid_drifted, discover_below}

-- The baseline of `reconcileVerifyingChainIntermediate`; 0 is the zero time.
abbrev pub not_before_or_zero : Option ℕ → ℕ
not_before_or_zero none = 0
not_before_or_zero (some t) = t

-- `directAnchorNames[cert.Spec.IssuerRef.Name]`.
unfoldable pub is_direct : List IssuerAnchor → Certificate → Bool
is_direct anchors cert = any (λ (a : IssuerAnchor). a.name == cert.issuer_ref.name) anchors

module _ {W : Type 0} (c : Client W) where
  -- `directChildAKIDMismatched`.
  unfoldable pub direct_child_akid_mismatched : Certificate → Action (State W) Bool
  direct_child_akid_mismatched cert =
      handle (certificate_akid c cert)
        (λ akid. do
          pkir ← get_pkir
          if akid == "" || akid == pkir.status.current_skid
              then pure false
              else retrigger c cert >> pure true)
        (λ _. pure false)

  -- One round of `pendingDownstreamCerts`: how the certificate is named if it is pending.
  unfoldable pub pending_cert :
      List IssuerAnchor → ℕ → Certificate → Action (State W) (List Message)
  pending_cert anchors base cert =
      if not (is_certificate_resource_ready cert)
      then pure (cert_text cert ∷ [])
      else if not (is_not_before base cert.not_before)
      then retrigger c cert >> pure (cert_text cert ∷ [])
      else if not (is_direct anchors cert)
      then pure []
      else do
        mismatched ← direct_child_akid_mismatched cert
        pure (if mismatched then (cert_text cert ++ text " (AKID mismatch)" ∷ []) ∷ [] else [])

  -- `pendingDownstreamCerts`.
  unfoldable pub pending_downstream_certs :
      List IssuerAnchor → ℕ → List Certificate → Action (State W) (List Message)
  pending_downstream_certs anchors base [] = pure []
  pending_downstream_certs anchors base (cert ∷ certs) = do
    first ← pending_cert anchors base cert
    rest ← pending_downstream_certs anchors base certs
    pure (first ++ rest)

  -- `markIntermediateChainVerified`.
  unfoldable pub mark_intermediate_chain_verified : Downstream → Action (State W) Unit
  mark_intermediate_chain_verified found = do
    set_metrics (λ p. record_downstream_reissued p (length found.cas) (length found.leaves))
    set_condition c intermediate_reissued true "AllDownstreamReissued" (
        text "All "
        ∷ num (length found.cas + length found.leaves)
        ∷ text " downstream cert(s) reissued after intermediate CA rotation ("
        ∷ num (length found.cas)
        ∷ text " CA, "
        ∷ num (length found.leaves)
        ∷ text " leaf)"
        ∷ [])
    set_condition c chain_verified true "Verified" (
        text "Full downstream chain verified: "
        ∷ num (length found.cas)
        ∷ text " CA + "
        ∷ num (length found.leaves)
        ∷ text " leaf certs all reissued after intermediate CA rotation"
        ∷ [])
    record_event (record {
      warning = false;
      reason = "IntermediateChainVerified";
      message = text "Intermediate CA downstream chain verified; advancing to Complete" ∷ [];
    })

  -- The end of the message "pending: [a, b]".
  abbrev pending_message : List Message → Message
  pending_message [] = text "]" ∷ []
  pending_message (m ∷ []) = m ++ text "]" ∷ []
  pending_message (m ∷ m' ∷ ms) = m ++ text ", " ∷ pending_message (m' ∷ ms)

  -- The end of `reconcileVerifyingChainIntermediate`.
  unfoldable pub close_cascade : Downstream → List Message → Action (State W) Requeue
  close_cascade found [] = mark_intermediate_chain_verified found >> transition_to c complete
  close_cascade found (m ∷ ms) = do
    set_condition c chain_verified false "LeafReissuancePending"
        (text "pending: [" ∷ pending_message (m ∷ ms))
    update_condition_status c
    pure 15

  -- `reconcileVerifyingChainIntermediate`, the SKID being the recorded one.
  unfoldable pub verify_cascade : Certificate → Action (State W) Requeue
  verify_cascade cert = do
    below ← discover_below c cert
    let found = below.1
    pending ←
        pending_downstream_certs below.0 (not_before_or_zero cert.not_before)
          (found.cas ++ found.leaves)
    close_cascade found pending

  -- `reconcileVerifyingChainIntermediate`.
  unfoldable pub reconcile_verifying_chain_intermediate : Action (State W) Requeue
  reconcile_verifying_chain_intermediate = do
    cert ← load_intermediate_cert c
    pkir ← get_pkir
    live ← within (text "reading intermediate CA SKID" ∷ []) (intermediate_skid c pkir)
    if live == pkir.status.current_skid
        then verify_cascade cert
        else skid_drifted c live " during VerifyingChain; resetting to Idle"
