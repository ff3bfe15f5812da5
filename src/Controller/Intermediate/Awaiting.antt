-- ===== src/Controller/Intermediate/Awaiting.antt =====
-- pkirotation_intermediate.go: AwaitingReissuance, and the reset when the key changed again.
use private_pki_operator.Common.{
  ℕ, ◌+◌, String, true, false, List, [], ◌∷◌, ◌==◌, if◌then◌else◌, length,
}
use private_pki_operator.Action.{text, num, Action, pure, within, ◌>>=◌, ◌>>◌, each}
use private_pki_operator.Api.{idle, verifying_chain, intermediate_reissued}
use private_pki_operator.Cluster.{Client, Certificate}
use private_pki_operator.Metrics.{record_skid_drift}
use private_pki_operator.Controller.State.{State, Requeue, set_metrics, get_pkir, record_event}
use private_pki_operator.Controller.Conditions.{transition_to, set_condition}
use private_pki_operator.Controller.Certificates.{trigger_reissuance}
use private_pki_operator.Controller.Discovery.{
  IssuerAnchor, Downstream, find_issuers_for_ca_cert, discover_downstream_bfs,
}
use private_pki_operator.Controller.EnsureIntermediates.{intermediate_skid}
use private_pki_operator.Controller.StaleSweep.{load_intermediate_cert}
use private_pki_operator.Controller.VerifyChain.{cert_text}

module _ {W : Type 0} (c : Client W) where
  -- The reset when the CA rotated again.
  unfoldable pub skid_drifted : String → String → Action (State W) Requeue
  skid_drifted live during = do
    pkir ← get_pkir
    record_event (record {
      warning = true;
      reason = "SKIDDriftDetected";
      message =
          text "intermediate CA SKID changed from "
          ∷ text pkir.status.current_skid
          ∷ text " to "
          ∷ text live
          ∷ text during
          ∷ [];
    })
    set_metrics record_skid_drift
    transition_to c idle

  -- `triggerDownstream`.
  unfoldable pub trigger_downstream : String → List Certificate → Action (State W) ℕ
  trigger_downstream kind certs = do
    each
        (λ cert.
          within (text "triggering reissuance for " ∷ text kind ∷ text " " ∷ cert_text cert)
            (trigger_reissuance c cert))
        certs
    pure (length certs)

  -- Everything below the intermediate, and the anchors that it backs.
  unfoldable pub discover_below : Certificate → Action (State W) (List IssuerAnchor × Downstream)
  discover_below cert = do
    anchors ←
        within (text "finding issuers for intermediate CA " ∷ cert_text cert)
          (find_issuers_for_ca_cert c cert)
    found ←
        within (text "discovering downstream certs" ∷ [])
          (discover_downstream_bfs c c.stack_depth anchors)
    pure (anchors, found)

  -- `reconcileAwaitingReissuanceIntermediate`, the SKID being the recorded one.
  unfoldable pub trigger_cascade : Certificate → Action (State W) Requeue
  trigger_cascade cert = do
    below ← discover_below cert
    let found = below.1
    cas ← trigger_downstream "CA" found.cas
    leaves ← trigger_downstream "leaf" found.leaves
    set_condition c intermediate_reissued false "AwaitingCertManagerRenewal" (
        text "Triggered re-issuance of "
        ∷ num (cas + leaves)
        ∷ text " downstream certs ("
        ∷ num (length found.cas)
        ∷ text " CA, "
        ∷ num (length found.leaves)
        ∷ text " leaf); waiting for cert-manager renewal"
        ∷ [])
    transition_to c verifying_chain

  -- `reconcileAwaitingReissuanceIntermediate`.
  unfoldable pub reconcile_awaiting_reissuance_intermediate : Action (State W) Requeue
  reconcile_awaiting_reissuance_intermediate = do
    cert ← load_intermediate_cert c
    pkir ← get_pkir
    live ← within (text "reading intermediate CA SKID" ∷ []) (intermediate_skid c pkir)
    if live == pkir.status.current_skid
        then trigger_cascade cert
        else skid_drifted live " during reissuance; resetting to Idle"
