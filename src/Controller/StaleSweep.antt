-- ===== src/Controller/StaleSweep.antt =====
-- pkirotation_stale_sweep.go: an Idle CA re-issues the direct children that another key signed.
pub mod Untouched
use private_pki_operator.Common.{
  ℕ, ◌+◌, String, Bool, true, not, ◌&&◌, ◌||◌, none, some, List, [], ◌∷◌, ◌++◌, ◌==◌, if◌then◌else◌,
  keep,
}
use private_pki_operator.Action.{
  text, errorf, Action, pure, fail, within, handle, ◌>>=◌, ◌>>◌, on_option,
}
use private_pki_operator.Cluster.{Client, Certificate}
use private_pki_operator.Metrics.{record_stale_downstream_reissued}
use private_pki_operator.Controller.State.{
  State, Requeue, call, get_pkir, record_event, set_metrics,
}
use private_pki_operator.Controller.Certificates.{
  issuer_kind_cluster_issuer, issuer_kind_issuer, is_certificate_resource_ready,
  is_certificate_issuing_true, trigger_reissuance, certificate_akid, get_root_certificate,
}
use private_pki_operator.Controller.Discovery.{IssuerAnchor, find_issuers_for_ca_cert}

-- `staleDownstreamSweepInterval`, in seconds.
abbrev pub stale_downstream_sweep_interval : ℕ
stale_downstream_sweep_interval = 3600

-- The switch of `anchorsResolvingToSecret`: is the Secret that the issuer reads the certificate's?
unfoldable pub resolves_to_secret : Certificate → String → IssuerAnchor → Bool
resolves_to_secret ca cluster_namespace a =
    if a.kind == issuer_kind_cluster_issuer
    then ca.namespace == cluster_namespace
    else if a.kind == issuer_kind_issuer
    then a.namespace == ca.namespace
    else true

-- `anchorsResolvingToSecret`.
abbrev pub anchors_resolving_to_secret :
    List IssuerAnchor → Certificate → String → List IssuerAnchor
anchors_resolving_to_secret anchors ca cluster_namespace =
    keep (resolves_to_secret ca cluster_namespace) anchors

abbrev pub issued_by : IssuerAnchor → Certificate → Bool
issued_by a cert = cert.issuer_ref.name == a.name && cert.issuer_ref.kind == a.kind

module _ {W : Type 0} (c : Client W) where
  -- `directChildren`.
  unfoldable pub direct_children : List IssuerAnchor → Action (State W) (List Certificate)
  direct_children [] = pure []
  direct_children (a ∷ anchors) = do
    certs ← within (text "listing Certificates for " ∷ text a.kind ∷ text "/" ∷ text a.name ∷ []) (
        call
          (c.list_certificates (if a.kind == issuer_kind_issuer then some a.namespace else none)))
    rest ← direct_children anchors
    pure (keep (issued_by a) certs ++ rest)

  -- The re-issuance of one stale child; it counts 1.
  unfoldable pub reissue_stale : String → Certificate → String → Action (State W) ℕ
  reissue_stale ca_skid child akid = do
    within
        (text "triggering reissuance for stale child "
          ∷ text child.namespace
          ∷ text "/"
          ∷ text child.name
          ∷ [])
        (trigger_reissuance c child)
    record_event (record {
      warning = true;
      reason = "StaleDownstreamReissuanceTriggered";
      message =
          text child.namespace
          ∷ text "/"
          ∷ text child.name
          ∷ text " is signed by key "
          ∷ text akid
          ∷ text ", not the current CA key "
          ∷ text ca_skid
          ∷ text "; triggered re-issuance"
          ∷ [];
    })
    pure 1

  -- One round of `sweepStaleDirectChildren`: how many were triggered.
  unfoldable pub sweep_child : String → Certificate → Action (State W) ℕ
  sweep_child ca_skid child =
      if not (is_certificate_resource_ready child) || is_certificate_issuing_true child
      then pure 0
      else handle (certificate_akid c child)
          (λ akid.
            if akid == "" || akid == ca_skid then pure 0 else reissue_stale ca_skid child akid)
          (λ _. pure 0)

  -- The loop of `sweepStaleDirectChildren`.
  unfoldable pub sweep_children : String → List Certificate → Action (State W) ℕ
  sweep_children ca_skid [] = pure 0
  sweep_children ca_skid (child ∷ children) = do
    n ← sweep_child ca_skid child
    m ← sweep_children ca_skid children
    pure (n + m)

  -- `sweepStaleDirectChildren`.
  unfoldable pub sweep_stale_direct_children : Certificate → String → Action (State W) ℕ
  sweep_stale_direct_children ca_cert ca_skid = do
    pkir ← get_pkir
    anchors ←
        within
          (text "finding issuers for CA "
            ∷ text ca_cert.namespace
            ∷ text "/"
            ∷ text ca_cert.name
            ∷ [])
          (find_issuers_for_ca_cert c ca_cert)
    children ←
        direct_children
          (anchors_resolving_to_secret anchors ca_cert pkir.spec.root_ca_ref.certificate_namespace)
    triggered ← sweep_children ca_skid children
    set_metrics (λ p. record_stale_downstream_reissued p triggered)
    pure triggered

  -- `loadIntermediateCert`.
  unfoldable pub load_intermediate_cert : Action (State W) Certificate
  load_intermediate_cert = do
    pkir ← get_pkir
    on_option pkir.spec.intermediate_ca_ref
        (fail (errorf (text "role=IntermediateCA but spec.intermediateCA is nil" ∷ [])))
        λ ref.
          within
            (text "getting intermediate CA Certificate "
              ∷ text ref.certificate_namespace
              ∷ text "/"
              ∷ text ref.certificate_name
              ∷ [])
            (call (c.get_certificate ref.certificate_namespace ref.certificate_name))

  -- `sweepIntermediateChildren`.
  unfoldable pub sweep_intermediate_children : Action (State W) Requeue
  sweep_intermediate_children = do
    cert ← load_intermediate_cert
    pkir ← get_pkir
    sweep_stale_direct_children cert pkir.status.current_skid
    pure stale_downstream_sweep_interval

  -- `sweepRootChildren`.
  unfoldable pub sweep_root_children : Action (State W) Requeue
  sweep_root_children = do
    pkir ← get_pkir
    cert ← get_root_certificate c (
        text "getting root CA Certificate "
        ∷ text pkir.spec.root_ca_ref.certificate_namespace
        ∷ text "/"
        ∷ text pkir.spec.root_ca_ref.certificate_name
        ∷ [])
    sweep_stale_direct_children cert pkir.status.current_skid
    pure stale_downstream_sweep_interval
