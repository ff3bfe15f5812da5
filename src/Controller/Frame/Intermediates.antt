-- ===== src/Controller/Frame/Intermediates.antt =====
-- The management of child rotations and the sweep of stale children keep what a frame keeps.
use private_pki_operator.Common.{String, List, [], ◌∷◌}
use private_pki_operator.Action.Keeps.{Keeps, keeps_rules}
use private_pki_operator.Api.{Phase, Status, PkiRotation, CertificateRef}
use private_pki_operator.Cluster.{Client, Certificate}
use private_pki_operator.Controller.State.{State}
use private_pki_operator.Controller.Discovery.{IssuerAnchor}
use private_pki_operator.Controller.EnsureIntermediates.{
  ref_skid, intermediate_skid, bootstrap_skid, ensure_child_pkir, ensure_children, discover_cas,
  ensure_intermediate_ca_crs,
}
use private_pki_operator.Controller.EnsureIntermediates.Sync.{
  sync_child_to, sync_child, sync_children, sync_child_skids,
}
use private_pki_operator.Controller.StaleSweep.{
  direct_children, reissue_stale, sweep_child, sweep_children, sweep_stale_direct_children,
  load_intermediate_cert, sweep_intermediate_children, sweep_root_children,
}
use private_pki_operator.Controller.Frame.{Frame}
use private_pki_operator.Controller.Frame.Rules.{frame_rules}
use private_pki_operator.Controller.Frame.Reads.{
  Keeps-get_pkir, Keeps-tls_crt, Keeps-get_root_certificate, Keeps-find_issuers_for_ca_cert,
  Keeps-discover_downstream, Keeps-certificate_akid, Keeps-trigger_reissuance,
}

module _ {W : Type 0} {c : Client W} {Q : Phase → Type 0} {U : (Status → Status) → Type 0}
    {P : State W → Type 0} (F : Frame c Q U P) where
  Keeps-ref_skid : (ref : CertificateRef) → Keeps P (ref_skid c ref)
  unfolding ref_skid
  Keeps-ref_skid ref = search (keeps_rules, frame_rules, Keeps-tls_crt)

  pub Keeps-intermediate_skid : (p : PkiRotation) → Keeps P (intermediate_skid c p)
  unfolding intermediate_skid
  Keeps-intermediate_skid p = search (keeps_rules, Keeps-ref_skid)

  Keeps-bootstrap_skid : (p : PkiRotation) → Keeps P (bootstrap_skid c p)
  unfolding bootstrap_skid
  Keeps-bootstrap_skid p = search (keeps_rules, frame_rules, Keeps-intermediate_skid)

  Keeps-ensure_child_pkir : (cert : Certificate) → Keeps P (ensure_child_pkir c cert)
  unfolding ensure_child_pkir
  Keeps-ensure_child_pkir cert =
      search (keeps_rules, frame_rules, Keeps-get_pkir, Keeps-bootstrap_skid)

  Keeps-ensure_children : (cas : List Certificate) → Keeps P (ensure_children c cas)
  unfolding ensure_children
  Keeps-ensure_children [] = search keeps_rules
  Keeps-ensure_children (ca ∷ cas) =
      let rest = Keeps-ensure_children cas in search (keeps_rules, Keeps-ensure_child_pkir)

  Keeps-discover_cas : (anchors : List IssuerAnchor) → Keeps P (discover_cas c anchors)
  unfolding discover_cas
  Keeps-discover_cas [] = search keeps_rules
  Keeps-discover_cas (a ∷ anchors) =
      let rest = Keeps-discover_cas anchors in search (keeps_rules, Keeps-discover_downstream)

  pub Keeps-ensure_intermediate_ca_crs : Keeps P (ensure_intermediate_ca_crs c)
  unfolding ensure_intermediate_ca_crs
  Keeps-ensure_intermediate_ca_crs = search (
    keeps_rules, Keeps-get_pkir, Keeps-get_root_certificate, Keeps-find_issuers_for_ca_cert,
    Keeps-discover_cas, Keeps-ensure_children,
  )

  Keeps-sync_child_to : (p : PkiRotation) (skid : String) → Keeps P (sync_child_to c p skid)
  unfolding sync_child_to
  Keeps-sync_child_to p skid = search (keeps_rules, frame_rules)

  Keeps-sync_child : (root p : PkiRotation) → Keeps P (sync_child c root p)
  unfolding sync_child
  Keeps-sync_child root p = search (keeps_rules, Keeps-intermediate_skid, Keeps-sync_child_to)

  Keeps-sync_children :
      (root : PkiRotation) (ps : List PkiRotation) → Keeps P (sync_children c root ps)
  unfolding sync_children
  Keeps-sync_children root [] = search keeps_rules
  Keeps-sync_children root (p ∷ ps) =
      let rest = Keeps-sync_children root ps in search (keeps_rules, Keeps-sync_child)

  pub Keeps-sync_child_skids : Keeps P (sync_child_skids c)
  unfolding sync_child_skids
  Keeps-sync_child_skids = search (keeps_rules, frame_rules, Keeps-get_pkir, Keeps-sync_children)

  Keeps-direct_children : (anchors : List IssuerAnchor) → Keeps P (direct_children c anchors)
  unfolding direct_children
  Keeps-direct_children [] = search keeps_rules
  Keeps-direct_children (a ∷ anchors) =
      let rest = Keeps-direct_children anchors in search (keeps_rules, frame_rules)

  Keeps-reissue_stale :
      (ca_skid : String) (child : Certificate) (akid : String)
      → Keeps P (reissue_stale c ca_skid child akid)
  unfolding reissue_stale
  Keeps-reissue_stale ca_skid child akid =
      search (keeps_rules, frame_rules, Keeps-trigger_reissuance)

  Keeps-sweep_child :
      (ca_skid : String) (child : Certificate) → Keeps P (sweep_child c ca_skid child)
  unfolding sweep_child
  Keeps-sweep_child ca_skid child =
      search (keeps_rules, Keeps-certificate_akid, Keeps-reissue_stale)

  Keeps-sweep_children :
      (ca_skid : String) (children : List Certificate) → Keeps P (sweep_children c ca_skid children)
  unfolding sweep_children
  Keeps-sweep_children ca_skid [] = search keeps_rules
  Keeps-sweep_children ca_skid (child ∷ children) =
      let rest = Keeps-sweep_children ca_skid children in search (keeps_rules, Keeps-sweep_child)

  Keeps-sweep_stale_direct_children :
      (cert : Certificate) (skid : String) → Keeps P (sweep_stale_direct_children c cert skid)
  unfolding sweep_stale_direct_children
  Keeps-sweep_stale_direct_children cert skid =
      search
        (
          keeps_rules, frame_rules, Keeps-get_pkir, Keeps-find_issuers_for_ca_cert,
          Keeps-direct_children, Keeps-sweep_children,
        )
        depth 9

  pub Keeps-load_intermediate_cert : Keeps P (load_intermediate_cert c)
  unfolding load_intermediate_cert
  Keeps-load_intermediate_cert = search (keeps_rules, frame_rules, Keeps-get_pkir)

  pub Keeps-sweep_intermediate_children : Keeps P (sweep_intermediate_children c)
  unfolding sweep_intermediate_children
  Keeps-sweep_intermediate_children =
      search (
        keeps_rules, Keeps-get_pkir, Keeps-load_intermediate_cert,
        Keeps-sweep_stale_direct_children,
      )

  pub Keeps-sweep_root_children : Keeps P (sweep_root_children c)
  unfolding sweep_root_children
  Keeps-sweep_root_children =
      search
        (keeps_rules, Keeps-get_pkir, Keeps-get_root_certificate, Keeps-sweep_stale_direct_children)
