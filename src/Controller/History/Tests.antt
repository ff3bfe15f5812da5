-- ===== src/Controller/History/Tests.antt =====
-- A whole rotation of the root in memory.
use private_pki_operator.Common.{◌≡◌, refl, false}
use private_pki_operator.Action.{ok, pure, fail, lift, gets, within, modify, handle, each, ◌>>=◌}
use private_pki_operator.Api.{
  Phase, unset, idle, preserving_old_root, dual_trust_active, awaiting_reissuance, verifying_chain,
  complete, is_intermediate_ca,
}
use private_pki_operator.Cluster.Memory.{World, memory}
use private_pki_operator.Pki.Toy.{encode_field, decode_field}
use private_pki_operator.Pki.KeyId.{format_key_id, parse_cert, akid_from_pem, skid_from_pem}
use private_pki_operator.Controller.State.{
  call, now, get_pkir, set_pkir, set_status, set_metrics, record_event, get_reader, update_status,
}
use private_pki_operator.Controller.Conditions.{transition_to, set_condition, enter_phase}
use private_pki_operator.Controller.Certificates.{
  current_root_skid, get_root_pem, get_root_certificate, tls_crt, discover_intermediates,
  discover_namespace_intermediates, list_tier2, discover_leaf_certs, list_cluster_issuers,
  list_all_certificates, issuer_names_backed_by, is_tier2, is_leaf_below, certificate_akid,
  condition_is_true, latest_not_before, trigger_reissuance,
}
use private_pki_operator.Controller.TrustBundle.{
  extend_staging_config_map, get_staging_config_map, ensure_staging_config_map, ensure_bundle,
  create_trust_bundle,
}
use private_pki_operator.Controller.VerifyChain.{
  verify_tier1_chain, verify_tier2_chain, verify_leaf_chain, tier2_is_fresh, parent_not_before,
}
use private_pki_operator.Controller.Phases.{
  reconcile_idle, idle_skid_changed, reconcile_preserving_old_root, preserving_changed,
  reconcile_dual_trust_active, trigger_tier1,
}
use private_pki_operator.Controller.Cascade.{
  reconcile_awaiting_reissuance, await_tier2, finish_reissuance, trigger_leaf_reissuance,
  tier1_reissued_against_new_root, tier2_pending_reason, trigger_if_stale,
  reconcile_verifying_chain, verify_tier2, verify_leaves, chain_is_verified,
}
use private_pki_operator.Controller.Reconcile.{reconcile, reconcile_pkir, reconcile_root}
use private_pki_operator.Controller.Example.{rotation, world, start, memory-StoresStatus}
use private_pki_operator.Controller.History.{Reconciles, Run, begins, reconciled, Rotated}
use private_pki_operator.Controller.History.Complete.{Run-Rotated}

-- The cluster before the new root was seen.
abbrev before_renewal : World
before_renewal = record (world idle) {
  rotation = record (rotation idle) {
    status = record (rotation idle).status { current_skid = "01"; previous_skid = "" };
  };
}

abbrev step :
    {p q : Phase} (w : World)
    → memory.get_pki_rotation "rotation" w ≡ (ok w.rotation, w)
    → is_intermediate_ca w.rotation.spec.role ≡ false
    → w.rotation.status.phase ≡ p
    → (reconcile memory "rotation" (record (start p) { world = w })).1.pkir.status.phase ≡ q
    → Reconciles memory p q
step {p = p} w read role found left = record {
  name = "rotation";
  before = record (start p) { world = w };
  pkir = w.rotation;
  world = w;
  read = read;
  role = role;
  found = found;
  left = left;
}

whole_rotation : Run memory complete
unfolding reconcile reconcile_pkir reconcile_root reconcile_idle idle_skid_changed
    reconcile_preserving_old_root preserving_changed reconcile_dual_trust_active trigger_tier1
    reconcile_awaiting_reissuance await_tier2 finish_reissuance trigger_leaf_reissuance
    tier1_reissued_against_new_root tier2_pending_reason trigger_if_stale reconcile_verifying_chain
    verify_tier2 verify_leaves chain_is_verified verify_tier1_chain verify_tier2_chain
    verify_leaf_chain tier2_is_fresh parent_not_before extend_staging_config_map
    get_staging_config_map ensure_staging_config_map ensure_bundle create_trust_bundle
    current_root_skid get_root_pem get_root_certificate tls_crt discover_intermediates
    discover_namespace_intermediates list_tier2 discover_leaf_certs list_cluster_issuers
    list_all_certificates issuer_names_backed_by is_tier2 is_leaf_below certificate_akid
    condition_is_true latest_not_before trigger_reissuance transition_to set_condition enter_phase
    call now get_pkir set_pkir set_status set_metrics record_event get_reader update_status
    format_key_id parse_cert akid_from_pem skid_from_pem encode_field decode_field pure fail lift
    gets within modify handle each ◌>>=◌
whole_rotation =
    reconciled
      (reconciled
        (reconciled
          (reconciled
            (reconciled
              (reconciled begins (step {p = unset} {q = idle} (world unset) refl refl refl refl))
              (step {p = idle} {q = preserving_old_root} before_renewal refl refl refl refl))
            (step {p = preserving_old_root} {q = dual_trust_active} (world preserving_old_root) refl
              refl refl refl))
          (step {p = dual_trust_active} {q = awaiting_reissuance} (world dual_trust_active) refl
            refl refl refl))
        (step {p = awaiting_reissuance} {q = verifying_chain} (world awaiting_reissuance) refl refl
          refl refl))
      (step {p = verifying_chain} {q = complete} (world verifying_chain) refl refl refl refl)

Run-Rotated_example : Rotated memory whole_rotation
Run-Rotated_example = Run-Rotated memory memory-StoresStatus whole_rotation
