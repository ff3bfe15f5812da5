-- ===== src/Controller/Tests/Intermediate.antt =====
-- The theorems about an intermediate's own cascade, in a cluster in memory.
use private_pki_operator.Pki.Toy.{encode_field, decode_field}
use private_pki_operator.Pki.KeyId.{format_key_id, parse_cert, skid_from_pem, akid_from_pem}
use private_pki_operator.Controller.Certificates.{
  condition_is_true, tls_crt, certificate_akid, trigger_reissuance, list_cluster_issuers,
}
use private_pki_operator.Controller.Conditions.{transition_to, set_condition, enter_phase}
use private_pki_operator.Controller.EnsureIntermediates.{intermediate_skid, ref_skid}
use private_pki_operator.Controller.StaleSweep.{load_intermediate_cert}
use private_pki_operator.Controller.Discovery.{
  discover_downstream_bfs, collect_level, collect_children, collect_child, find_issuers_for_ca_cert,
  anchor_scope, is_child_of, is_next_cluster_issuer, is_next_issuer,
}
use private_pki_operator.Common.{String, refl, ◌≡◌, some, [], ◌∷◌}
use private_pki_operator.Action.{pure, fail, lift, gets, within, modify, handle, ◌>>=◌}
use private_pki_operator.Api.{
  Phase, idle, verifying_chain, awaiting_reissuance, complete, intermediate_ca, PkiRotation,
}
use private_pki_operator.Cluster.Memory.{World, memory}
use private_pki_operator.Controller.State.{
  State, call, now, get_pkir, set_pkir, set_status, set_metrics, record_event, get_reader,
  update_status,
}
use private_pki_operator.Controller.Intermediate.{
  reconcile_verifying_chain_intermediate, reconcile_idle_intermediate, verify_cascade,
  close_cascade, mark_intermediate_chain_verified, discover_below, pending_downstream_certs,
  pending_cert, direct_child_akid_mismatched, is_direct, intermediate_skid_changed,
  is_owner_root_ca_idle, owner_is_idle,
}
use private_pki_operator.Controller.Example.{rotation, start, memory-StoresStatus}
use private_pki_operator.Controller.Chain.Cascaded.{
  Reissued, reconcile_verifying_chain_intermediate-Reissued,
}
use private_pki_operator.Controller.Owner.{StartsCascade}
use private_pki_operator.Controller.Owner.Start.{reconcile_idle_intermediate-StartsCascade}

-- The rotation of the intermediate 03, whose recorded key is given.
abbrev below : Phase → String → PkiRotation
below phase skid =
    let root = rotation phase in
    record root {
      owner_references = record { kind = "PKIRotation"; name = "rotation"; uid = "1" } ∷ [];
      spec = record root.spec {
        role = intermediate_ca;
        intermediate_ca_ref =
            some (record { certificate_name = "intermediate"; certificate_namespace = "pki" });
      };
      status = record root.status { current_skid = skid; previous_skid = "" };
    }

abbrev pub renewing : State World
renewing = record (start verifying_chain) { pkir = below verifying_chain "03" }

pub closes : (reconcile_verifying_chain_intermediate memory renewing).1.pkir.status.phase ≡ complete
unfolding reconcile_verifying_chain_intermediate verify_cascade close_cascade
    mark_intermediate_chain_verified discover_below pending_downstream_certs pending_cert
    direct_child_akid_mismatched is_direct discover_downstream_bfs collect_level collect_children
    collect_child find_issuers_for_ca_cert anchor_scope is_child_of is_next_cluster_issuer
    is_next_issuer load_intermediate_cert intermediate_skid ref_skid transition_to set_condition
    enter_phase condition_is_true tls_crt certificate_akid trigger_reissuance list_cluster_issuers
    format_key_id parse_cert skid_from_pem akid_from_pem encode_field decode_field call now get_pkir
    set_pkir set_status set_metrics record_event get_reader update_status pure fail lift gets within
    modify handle ◌>>=◌
closes = refl

reconcile_verifying_chain_intermediate-Reissued_example : Reissued memory renewing
reconcile_verifying_chain_intermediate-Reissued_example =
    reconcile_verifying_chain_intermediate-Reissued memory memory-StoresStatus renewing (λ e. cc)
      closes

-- The key was 09 before, and the owner is idle.
abbrev changed : State World
changed = record (start idle) { pkir = below idle "09" }

starts : (reconcile_idle_intermediate memory changed).1.pkir.status.phase ≡ awaiting_reissuance
unfolding reconcile_idle_intermediate intermediate_skid_changed is_owner_root_ca_idle owner_is_idle
    load_intermediate_cert intermediate_skid ref_skid transition_to set_condition enter_phase
    format_key_id parse_cert skid_from_pem akid_from_pem tls_crt encode_field decode_field call now
    get_pkir set_pkir set_status set_metrics record_event get_reader update_status pure fail lift
    gets within modify handle ◌>>=◌
starts = refl

reconcile_idle_intermediate-StartsCascade_example : StartsCascade memory changed
reconcile_idle_intermediate-StartsCascade_example =
    reconcile_idle_intermediate-StartsCascade memory memory-StoresStatus changed (λ e. cc) starts
