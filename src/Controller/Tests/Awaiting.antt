-- ===== src/Controller/Tests/Awaiting.antt =====
-- The theorem about AwaitingReissuance, on the root in memory.
use private_pki_operator.Common.{◌≡◌, refl}
use private_pki_operator.Action.{pure, fail, lift, gets, within, modify, handle, each, ◌>>=◌}
use private_pki_operator.Api.{awaiting_reissuance, verifying_chain}
use private_pki_operator.Cluster.Memory.{World, memory}
use private_pki_operator.Pki.Toy.{encode_field, decode_field}
use private_pki_operator.Pki.KeyId.{format_key_id, parse_cert, akid_from_pem}
use private_pki_operator.Controller.State.{
  State, call, now, get_pkir, set_pkir, set_status, set_metrics, record_event, get_reader,
  update_status,
}
use private_pki_operator.Controller.Conditions.{transition_to, set_condition, enter_phase}
use private_pki_operator.Controller.Certificates.{
  get_root_certificate, tls_crt, discover_intermediates, discover_namespace_intermediates,
  list_tier2, discover_leaf_certs, list_cluster_issuers, list_all_certificates,
  issuer_names_backed_by, is_tier2, is_leaf_below, certificate_akid, condition_is_true,
  latest_not_before, trigger_reissuance,
}
use private_pki_operator.Controller.Cascade.{
  reconcile_awaiting_reissuance, await_tier2, finish_reissuance, trigger_leaf_reissuance,
  tier1_reissued_against_new_root, tier2_pending_reason, trigger_if_stale,
}
use private_pki_operator.Controller.Chain.Awaited.{Awaited, reconcile_awaiting_reissuance-Awaited}
use private_pki_operator.Controller.Example.{rotation, start, memory-StoresStatus}

abbrev awaiting : State World
awaiting = record (start awaiting_reissuance) { pkir = rotation awaiting_reissuance }

goes_on : (reconcile_awaiting_reissuance memory awaiting).1.pkir.status.phase ≡ verifying_chain
unfolding reconcile_awaiting_reissuance await_tier2 finish_reissuance trigger_leaf_reissuance
    tier1_reissued_against_new_root tier2_pending_reason trigger_if_stale discover_intermediates
    discover_namespace_intermediates list_tier2 discover_leaf_certs list_cluster_issuers
    list_all_certificates issuer_names_backed_by is_tier2 is_leaf_below certificate_akid
    akid_from_pem condition_is_true latest_not_before trigger_reissuance set_condition record_event
    get_reader transition_to update_status get_root_certificate tls_crt parse_cert format_key_id
    encode_field decode_field get_pkir set_pkir set_metrics set_status now call pure lift gets
    within modify handle each ◌>>=◌ fail enter_phase
goes_on = refl

reconcile_awaiting_reissuance-Awaited_example : Awaited memory awaiting
reconcile_awaiting_reissuance-Awaited_example =
    reconcile_awaiting_reissuance-Awaited memory memory-StoresStatus awaiting (λ e. cc) goes_on
