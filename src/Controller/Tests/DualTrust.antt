-- ===== src/Controller/Tests/DualTrust.antt =====
-- The theorem about the dual-trust window, on the root in memory.
use private_pki_operator.Common.{◌≡◌, refl}
use private_pki_operator.Action.{pure, fail, lift, gets, within, modify, handle, each, ◌>>=◌}
use private_pki_operator.Api.{dual_trust_active, awaiting_reissuance}
use private_pki_operator.Cluster.Memory.{World, memory}
use private_pki_operator.Controller.State.{
  State, call, now, get_pkir, set_pkir, set_status, set_metrics, record_event, update_status,
}
use private_pki_operator.Controller.Conditions.{transition_to, set_condition, enter_phase}
use private_pki_operator.Controller.Certificates.{
  get_root_pem, get_root_certificate, tls_crt, discover_intermediates, list_cluster_issuers,
  list_all_certificates, trigger_reissuance,
}
use private_pki_operator.Controller.TrustBundle.{extend_staging_config_map, get_staging_config_map}
use private_pki_operator.Controller.Phases.{reconcile_dual_trust_active, trigger_tier1}
use private_pki_operator.Controller.Retention.BothRoots.{
  BothStaged, reconcile_dual_trust_active-BothStaged,
}
use private_pki_operator.Controller.Example.{rotation, start, memory-StoresStatus}

abbrev dual : State World
dual = record (start dual_trust_active) { pkir = rotation dual_trust_active }

reissues : (reconcile_dual_trust_active memory dual).1.pkir.status.phase ≡ awaiting_reissuance
unfolding reconcile_dual_trust_active trigger_tier1 extend_staging_config_map get_staging_config_map
    get_root_pem get_root_certificate tls_crt discover_intermediates list_cluster_issuers
    list_all_certificates trigger_reissuance set_condition record_event transition_to update_status
    get_pkir set_pkir set_metrics set_status now call pure lift gets within modify handle each ◌>>=◌
    fail enter_phase
reissues = refl

reconcile_dual_trust_active-BothStaged_example : BothStaged memory dual
reconcile_dual_trust_active-BothStaged_example =
    reconcile_dual_trust_active-BothStaged memory memory-StoresStatus dual (λ e. cc) reissues
