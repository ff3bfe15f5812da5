-- ===== src/Controller/Renewal/Tests.antt =====
-- The theorems about the start of a rotation, where the root's key was 01 and is 02.
use private_pki_operator.Common.{◌≡◌, refl}
use private_pki_operator.Action.{pure, fail, lift, gets, within, modify, handle, ◌>>=◌}
use private_pki_operator.Api.{idle, preserving_old_root}
use private_pki_operator.Cluster.Memory.{World, memory}
use private_pki_operator.Pki.Toy.{encode_field, decode_field}
use private_pki_operator.Pki.KeyId.{format_key_id, parse_cert, skid_from_pem}
use private_pki_operator.Controller.State.{
  State, call, now, get_pkir, set_pkir, set_status, set_metrics, update_status,
}
use private_pki_operator.Controller.Conditions.{transition_to, enter_phase}
use private_pki_operator.Controller.Certificates.{
  current_root_skid, get_root_pem, get_root_certificate, tls_crt,
}
use private_pki_operator.Controller.TrustBundle.{
  ensure_staging_config_map, ensure_bundle, create_trust_bundle, get_staging_config_map,
}
use private_pki_operator.Controller.Phases.{reconcile_idle, idle_skid_changed}
use private_pki_operator.Controller.Example.{rotation, start, memory-StoresStatus}
use private_pki_operator.Controller.Renewal.{RenewalSeen, reconcile_idle-RenewalSeen}

abbrev resting : State World
resting = record (start idle) {
  pkir = record (rotation idle) {
    status = record (rotation idle).status { current_skid = "01"; previous_skid = "" };
  };
}

starts : (reconcile_idle memory resting).1.pkir.status.phase ≡ preserving_old_root
unfolding reconcile_idle idle_skid_changed ensure_staging_config_map ensure_bundle
    create_trust_bundle get_staging_config_map current_root_skid get_root_pem get_root_certificate
    tls_crt transition_to enter_phase call now get_pkir set_pkir set_status set_metrics
    update_status format_key_id parse_cert skid_from_pem encode_field decode_field pure fail lift
    gets within modify handle ◌>>=◌
starts = refl

reconcile_idle-RenewalSeen_example : RenewalSeen memory resting
reconcile_idle-RenewalSeen_example =
    reconcile_idle-RenewalSeen memory memory-StoresStatus resting (λ e. cc) starts
