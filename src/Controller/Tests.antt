-- ===== src/Controller/Tests.antt =====
-- The theorems about whole reconciles, on a root's rotation in a cluster in memory.
pub mod Intermediate
pub mod Children
pub mod Watches
pub mod Discovery
pub mod DualTrust
pub mod Awaiting
pub mod Sweep
pub mod Whole
use private_pki_operator.Common.{String, false, ◌≡◌, ◌≢◌, ◌↔◌, refl, inr, some, [], ◌∷◌}
use private_pki_operator.Action.{ok, pure, fail, lift, gets, within, modify, handle, ◌>>=◌}
use private_pki_operator.Api.{verifying_chain, complete, preserving_old_root}
use private_pki_operator.Cluster.Memory.{World, memory}
use private_pki_operator.Pki.Toy.{toy_codec, toy_codec-IsLawful, encode_field, decode_field}
use private_pki_operator.Pki.Pem.{is_target, bytes_equal}
use private_pki_operator.Pki.KeyId.{format_key_id, parse_cert, skid_from_pem, akid_from_pem}
use private_pki_operator.Controller.State.{
  State, call, now, get_pkir, set_pkir, set_status, set_metrics, record_event, get_reader,
  update_status,
}
use private_pki_operator.Controller.Conditions.{transition_to, set_condition, enter_phase}
use private_pki_operator.Controller.Certificates.{
  current_root_skid, get_root_pem, get_root_certificate, tls_crt, discover_intermediates,
  discover_namespace_intermediates, list_tier2, discover_leaf_certs, list_cluster_issuers,
  list_all_certificates, issuer_names_backed_by, is_tier2, is_leaf_below, certificate_akid,
  condition_is_true, latest_not_before,
}
use private_pki_operator.Controller.TrustBundle.{staged}
use private_pki_operator.Controller.VerifyChain.{
  verify_tier1_chain, verify_tier2_chain, verify_leaf_chain, tier2_is_fresh, parent_not_before,
}
use private_pki_operator.Controller.Phases.{reconcile_preserving_old_root, preserving_changed}
use private_pki_operator.Controller.Cascade.{
  reconcile_verifying_chain, verify_tier2, verify_leaves, chain_is_verified,
}
use private_pki_operator.Controller.Reconcile.{reconcile, reconcile_pkir, reconcile_root}
use private_pki_operator.Controller.Graph.{Follows, reconcile-Follows}
use private_pki_operator.Controller.Retention.{reconcile_retains, reconcile_spares}
use private_pki_operator.Controller.Chain.Verified.{Verified}
use private_pki_operator.Controller.Chain.Complete.{reconcile_verifying_chain-Verified}
use private_pki_operator.Controller.KeyIds.{IsApart}
use private_pki_operator.Controller.KeyIds.Rotation.{reconcile-IsApart}
use private_pki_operator.Controller.Example.{
  der_of, rotation, world, start, staging, InMap, InWorld, memory-StoresStatus, memory-Guards,
}

reconcile-Follows_example :
    Follows false verifying_chain
      (reconcile memory "rotation" (start verifying_chain)).1.pkir.status.phase
reconcile-Follows_example =
    reconcile-Follows memory memory-StoresStatus "rotation" (start verifying_chain)
      (rotation verifying_chain) (world verifying_chain) refl

-- The staging ConfigMap begins with both roots.
old-InMap : InMap (der_of 1 1) (some staging)
unfolding staged encode_field bytes_equal
old-InMap = (
  refl,
  refl,
  record {
    first =
        record { header = []; bytes = der_of 1 1 }
        ∷ record { header = []; bytes = der_of 2 2 }
        ∷ [];
    others = [];
    text_is = refl;
    is_there = refl;
  },
)

new-InMap : InMap (der_of 2 2) (some staging)
unfolding staged encode_field bytes_equal
new-InMap = (
  refl,
  refl,
  record {
    first =
        record { header = []; bytes = der_of 1 1 }
        ∷ record { header = []; bytes = der_of 2 2 }
        ∷ [];
    others = [];
    text_is = refl;
    is_there = refl;
  },
)

-- The old root stays while the chain is being verified.
reconcile_retains_example :
    InWorld (der_of 1 1) (reconcile memory "rotation" (start verifying_chain)).1.world
reconcile_retains_example =
    reconcile_retains memory memory-StoresStatus (der_of 1 1) (InWorld (der_of 1 1)) "rotation"
      (start verifying_chain) (rotation verifying_chain) (world verifying_chain) refl
      (memory-Guards (der_of 1 1)) (inr cc) old-InMap

new_is_spared : is_target toy_codec "01" (record { header = []; bytes = der_of 2 2 }) ≡ false
unfolding is_target format_key_id
new_is_spared = refl

-- The new root stays when the old one is trimmed.
reconcile_spares_example :
    InWorld (der_of 2 2) (reconcile memory "rotation" (start complete)).1.world
reconcile_spares_example =
    reconcile_spares memory memory-StoresStatus (der_of 2 2) (InWorld (der_of 2 2)) "rotation"
      (start complete) (rotation complete) (world complete) refl toy_codec-IsLawful
      (memory-Guards (der_of 2 2)) new_is_spared new-InMap

-- In PreservingOldRoot the renewed root is seen, and the reconcile returns.
pub preserving_returns : (reconcile memory "rotation" (start preserving_old_root)).0 ≡ ok 0
unfolding reconcile reconcile_pkir reconcile_root reconcile_preserving_old_root preserving_changed
    transition_to update_status current_root_skid get_root_pem get_root_certificate tls_crt
    skid_from_pem parse_cert format_key_id encode_field decode_field get_pkir set_pkir set_metrics
    set_status now call pure lift gets within modify handle ◌>>=◌
preserving_returns = refl

old_root_known : ◌≢◌ {A = String} "01" ""
old_root_known = cc

reconcile-IsApart_example :
    IsApart (reconcile memory "rotation" (start preserving_old_root)).1.pkir.status
reconcile-IsApart_example =
    reconcile-IsApart memory memory-StoresStatus "rotation" (start preserving_old_root)
      (rotation preserving_old_root) (world preserving_old_root) 0 refl refl old_root_known
      preserving_returns

abbrev verifying : State World
verifying = record (start verifying_chain) { pkir = rotation verifying_chain }

reconcile_verifying_chain-Verified_example :
    ((reconcile_verifying_chain memory verifying).1.pkir.status.phase ≡ complete)
    ↔ Verified memory verifying
reconcile_verifying_chain-Verified_example =
    reconcile_verifying_chain-Verified memory memory-StoresStatus verifying refl

-- The chain is verified there.
verifying_completes : (reconcile_verifying_chain memory verifying).1.pkir.status.phase ≡ complete
unfolding reconcile_verifying_chain verify_tier2 verify_leaves chain_is_verified verify_tier1_chain
    verify_tier2_chain verify_leaf_chain tier2_is_fresh parent_not_before discover_intermediates
    discover_namespace_intermediates list_tier2 discover_leaf_certs list_cluster_issuers
    list_all_certificates issuer_names_backed_by is_tier2 is_leaf_below certificate_akid
    akid_from_pem condition_is_true latest_not_before set_condition record_event get_reader
    transition_to update_status get_root_certificate tls_crt parse_cert format_key_id encode_field
    decode_field get_pkir set_pkir set_metrics set_status now call pure lift gets within modify
    handle ◌>>=◌ fail enter_phase
verifying_completes = refl
