-- ===== src/Controller/Tests/Whole.antt =====
-- The theorem about the whole cascade, where the intermediate's leaf was renewed after it.
use private_pki_operator.Common.{refl}
use private_pki_operator.Cluster.Memory.{memory}
use private_pki_operator.Controller.State.{get_reader}
use private_pki_operator.Controller.Chain.Whole.{
  ReadsStay, WhollyReissued, reconcile_verifying_chain_intermediate-WhollyReissued,
}
use private_pki_operator.Controller.Example.{memory-StoresStatus}
use private_pki_operator.Controller.Tests.Intermediate.{renewing, closes}
use private_pki_operator.Controller.Tests.Discovery.{AsItIs, snapshot, memory-IsSteady}

reads : ReadsStay memory AsItIs
unfolding get_reader
reads = record {
  get_certificate = λ ns n. record { at = λ w h. h };
  get_reader = λ ns n. record { at = λ w h. h };
}

reconcile_verifying_chain_intermediate-WhollyReissued_example :
    WhollyReissued memory snapshot renewing
reconcile_verifying_chain_intermediate-WhollyReissued_example =
    reconcile_verifying_chain_intermediate-WhollyReissued memory AsItIs snapshot memory-IsSteady
      reads renewing memory-StoresStatus refl (λ e. cc) closes
