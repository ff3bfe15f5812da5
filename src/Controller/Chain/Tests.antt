-- ===== src/Controller/Chain/Tests.antt =====
-- The theorems about the checks of the chain, in the cluster in memory.
use private_pki_operator.Common.{◌≡◌, ◌↔◌, none, List, [], ◌∷◌, All, true}
use private_pki_operator.Action.{ok}
use private_pki_operator.Api.{verifying_chain}
use private_pki_operator.Cluster.{Certificate}
use private_pki_operator.Cluster.Memory.{World, memory}
use private_pki_operator.Controller.State.{State}
use private_pki_operator.Controller.VerifyChain.{
  verify_tier1_chain, verify_tier2_chain, verify_leaf_chain,
}
use private_pki_operator.Controller.Chain.{Signed, IsFresh, IsRenewed, verify_tier1_chain-Signed}
use private_pki_operator.Controller.Chain.Tiers.{
  verify_tier2_chain-IsFresh, verify_leaf_chain-IsRenewed,
}
use private_pki_operator.Controller.Example.{certificate, rotation, start}

abbrev here : State World
here = record (start verifying_chain) { pkir = rotation verifying_chain }

abbrev intermediates : List Certificate
intermediates = certificate "intermediate" "root-issuer" true 6 ∷ []

verify_tier1_chain-Signed_example :
    (verify_tier1_chain memory intermediates here ≡ (ok none, here))
    ↔ Signed memory intermediates here here
verify_tier1_chain-Signed_example = verify_tier1_chain-Signed memory intermediates here here

verify_tier2_chain-IsFresh_example :
    (verify_tier2_chain memory 5 intermediates here ≡ (ok none, here))
    ↔ ((here ≡ here) × All (IsFresh 5) intermediates)
verify_tier2_chain-IsFresh_example = verify_tier2_chain-IsFresh memory 5 intermediates here here

verify_leaf_chain-IsRenewed_example :
    (verify_leaf_chain memory 5 intermediates intermediates here ≡ (ok none, here))
    ↔ ((here ≡ here) × All (IsRenewed 5 intermediates) intermediates)
verify_leaf_chain-IsRenewed_example =
    verify_leaf_chain-IsRenewed memory 5 intermediates intermediates here here
