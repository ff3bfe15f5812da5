-- ===== src/Controller/Conditions/Tests.antt =====
-- The theorems about status writes at a root's rotation.
use private_pki_operator.Common.{
  String, ◌≡◌, ◌≢◌, refl, true, none, some, List, [], ◌∷◌, ◌⊎◌, any, All,
}
use private_pki_operator.Action.{text, Error, ok}
use private_pki_operator.Api.{
  verifying_chain, complete, Condition, ConditionType, chain_verified, intermediate_reissued,
}
use private_pki_operator.Cluster.Memory.{World, memory}
use private_pki_operator.Cluster.{Certificate}
use private_pki_operator.Controller.State.{State}
use private_pki_operator.Controller.Conditions.{upsert_condition, enter_phase, transition_to}
use private_pki_operator.Controller.Conditions.Upsert.{count, find_condition, upsert_condition_lem}
use private_pki_operator.Controller.Conditions.Transition.{
  outcome_of, counted, transition_to-metrics,
}
use private_pki_operator.Controller.Certificates.{latest_not_before}
use private_pki_operator.Controller.Certificates.Latest.{
  IssuedBy, issued_at, latest_not_before-greatest,
}
use private_pki_operator.Controller.Reconcile.{reconcile}
use private_pki_operator.Controller.Reconcile.Missing.{reconcile_missing}
use private_pki_operator.Controller.Example.{certificate, rotation, world, start}

abbrev condition : ConditionType → String → Condition
condition type reason = record {
  type = type;
  status = true;
  reason = reason;
  message = [];
  last_transition_time = 0;
}

abbrev conditions : List Condition
conditions = condition chain_verified "old" ∷ condition intermediate_reissued "kept" ∷ []

upsert_condition_lem_example :
    (find_condition chain_verified (upsert_condition (condition chain_verified "new") conditions)
      ≡ some (condition chain_verified "new"))
    × (count chain_verified (upsert_condition (condition chain_verified "new") conditions) ≡ 1)
upsert_condition_lem_example =
    upsert_condition_lem (condition chain_verified "new") conditions chain_verified

abbrev here : State World
here = record (start verifying_chain) { pkir = rotation verifying_chain }

transition_to-metrics_example :
    ((transition_to memory complete here).0
      ≡ outcome_of (ok (enter_phase complete 9 (rotation verifying_chain))))
    × ((transition_to memory complete here).1.metrics
        ≡ counted verifying_chain complete here.metrics
            (ok (enter_phase complete 9 (rotation verifying_chain))))
    × ((transition_to memory complete here).1.world ≡ record (world verifying_chain) {
      rotation = enter_phase complete 9 (rotation verifying_chain);
    })
transition_to-metrics_example =
    transition_to-metrics memory complete here 9 (world verifying_chain)
      (record (world verifying_chain) {
        rotation = enter_phase complete 9 (rotation verifying_chain);
      })
      (ok (enter_phase complete 9 (rotation verifying_chain))) refl refl

latest_not_before-greatest_example :
    All
      (IssuedBy (latest_not_before (certificate "a" "i" true 3 ∷ certificate "b" "i" true 7 ∷ [])))
      (certificate "a" "i" true 3 ∷ certificate "b" "i" true 7 ∷ [])
    × ((latest_not_before (certificate "a" "i" true 3 ∷ certificate "b" "i" true 7 ∷ []) ≡ 0)
        ⊎ (any
              (λ (c : Certificate).
                issued_at
                  (latest_not_before (certificate "a" "i" true 3 ∷ certificate "b" "i" true 7 ∷ []))
                  c.not_before)
              (certificate "a" "i" true 3 ∷ certificate "b" "i" true 7 ∷ [])
            ≡ true))
latest_not_before-greatest_example =
    latest_not_before-greatest (certificate "a" "i" true 3 ∷ certificate "b" "i" true 7 ∷ [])

abbrev not_found : Error
not_found = record { is_not_found = true; message = text "not found" ∷ [] }

other_is_named : ◌≢◌ {A = String} "gone" ""
other_is_named = cc

reconcile_missing_example :
    ((reconcile memory "gone" (start verifying_chain)).0 ≡ ok 0)
    × ((reconcile memory "gone" (start verifying_chain)).1.metrics.phase "gone" "RootCA" "Idle"
        ≡ none)
reconcile_missing_example =
    reconcile_missing memory "gone" (start verifying_chain) not_found (world verifying_chain) "gone"
      "RootCA" "Idle" refl refl other_is_named
