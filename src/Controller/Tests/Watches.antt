-- ===== src/Controller/Tests/Watches.antt =====
-- The mappers, on a root's rotation in flight and an intermediate's.
use private_pki_operator.Common.{
  String, true, ◌≡◌, none, some, List, [], ◌∷◌, has_name, refl, if◌then◌else◌, any, ◌==◌,
}
use private_pki_operator.Action.{Result, ok, err, errorf, text}
use private_pki_operator.Api.{PkiRotation, idle, verifying_chain, intermediate_ca}
use private_pki_operator.Cluster.{Client, Certificate}
use private_pki_operator.Cluster.Memory.{World, memory}
use private_pki_operator.Controller.Watches.{
  WatchedObject, declares_root, waits, certificate_to_pki_rotations,
}
use private_pki_operator.Controller.Watches.Exact.{
  names_one, is_concerned, certificate_to_pki_rotations-exact,
}
use private_pki_operator.Controller.Example.{rotation, world, certificate}

abbrev child : PkiRotation
child =
    let base = rotation idle in
    record base {
      name = "child";
      spec = record base.spec {
        role = intermediate_ca;
        root_ca_ref = record { certificate_name = "other"; certificate_namespace = "pki" };
        intermediate_ca_ref =
            some (record { certificate_name = "intermediate"; certificate_namespace = "pki" });
      };
    }

abbrev both : List PkiRotation
both = rotation verifying_chain ∷ child ∷ []

abbrev found_certificate : String → String → Result Certificate
found_certificate ns n =
    if n == "intermediate"
    then ok (certificate "intermediate" "root-issuer" true 6)
    else err (errorf (text "not found" ∷ []))

abbrev watched : Client World
watched = record memory {
  list_pki_rotations = λ l w. (ok both, w);
  get_certificate = λ ns n w. (found_certificate ns n, w);
}

abbrev leaf_object : WatchedObject
leaf_object = record { namespace = "pki"; name = "leaf"; annotations = none }

certificate_to_pki_rotations-exact_example :
    (names : List String) × ((certificate_to_pki_rotations watched leaf_object (world idle)).0
      ≡ ok names)
    × (has_name "rotation" names ≡ (
        if any (declares_root "leaf" "pki") both
        then names_one "rotation" (declares_root "leaf" "pki") both
        else names_one "rotation" (λ pkir. waits pkir.status.phase) both))
certificate_to_pki_rotations-exact_example =
    certificate_to_pki_rotations-exact watched leaf_object (world idle) (world idle) (world idle)
      (ok both) (ok both) "rotation" refl refl (λ t e. absurd cc) (λ t e. absurd cc)

abbrev secret_object : WatchedObject
secret_object = record { namespace = "pki"; name = "intermediate"; annotations = none }

-- The leaf wakes the rotation in flight, and the Secret the child, each alone.
leaf_wakes : names_one "rotation" (λ pkir. waits pkir.status.phase) both ≡ true
leaf_wakes = refl

secret_wakes : names_one "child" (is_concerned found_certificate secret_object) both ≡ true
secret_wakes = refl
