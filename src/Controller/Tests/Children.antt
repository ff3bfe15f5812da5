-- ===== src/Controller/Tests/Children.antt =====
-- The theorems about the children of a root, on certificates in memory.
use Prim.Native.String.{len}
use private_pki_operator.Common.{◌≤◌, true, ◌≡◌, List, [], ◌∷◌}
use private_pki_operator.Api.{idle}
use private_pki_operator.Cluster.{Certificate}
use private_pki_operator.Controller.EnsureIntermediates.{
  adopt_child, dedup_from, intermediate_child_name, max_pkir_name_len,
}
use private_pki_operator.Controller.Children.{AreDistinct, is_in, dedup_from-once, adopt_child_idem}
use private_pki_operator.Controller.Children.Names.{intermediate_child_name-length}
use private_pki_operator.Controller.Example.{certificate, rotation}

abbrev intermediate : Certificate
intermediate = certificate "intermediate" "root-issuer" true 6

abbrev found_twice : List Certificate
found_twice =
    intermediate
    ∷ certificate "other" "root-issuer" true 6
    ∷ certificate "intermediate" "x" true 6
    ∷ []

dedup_from-once_example :
    AreDistinct (dedup_from [] found_twice)
    × ((a : Certificate) → is_in a (dedup_from [] found_twice) ≡ is_in a found_twice)
dedup_from-once_example = dedup_from-once found_twice

adopt_child_idem_example :
    adopt_child
      (rotation idle)
      intermediate
      (adopt_child (rotation idle) intermediate (rotation idle))
    ≡ adopt_child (rotation idle) intermediate (rotation idle)
adopt_child_idem_example = adopt_child_idem (rotation idle) intermediate (rotation idle)

intermediate_child_name-length_example :
    len (
      intermediate_child_name
        (λ s. "0123456789abcdef")
        "a-root-rotation-with-a-name-that-is-longer-than-fifty-four-bytes"
        "pki"
        "intermediate")
    ≤ max_pkir_name_len
intermediate_child_name-length_example =
    intermediate_child_name-length (λ s. "0123456789abcdef")
      "a-root-rotation-with-a-name-that-is-longer-than-fifty-four-bytes" "pki" "intermediate"
