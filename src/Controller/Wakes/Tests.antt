-- ===== src/Controller/Wakes/Tests.antt =====
-- The theorem about what wakes the controller, on a rotation whose new root has appeared.
use private_pki_operator.Common.{refl, ap}
use private_pki_operator.Api.{preserving_old_root}
use private_pki_operator.Cluster.Memory.{memory}
use private_pki_operator.Controller.Reconcile.{reconcile}
use private_pki_operator.Controller.Wakes.{Wakes}
use private_pki_operator.Controller.Wakes.Dispatch.{reconcile-Wakes}
use private_pki_operator.Controller.Example.{rotation, world, start, memory-StoresStatus}
use private_pki_operator.Controller.Tests.{preserving_returns}

reconcile-Wakes_example :
    Wakes preserving_old_root 0 (reconcile memory "rotation" (start preserving_old_root)).1
reconcile-Wakes_example =
    reconcile-Wakes memory memory-StoresStatus "rotation" (start preserving_old_root)
      (rotation preserving_old_root) (world preserving_old_root) 0
      (reconcile memory "rotation" (start preserving_old_root)).1 refl
      (ap (λ r. (r, (reconcile memory "rotation" (start preserving_old_root)).1))
        preserving_returns)
