-- ===== src/Metrics/Tests.antt =====
-- The theorems about the phase gauge at a root's rotation.
use private_pki_operator.Common.{◌≡◌, none, some, ◌==◌, ◌&&◌, if◌then◌else◌, has_name}
use private_pki_operator.Api.{verifying_chain, role_string, PkiRotation}
use private_pki_operator.Metrics.{all_phases, phase_label, record_phase, initial_metrics}
use private_pki_operator.Metrics.Series.{record_phase-phase}
use private_pki_operator.Controller.Example.{rotation}

abbrev verifying : PkiRotation
verifying = rotation verifying_chain

record_phase-phase_example :
    (record_phase verifying initial_metrics).phase "rotation" "" "VerifyingChain" ≡ (
      if "rotation" == "rotation"
        && "" == role_string verifying.spec.role
        && has_name "VerifyingChain" all_phases
      then some (if "VerifyingChain" == phase_label verifying.status.phase then 1 else 0)
      else none)
record_phase-phase_example =
    record_phase-phase verifying initial_metrics "rotation" "" "VerifyingChain"
