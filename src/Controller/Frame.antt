-- ===== src/Controller/Frame.antt =====
-- What a property of the state must be kept by, so that whole handlers keep it: the calls to the
-- outside, and the ways in which the handlers change their own state.
pub mod Rules
pub mod Reads
pub mod Handlers
pub mod Intermediates
pub mod Cascades
pub mod Build
pub mod Dispatch
pub mod Object
pub mod Phases
use private_pki_operator.Common.{String, ◌≡◌, ◌⊎◌, Option, List}
use private_pki_operator.Action.{Action, ◌>>=◌}
use private_pki_operator.Action.Keeps.{Keeps}
use private_pki_operator.Api.{Phase, Status, Condition, PkiRotation}
use private_pki_operator.Cluster.{Client, Certificate, ConfigMap, Bundle}
use private_pki_operator.Metrics.{Metrics}
use private_pki_operator.Controller.State.{
  State, Event, call, now, get_reader, set_status, set_metrics, record_event, update_status,
}
use private_pki_operator.Controller.Conditions.{transition_to}
use private_pki_operator.Controller.TrustBundle.{extend_staging_config_map, seed_staging_config_map}

-- `P` is kept by everything but a phase change to a phase outside `Q`, a change of the status
-- outside `U`, and the trimming of the staging ConfigMap.
pub record Frame {W : Type 0} (c : Client W) (Q : Phase → Type 0) (U : (Status → Status) → Type 0)
    (P : State W → Type 0) : Type 0 where
  pub keeps_get_certificate : (ns n : String) → Keeps P (call (c.get_certificate ns n))
  pub keeps_get_secret : (ns n : String) → Keeps P (call (c.get_secret ns n))
  pub keeps_reader_get_secret : (ns n : String) → Keeps P (call (get_reader c ns n))
  pub keeps_get_config_map : (ns n : String) → Keeps P (call (c.get_config_map ns n))
  pub keeps_get_bundle : (n : String) → Keeps P (call (c.get_bundle n))
  pub keeps_get_pki_rotation : (n : String) → Keeps P (call (c.get_pki_rotation n))
  pub keeps_list_cluster_issuers : Keeps P (call c.list_cluster_issuers)
  pub keeps_list_issuers : Keeps P (call c.list_issuers)
  pub keeps_list_certificates : (ns : Option String) → Keeps P (call (c.list_certificates ns))
  pub keeps_list_certificate_requests :
      (ns : String) → Keeps P (call (c.list_certificate_requests ns))
  pub keeps_list_pki_rotations :
      (l : Option (String × String)) → Keeps P (call (c.list_pki_rotations l))
  pub keeps_create_or_patch :
      (n : String) (f : PkiRotation → PkiRotation) → Keeps P (call (c.create_or_patch n f))
  pub keeps_update_other : (p : PkiRotation) → Keeps P (call (c.update_status p))
  pub keeps_patch_certificate_status :
      (cert base : Certificate) → Keeps P (call (c.patch_certificate_status cert base))
  pub keeps_patch_bundle : (b base : Bundle) → Keeps P (call (c.patch_bundle b base))
  pub keeps_create_bundle : (b : Bundle) → Keeps P (call (c.create_bundle b))
  pub keeps_seed : Keeps P (seed_staging_config_map c)
  pub keeps_extend : Keeps P (extend_staging_config_map c)
  pub keeps_now : Keeps P (now c)
  pub keeps_update_status : Keeps P (update_status c)
  pub keeps_set_metrics : (f : PkiRotation → Metrics → Metrics) → Keeps P (set_metrics f)
  pub keeps_record_event : (e : Event) → Keeps P (record_event e)
  pub keeps_set_status : (f : Status → Status) → U f → Keeps P (set_status f)
  pub allows_conditions :
      (g : List Condition → List Condition) → U (λ s. record s { conditions = g s.conditions })
  pub keeps_transition_to : (p : Phase) → Q p → Keeps P (transition_to c p)
