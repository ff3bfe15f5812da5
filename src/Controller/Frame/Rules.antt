-- ===== src/Controller/Frame/Rules.antt =====
-- The parts of a frame as rules for `search`.
use private_pki_operator.Common.{String, Option, List}
use private_pki_operator.Action.Keeps.{Keeps}
use private_pki_operator.Api.{Phase, Status, Condition, PkiRotation}
use private_pki_operator.Cluster.{Client, Certificate, Bundle}
use private_pki_operator.Metrics.{Metrics}
use private_pki_operator.Controller.State.{
  State, Event, call, now, get_reader, set_status, set_metrics, record_event, update_status,
}
use private_pki_operator.Controller.Conditions.{transition_to}
use private_pki_operator.Controller.TrustBundle.{extend_staging_config_map, seed_staging_config_map}
use private_pki_operator.Controller.Frame.{Frame}

module _ {W : Type 0} {c : Client W} {Q : Phase → Type 0} {U : (Status → Status) → Type 0}
    {P : State W → Type 0} where
  pub rule_get_certificate :
      Frame c Q U P → (ns n : String) → Keeps P (call (c.get_certificate ns n))
  rule_get_certificate F ns n = F.keeps_get_certificate ns n

  pub rule_get_secret : Frame c Q U P → (ns n : String) → Keeps P (call (c.get_secret ns n))
  rule_get_secret F ns n = F.keeps_get_secret ns n

  pub rule_reader_get_secret : Frame c Q U P → (ns n : String) → Keeps P (call (get_reader c ns n))
  rule_reader_get_secret F ns n = F.keeps_reader_get_secret ns n

  pub rule_get_config_map : Frame c Q U P → (ns n : String) → Keeps P (call (c.get_config_map ns n))
  rule_get_config_map F ns n = F.keeps_get_config_map ns n

  pub rule_get_bundle : Frame c Q U P → (n : String) → Keeps P (call (c.get_bundle n))
  rule_get_bundle F n = F.keeps_get_bundle n

  pub rule_get_pki_rotation : Frame c Q U P → (n : String) → Keeps P (call (c.get_pki_rotation n))
  rule_get_pki_rotation F n = F.keeps_get_pki_rotation n

  pub rule_list_cluster_issuers : Frame c Q U P → Keeps P (call c.list_cluster_issuers)
  rule_list_cluster_issuers F = F.keeps_list_cluster_issuers

  pub rule_list_issuers : Frame c Q U P → Keeps P (call c.list_issuers)
  rule_list_issuers F = F.keeps_list_issuers

  pub rule_list_certificates :
      Frame c Q U P → (ns : Option String) → Keeps P (call (c.list_certificates ns))
  rule_list_certificates F ns = F.keeps_list_certificates ns

  pub rule_list_certificate_requests :
      Frame c Q U P → (ns : String) → Keeps P (call (c.list_certificate_requests ns))
  rule_list_certificate_requests F ns = F.keeps_list_certificate_requests ns

  pub rule_list_pki_rotations :
      Frame c Q U P → (l : Option (String × String)) → Keeps P (call (c.list_pki_rotations l))
  rule_list_pki_rotations F = F.keeps_list_pki_rotations

  pub rule_create_or_patch :
      Frame c Q U P
      → (n : String) (f : PkiRotation → PkiRotation) → Keeps P (call (c.create_or_patch n f))
  rule_create_or_patch F = F.keeps_create_or_patch

  pub rule_update_other : Frame c Q U P → (p : PkiRotation) → Keeps P (call (c.update_status p))
  rule_update_other F p = F.keeps_update_other p

  pub rule_patch_certificate_status :
      Frame c Q U P
      → (cert base : Certificate) → Keeps P (call (c.patch_certificate_status cert base))
  rule_patch_certificate_status F = F.keeps_patch_certificate_status

  pub rule_patch_bundle : Frame c Q U P → (b base : Bundle) → Keeps P (call (c.patch_bundle b base))
  rule_patch_bundle F b base = F.keeps_patch_bundle b base

  pub rule_create_bundle : Frame c Q U P → (b : Bundle) → Keeps P (call (c.create_bundle b))
  rule_create_bundle F b = F.keeps_create_bundle b

  pub rule_seed : Frame c Q U P → Keeps P (seed_staging_config_map c)
  rule_seed F = F.keeps_seed

  pub rule_extend : Frame c Q U P → Keeps P (extend_staging_config_map c)
  rule_extend F = F.keeps_extend

  pub rule_now : Frame c Q U P → Keeps P (now c)
  rule_now F = F.keeps_now

  pub rule_update_status : Frame c Q U P → Keeps P (update_status c)
  rule_update_status F = F.keeps_update_status

  pub rule_set_metrics :
      Frame c Q U P → (f : PkiRotation → Metrics → Metrics) → Keeps P (set_metrics f)
  rule_set_metrics F f = F.keeps_set_metrics f

  pub rule_record_event : Frame c Q U P → (e : Event) → Keeps P (record_event e)
  rule_record_event F e = F.keeps_record_event e

  pub rule_set_status : Frame c Q U P → (f : Status → Status) → U f → Keeps P (set_status f)
  rule_set_status F f u = F.keeps_set_status f u

  pub rule_set_conditions :
      Frame c Q U P
      → (g : List Condition → List Condition)
      → Keeps P (set_status (λ s. record s { conditions = g s.conditions }))
  rule_set_conditions F g = F.keeps_set_status _ (F.allows_conditions g)

  pub rule_transition_to : Frame c Q U P → (p : Phase) → Q p → Keeps P (transition_to c p)
  rule_transition_to F p q = F.keeps_transition_to p q

pub ruleset frame_rules = (
  rule_get_certificate, rule_get_secret, rule_reader_get_secret, rule_get_config_map,
  rule_get_bundle, rule_get_pki_rotation, rule_list_cluster_issuers, rule_list_issuers,
  rule_list_certificates, rule_list_certificate_requests, rule_list_pki_rotations,
  rule_create_or_patch, rule_update_other, rule_patch_certificate_status, rule_patch_bundle,
  rule_create_bundle, rule_seed, rule_extend, rule_now, rule_update_status, rule_set_metrics,
  rule_record_event, rule_transition_to,
)
