-- ===== src/Api.antt =====
-- ci/private-pki-operator/api/v1alpha1/pkirotation_types.go: the PKIRotation resource.
-- Of its metadata only what the operator reads is kept.
use private_pki_operator.Common.{ℕ, String, Bool, true, false, Option, none, List, []}
use private_pki_operator.Action.{Message}

-- `PKIRotationPhase`, a string; `unset` is "", and `other_phase` a value outside the enumeration.
pub data Phase : Type 0 where
  unset idle preserving_old_root dual_trust_active awaiting_reissuance verifying_chain : Phase
  complete : Phase
  other_phase : String → Phase

unfoldable pub phase_string : Phase → String
phase_string unset = ""
phase_string idle = "Idle"
phase_string preserving_old_root = "PreservingOldRoot"
phase_string dual_trust_active = "DualTrustActive"
phase_string awaiting_reissuance = "AwaitingReissuance"
phase_string verifying_chain = "VerifyingChain"
phase_string complete = "Complete"
phase_string (other_phase s) = s

-- `PKIRotationRole`, a string; `default_role` is "".
pub data Role : Type 0 where
  default_role root_ca intermediate_ca : Role
  other_role : String → Role

unfoldable pub role_string : Role → String
role_string default_role = ""
role_string root_ca = "RootCA"
role_string intermediate_ca = "IntermediateCA"
role_string (other_role s) = s

abbrev pub is_intermediate_ca : Role → Bool
is_intermediate_ca intermediate_ca = true
is_intermediate_ca _ = false

-- `ConditionDualTrustActive`, `ConditionIntermediateReissued`, `ConditionChainVerified`.
pub data ConditionType : Type 0 where
  dual_trust_active_condition intermediate_reissued chain_verified : ConditionType
  other_condition : String → ConditionType

-- `IntermediateCARef` and `RootCARef`.
pub record CertificateRef : Type 0 where
  pub certificate_name : String
  pub certificate_namespace : String

pub record StagingConfigMapRef : Type 0 where
  pub name : String
  pub namespace : String

pub record TrustBundleRef : Type 0 where
  pub name : String
  pub staging_config_map : StagingConfigMapRef

pub record Spec : Type 0 where
  pub root_ca_ref : CertificateRef
  pub trust_bundle : TrustBundleRef
  -- A duration; 0 when it was left out.
  pub reissuance_timeout : ℕ
  pub role : Role
  pub intermediate_ca_ref : Option CertificateRef

-- `metav1.Condition`; `status` is "True" or "False".
pub record Condition : Type 0 where
  pub type : ConditionType
  pub status : Bool
  pub reason : String
  pub message : Message
  pub last_transition_time : ℕ

pub record Status : Type 0 where
  pub conditions : List Condition
  pub phase : Phase
  pub current_skid : String
  pub previous_skid : String
  pub rotation_started_at : Option ℕ
  pub last_transition_time : Option ℕ
  pub dual_trust_active_at : Option ℕ

pub record OwnerReference : Type 0 where
  pub kind : String
  pub name : String
  pub uid : String

pub record PkiRotation : Type 0 where
  pub name : String
  pub uid : String
  pub labels : List (String × String)
  pub owner_references : List OwnerReference
  pub spec : Spec
  pub status : Status

abbrev pub empty_status : Status
empty_status = record {
  conditions = [];
  phase = unset;
  current_skid = "";
  previous_skid = "";
  rotation_started_at = none;
  last_transition_time = none;
  dual_trust_active_at = none;
}
