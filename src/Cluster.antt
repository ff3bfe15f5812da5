-- ===== src/Cluster.antt =====
-- What the operator reads and writes outside itself. The Kubernetes API server, the client library,
-- cert-manager and trust-manager are not code of the repository: their objects are given by the
-- fields that the operator uses, and the calls are the parameter `Client`.
pub mod Memory
use private_pki_operator.Common.{ℕ, String, Bool, true, false, Option, none, some, List, [], ◌∷◌}
use private_pki_operator.Action.{Result}
use private_pki_operator.Api.{PkiRotation}
use private_pki_operator.Pki.Codec.{Bytes, Codec}

-- `CertificateCondition` and `CertificateRequestCondition`.
pub record ObjectCondition : Type 0 where
  pub type : String
  pub status : String

pub record IssuerRef : Type 0 where
  pub name : String
  pub kind : String

-- cert-manager's `Certificate`. A time is a number, 0 is Go's zero time, and `not_before` is none
-- for a nil pointer.
pub record Certificate : Type 0 where
  pub namespace : String
  pub name : String
  pub secret_name : String
  pub issuer_ref : IssuerRef
  pub is_ca : Bool
  pub conditions : List ObjectCondition
  pub not_before : Option ℕ

-- `Issuer` and `ClusterIssuer`; `ca` is `spec.ca.secretName`, none for a nil `spec.ca`. A
-- ClusterIssuer has the empty namespace.
pub record Issuer : Type 0 where
  pub namespace : String
  pub name : String
  pub ca : Option String

-- `annotations` is none for a nil map.
pub record CertificateRequest : Type 0 where
  pub annotations : Option (List (String × String))
  pub conditions : List ObjectCondition

pub record Secret : Type 0 where
  pub entries : List (String × Bytes)

-- `entries` is none for a nil `Data`, which Go reads as an empty map and does not write to.
pub record ConfigMap : Type 0 where
  pub namespace : String
  pub name : String
  pub labels : List (String × String)
  pub entries : Option (List (String × Bytes))

-- trust-manager's `BundleSource`, by its ConfigMap source: the name and the key, or nil.
pub record BundleSource : Type 0 where
  pub config_map : Option (String × String)

pub record Bundle : Type 0 where
  pub name : String
  pub labels : List (String × String)
  pub sources : List BundleSource
  pub target_key : String

-- The calls, over the state `W` of everything outside the operator. Each may fail, and between any
-- two of them others may act, so each gives a state, the reads too.
pub record Client (W : Type 0) : Type 0 where
  pub get_certificate : String → String → W → Result Certificate × W
  pub get_secret : String → String → W → Result Secret × W
  -- `Reader`, the uncached client: none if it was not set.
  pub reader_get_secret : Option (String → String → W → Result Secret × W)
  pub get_config_map : String → String → W → Result ConfigMap × W
  pub get_bundle : String → W → Result Bundle × W
  pub get_pki_rotation : String → W → Result PkiRotation × W
  pub list_cluster_issuers : W → Result (List Issuer) × W
  pub list_issuers : W → Result (List Issuer) × W
  -- The namespace to list, or none for all.
  pub list_certificates : Option String → W → Result (List Certificate) × W
  pub list_certificate_requests : String → W → Result (List CertificateRequest) × W
  -- The label and its value to match, or none for all.
  pub list_pki_rotations : Option (String × String) → W → Result (List PkiRotation) × W
  -- `controllerutil.CreateOrPatch`: was the object created, and the object as it is stored.
  pub create_or_patch : String → (PkiRotation → PkiRotation) → W → Result (Bool × PkiRotation) × W
  -- `Status().Update`: what the API server stored comes back into the object.
  pub update_status : PkiRotation → W → Result PkiRotation × W
  -- `Status().Patch` with `MergeFrom`: the changed object, then the base.
  pub patch_certificate_status : Certificate → Certificate → W → Result Certificate × W
  pub patch_config_map : ConfigMap → ConfigMap → W → Result ConfigMap × W
  pub create_config_map : ConfigMap → W → Result ConfigMap × W
  pub patch_bundle : Bundle → Bundle → W → Result Bundle × W
  pub create_bundle : Bundle → W → Result Bundle × W
  -- `metav1.Now` and `time.Now`.
  pub now : W → ℕ × W
  -- cert-manager's `SetCertificateCondition`: type, status, reason, message.
  pub set_certificate_condition : Certificate → String → String → String → String → Certificate
  pub codec : Codec
  -- The hexadecimal text of `sha256.Sum256`.
  pub sha256_hex : String → String
  -- How many nested calls of a recursive function the stack holds.
  pub stack_depth : ℕ
