-- ===== src/Cluster/Memory.antt =====
-- A cluster in memory, on which the theorems about an arbitrary one are tried: the API server keeps
-- one rotation, the certificates and issuers by name, the Secrets by name, and the staging ConfigMap.
use private_pki_operator.Common.{
  ℕ, String, Bool, true, ◌&&◌, Option, none, some, List, [], ◌∷◌, ◌==◌, if◌then◌else◌, find?, keep,
  lookup,
}
use private_pki_operator.Action.{Error, Result, ok, err, errorf, text}
use private_pki_operator.Api.{PkiRotation}
use private_pki_operator.Pki.Toy.{toy_codec}
use private_pki_operator.Cluster.{
  Client, Certificate, Issuer, CertificateRequest, Secret, ConfigMap, Bundle,
}

pub record World : Type 0 where
  pub rotation : PkiRotation
  pub certificates : List Certificate
  pub cluster_issuers : List Issuer
  pub issuers : List Issuer
  pub secrets : List (String × Secret)
  pub requests : List CertificateRequest
  pub config_map : Option ConfigMap
  pub bundle : Option Bundle
  pub clock : ℕ

abbrev missing : Error
missing = record { is_not_found = true; message = text "not found" ∷ [] }

abbrev found : {A : Type 0} → Option A → Result A
found none = err missing
found (some a) = ok a

abbrev pub found_map : String → String → Option ConfigMap → Result ConfigMap
found_map ns n none = err missing
found_map ns n (some cm) = if cm.namespace == ns && cm.name == n then ok cm else err missing

abbrev is_named : String → String → Certificate → Bool
is_named ns n cert = cert.namespace == ns && cert.name == n

abbrev pub in_namespace : Option String → List Certificate → List Certificate
in_namespace none certs = certs
in_namespace (some ns) certs = keep (λ c. c.namespace == ns) certs

-- What a creation leaves.
abbrev pub created_map : ConfigMap → World → Option ConfigMap → Result ConfigMap × World
created_map cm w none = (ok cm, record w { config_map = some cm })
created_map cm w (some old) = (err (errorf (text "already exists" ∷ [])), w)

abbrev replace : Certificate → List Certificate → List Certificate
replace cert [] = []
replace cert (c ∷ cs) =
    let rest = replace cert cs in
    if is_named cert.namespace cert.name c then cert ∷ cs else c ∷ rest

abbrev issuing : Certificate → String → String → Certificate
issuing cert type status = record cert {
  conditions = record { type = type; status = status } ∷ cert.conditions;
}

abbrev pub memory : Client World
memory = record {
  get_certificate = λ ns n w. (found (find? (is_named ns n) w.certificates), w);
  get_secret = λ ns n w. (found (lookup n w.secrets), w);
  reader_get_secret = none;
  get_config_map = λ ns n w. (found_map ns n w.config_map, w);
  get_bundle = λ n w. (found w.bundle, w);
  get_pki_rotation = λ n w. (if w.rotation.name == n then ok w.rotation else err missing, w);
  list_cluster_issuers = λ w. (ok w.cluster_issuers, w);
  list_issuers = λ w. (ok w.issuers, w);
  list_certificates = λ ns w. (ok (in_namespace ns w.certificates), w);
  list_certificate_requests = λ ns w. (ok w.requests, w);
  list_pki_rotations = λ l w. (ok [], w);
  create_or_patch = λ n f w. (err missing, w);
  update_status = λ p w. (ok p, record w { rotation = p });
  patch_certificate_status =
      λ cert base w. (ok cert, record w { certificates = replace cert w.certificates });
  patch_config_map = λ cm base w. (ok cm, record w { config_map = some cm });
  create_config_map = λ cm w. created_map cm w w.config_map;
  patch_bundle = λ b base w. (ok b, record w { bundle = some b });
  create_bundle = λ b w. (ok b, record w { bundle = some b });
  now = λ w. (w.clock, w);
  set_certificate_condition = λ cert type status reason message. issuing cert type status;
  codec = toy_codec;
  sha256_hex = λ s. s;
  stack_depth = 8;
}
