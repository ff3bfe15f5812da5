-- ===== src/Controller/Watches.antt =====
-- pkirotation_setup.go, and intermediateSecretMapper of pkirotation_intermediate.go: which rotations
-- an event of a watched object wakes. A request is the rotation's name.
pub mod Exact
use private_pki_operator.Common.{
  String, Bool, true, false, not, ◌&&◌, ◌||◌, Option, none, some, List, [], ◌∷◌, ◌++◌, map, ◌==◌,
  if◌then◌else◌, keep, lookup,
}
use private_pki_operator.Action.{Action, pure, handle, ◌>>=◌, on_option}
use private_pki_operator.Api.{
  PkiRotation, Phase, awaiting_reissuance, verifying_chain, is_intermediate_ca, CertificateRef,
}
use private_pki_operator.Cluster.{Client, Certificate}
use private_pki_operator.Controller.Phases.{certificate_name_key}

-- `client.Object`, by what the mappers read of it; `annotations` is none for a nil map.
pub record WatchedObject : Type 0 where
  pub namespace : String
  pub name : String
  pub annotations : Option (List (String × String))

-- `obj.GetAnnotations()[cmv1.CertificateNameKey]`.
unfoldable pub certificate_name_of : WatchedObject → Option String
certificate_name_of obj = elim obj.annotations [
  | none ↦ none
  | some entries ↦ lookup certificate_name_key entries
]

-- The watches of `SetupWithManager`, by the kind of the object.
pub data WatchEvent : Type 0 where
  pki_rotation_event certificate_request_event bundle_event : WatchedObject → WatchEvent
  certificate_event secret_event : Bool → WatchedObject → WatchEvent

-- `certificateRequestPredicate`.
unfoldable pub names_certificate : WatchedObject → Bool
unfolding certificate_name_of
names_certificate obj = elim (certificate_name_of obj) [
  | none ↦ false
  | some name ↦ not (name == "")
]

-- Is the certificate of this name and namespace the rotation's declared root?
abbrev pub declares_root : String → String → PkiRotation → Bool
declares_root name namespace pkir =
    pkir.spec.root_ca_ref.certificate_name == name
    && pkir.spec.root_ca_ref.certificate_namespace == namespace

-- A rotation that waits for re-issued certificates.
abbrev pub waits : Phase → Bool
waits awaiting_reissuance = true
waits verifying_chain = true
waits _ = false

abbrev pub name_of : PkiRotation → String
name_of pkir = pkir.name

-- `len(reqs) > 0`.
abbrev pub or_else : {W : Type 0} → List String → Action W (List String) → Action W (List String)
or_else [] m = m
or_else (n ∷ ns) m = pure (n ∷ ns)

-- Is the Secret the certificate's?
abbrev pub holds : WatchedObject → Certificate → Bool
holds secret cert = cert.secret_name == secret.name && cert.namespace == secret.namespace

module _ {W : Type 0} (c : Client W) where
  -- `pkiRotationsMatching`.
  unfoldable pub pki_rotations_matching : (PkiRotation → Bool) → Action W (List String)
  pki_rotations_matching match =
      handle (c.list_pki_rotations none) (λ pkirs. pure (map name_of (keep match pkirs)))
        (λ _. pure [])

  -- `certificateRequestToPKIRotations`.
  unfoldable pub certificate_request_to_pki_rotations : WatchedObject → Action W (List String)
  unfolding certificate_name_of
  certificate_request_to_pki_rotations obj =
      on_option (certificate_name_of obj) (pure [])
        λ name. pki_rotations_matching (declares_root name obj.namespace)

  -- `certificateToPKIRotations`.
  unfoldable pub certificate_to_pki_rotations : WatchedObject → Action W (List String)
  certificate_to_pki_rotations obj = do
    reqs ← pki_rotations_matching (declares_root obj.name obj.namespace)
    or_else reqs (pki_rotations_matching (λ pkir. waits pkir.status.phase))

  -- `bundleToPKIRotations`.
  unfoldable pub bundle_to_pki_rotations : WatchedObject → Action W (List String)
  bundle_to_pki_rotations obj =
      pki_rotations_matching (λ pkir. pkir.spec.trust_bundle.name == obj.name)

  -- The read of the certificate in `intermediateSecretMapper`; a failure is logged and skipped.
  unfoldable pub ref_holds : WatchedObject → String → CertificateRef → Action W (List String)
  ref_holds secret name ref =
      handle (c.get_certificate ref.certificate_namespace ref.certificate_name)
        (λ cert. pure (if holds secret cert then name ∷ [] else [])) (λ _. pure [])

  -- One round of the loop.
  unfoldable pub intermediate_of : WatchedObject → PkiRotation → Action W (List String)
  intermediate_of secret pkir =
      if not (is_intermediate_ca pkir.spec.role)
      then pure []
      else on_option pkir.spec.intermediate_ca_ref (pure []) (ref_holds secret pkir.name)

  unfoldable pub intermediates_of : WatchedObject → List PkiRotation → Action W (List String)
  intermediates_of secret [] = pure []
  intermediates_of secret (pkir ∷ pkirs) = do
    first ← intermediate_of secret pkir
    rest ← intermediates_of secret pkirs
    pure (first ++ rest)

  -- `intermediateSecretMapper`; the object is none if it is no Secret.
  unfoldable pub intermediate_secret_mapper : Option WatchedObject → Action W (List String)
  intermediate_secret_mapper obj =
      on_option obj (pure [])
        λ secret. handle (c.list_pki_rotations none) (intermediates_of secret) (λ _. pure [])

  -- The wiring of `SetupWithManager`: an event goes through its predicate to its mapper. What `ResourceVersionChangedPredicate` says of it, a predicate of the
  -- library, is `changed`.
  unfoldable pub enqueue : WatchEvent → Action W (List String)
  unfolding names_certificate
  enqueue (pki_rotation_event obj) = pure (obj.name ∷ [])
  enqueue (certificate_request_event obj) =
      if names_certificate obj then certificate_request_to_pki_rotations obj else pure []
  enqueue (certificate_event changed obj) =
      if changed then certificate_to_pki_rotations obj else pure []
  enqueue (bundle_event obj) = bundle_to_pki_rotations obj
  enqueue (secret_event changed obj) =
      if changed then intermediate_secret_mapper (some obj) else pure []
