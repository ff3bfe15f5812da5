-- ===== src/Controller/TrustBundle.antt =====
-- pkirotation_trustbundle.go: the staging ConfigMap and the trust-manager Bundle that distribute the
-- trust anchors. The dual-trust window is the time in which the ConfigMap has both roots.
use private_pki_operator.Common.{
  String, Bool, false, ◌&&◌, none, some, List, [], ◌∷◌, ◌==◌, if◌then◌else◌, lookup, insert,
}
use private_pki_operator.Action.{
  text, wrap, Action, pure, fail, crash, lift, within, handle, ◌>>=◌, ◌>>◌, on_option,
}
use private_pki_operator.Cluster.{Client, ConfigMap, Bundle, BundleSource}
use private_pki_operator.Pki.Codec.{Bytes}
use private_pki_operator.Pki.Pem.{append_pem, remove_pem_by_skid}
use private_pki_operator.Controller.State.{State, call, get_pkir}
use private_pki_operator.Controller.Certificates.{get_root_pem}

-- `trustBundleKey`.
abbrev pub trust_bundle_key : String
trust_bundle_key = "ca.crt"

-- `cm.Data[trustBundleKey]`, the empty text if it is missing; a nil map has no entry.
unfoldable pub staged : ConfigMap → Bytes
staged cm = elim cm.entries [
  | none ↦ []
  | some entries ↦ elim (lookup trust_bundle_key entries) [ none ↦ [] | some pem ↦ pem ]
]

-- `cm.Data[trustBundleKey] = pem` on a map that is there.
abbrev pub stage : Bytes → List (String × Bytes) → ConfigMap → ConfigMap
stage pem entries cm = record cm { entries = some (insert trust_bundle_key pem entries) }

-- The write of `extendStagingConfigMap`, which makes a nil map first.
unfoldable pub stage_or_make : Bytes → ConfigMap → ConfigMap
stage_or_make pem cm = elim cm.entries [
  | none ↦ stage pem [] cm
  | some entries ↦ stage pem entries cm
]

abbrev pub source_is : String → BundleSource → Bool
source_is name source = elim source.config_map [
  | none ↦ false
  | some (n, key) ↦ n == name && key == trust_bundle_key
]

-- The Bundle has the one source that it should have.
unfoldable pub sources_are : String → List BundleSource → Bool
sources_are name [] = false
sources_are name (source ∷ []) = source_is name source
sources_are name (source ∷ source' ∷ sources) = false

abbrev want_source : String → BundleSource
want_source name = record { config_map = some (name, trust_bundle_key) }

module _ {W : Type 0} (c : Client W) where
  unfoldable pub get_staging_config_map : Action (State W) ConfigMap
  get_staging_config_map = do
    pkir ← get_pkir
    call (
        c.get_config_map pkir.spec.trust_bundle.staging_config_map.namespace
          pkir.spec.trust_bundle.staging_config_map.name)

  -- `extendStagingConfigMap`.
  unfoldable pub extend_staging_config_map : Action (State W) Unit
  extend_staging_config_map = do
    new_root ← get_root_pem c
    cm ← within (text "getting staging ConfigMap" ∷ []) get_staging_config_map
    call (c.patch_config_map (stage_or_make (append_pem c.codec (staged cm) new_root) cm) cm)
    pure tt

  -- The patch of `trimStagingConfigMap`. A write to a nil map panics.
  unfoldable pub patch_trimmed : Bytes → ConfigMap → Action (State W) Unit
  patch_trimmed trimmed cm =
      on_option cm.entries (crash "assignment to entry in nil map")
        λ entries. call (c.patch_config_map (stage trimmed entries cm) cm) >> pure tt

  -- `trimStagingConfigMap`.
  unfoldable pub trim_staging_config_map : Action (State W) Unit
  trim_staging_config_map = do
    pkir ← get_pkir
    if pkir.status.previous_skid == "" then pure tt else do
      cm ← within (text "getting staging ConfigMap" ∷ []) get_staging_config_map
      trimmed ←
          within (text "removing old root PEM" ∷ [])
            (lift (remove_pem_by_skid c.codec (staged cm) pkir.status.previous_skid))
      patch_trimmed trimmed cm

  -- The creation in `ensureStagingConfigMap`, seeded with the current root.
  unfoldable pub seed_staging_config_map : Action (State W) Unit
  seed_staging_config_map = do
    pkir ← get_pkir
    pem ← get_root_pem c
    call (
        c.create_config_map (record {
          namespace = pkir.spec.trust_bundle.staging_config_map.namespace;
          name = pkir.spec.trust_bundle.staging_config_map.name;
          labels =
              ("app.kubernetes.io/name", "private-pki-operator")
              ∷ ("app.kubernetes.io/component", "trust-anchor")
              ∷ [];
          entries = some ((trust_bundle_key, pem) ∷ []);
        }))
    pure tt

  -- `ensureStagingConfigMap`: one that exists is left alone.
  unfoldable pub ensure_staging_config_map : Action (State W) Unit
  ensure_staging_config_map =
      handle get_staging_config_map (λ _. pure tt)
        (λ e.
          if e.is_not_found
          then seed_staging_config_map
          else fail (wrap (text "checking for staging ConfigMap" ∷ []) e))

  -- The creation in `ensureBundle`.
  unfoldable pub create_trust_bundle : Action (State W) Unit
  create_trust_bundle = do
    pkir ← get_pkir
    call (
        c.create_bundle (record {
          name = pkir.spec.trust_bundle.name;
          labels =
              ("app.kubernetes.io/name", "private-pki-operator")
              ∷ ("app.kubernetes.io/component", "trust-bundle")
              ∷ [];
          sources = want_source pkir.spec.trust_bundle.staging_config_map.name ∷ [];
          target_key = trust_bundle_key;
        }))
    pure tt

  -- The patch in `ensureBundle`, if the source is another one.
  unfoldable pub repair_bundle : Bundle → Action (State W) Unit
  repair_bundle bundle = do
    pkir ← get_pkir
    let name = pkir.spec.trust_bundle.staging_config_map.name
    if sources_are name bundle.sources
        then pure tt
        else call (c.patch_bundle (record bundle { sources = want_source name ∷ [] }) bundle)
          >> pure tt

  -- `ensureBundle`.
  unfoldable pub ensure_bundle : Action (State W) Unit
  ensure_bundle = do
    pkir ← get_pkir
    handle (call (c.get_bundle pkir.spec.trust_bundle.name)) repair_bundle (λ e.
        if e.is_not_found
        then create_trust_bundle
        else fail (wrap (text "checking for Bundle" ∷ []) e))
