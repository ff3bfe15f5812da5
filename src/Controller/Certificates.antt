-- ===== src/Controller/Certificates.antt =====
-- pkirotation_certificates.go: finding the certificates that a rotation touches, reading their key
-- identifiers and their readiness, and triggering their re-issuance.
pub mod Latest
use private_pki_operator.Common.{
  ℕ, String, Bool, false, not, ◌&&◌, ◌||◌, Option, none, some, List, [], ◌∷◌, map, ◌==◌,
  if◌then◌else◌, ltb, keep, any, find?, has_name, lookup,
}
use private_pki_operator.Action.{
  text, Message, errorf, Action, pure, fail, lift, within, handle, ◌>>=◌, on_option,
}
use private_pki_operator.Cluster.{Client, Certificate, ObjectCondition, Issuer, Secret}
use private_pki_operator.Pki.Codec.{Bytes}
use private_pki_operator.Pki.KeyId.{skid_from_pem, akid_from_pem}
use private_pki_operator.Controller.State.{State, call, get_pkir, get_reader}

-- `issuerKindClusterIssuer` and `issuerKindIssuer`.
abbrev pub issuer_kind_cluster_issuer : String
issuer_kind_cluster_issuer = "ClusterIssuer"

abbrev pub issuer_kind_issuer : String
issuer_kind_issuer = "Issuer"

-- The first condition of the type decides.
unfoldable pub condition_is_true : String → List ObjectCondition → Bool
condition_is_true type [] = false
condition_is_true type (cond ∷ conds) =
    let rest = condition_is_true type conds in
    if cond.type == type then cond.status == "True" else rest

-- `isCertificateResourceReady`.
abbrev pub is_certificate_resource_ready : Certificate → Bool
is_certificate_resource_ready cert = condition_is_true "Ready" cert.conditions

-- `isCertificateIssuingTrue`.
abbrev pub is_certificate_issuing_true : Certificate → Bool
is_certificate_issuing_true cert = condition_is_true "Issuing" cert.conditions

abbrev later : Option ℕ → ℕ → ℕ
later none latest = latest
later (some t) latest = if ltb latest t then t else latest

-- The loop of `latestNotBefore`.
unfoldable pub latest_not_before_from : ℕ → List Certificate → ℕ
latest_not_before_from latest [] = latest
latest_not_before_from latest (c ∷ cs) = latest_not_before_from (later c.not_before latest) cs

-- `latestNotBefore`; 0 is the zero time.
unfoldable pub latest_not_before : List Certificate → ℕ
unfolding latest_not_before_from
latest_not_before certs = latest_not_before_from 0 certs

-- `issuer.Spec.CA != nil && issuer.Spec.CA.SecretName == secret`.
abbrev pub backed_by : String → Issuer → Bool
backed_by secret issuer = elim issuer.ca [ none ↦ false | some name ↦ name == secret ]

-- Is the certificate issued by the ClusterIssuer of this name?
abbrev pub issued_by_cluster_issuer : String → Certificate → Bool
issued_by_cluster_issuer issuer c =
    c.issuer_ref.name == issuer && c.issuer_ref.kind == issuer_kind_cluster_issuer

abbrev first_name : Option Issuer → String
first_name none = ""
first_name (some issuer) = issuer.name

-- The names of the ClusterIssuers that one of the certificates' Secrets backs.
unfoldable pub issuer_names_backed_by : List Certificate → List Issuer → List String
issuer_names_backed_by certs issuers =
    map (λ (i : Issuer). i.name)
      (keep (λ i. any (λ (c : Certificate). backed_by c.secret_name i) certs) issuers)

unfoldable pub is_tier2 : List String → Certificate → Bool
is_tier2 issuer_names c =
    c.is_ca
    && (c.issuer_ref.kind == issuer_kind_cluster_issuer && has_name c.issuer_ref.name issuer_names)

-- The loop of `discoverLeafCerts`, by namespace or by issuer.
unfoldable pub is_leaf_below : List Certificate → List String → Certificate → Bool
is_leaf_below tier2 issuer_names c =
    not c.is_ca
    && (any (λ (t : Certificate). t.namespace == c.namespace) tier2
        || (c.issuer_ref.kind == issuer_kind_cluster_issuer
            && has_name c.issuer_ref.name issuer_names))

-- `secret.Data["tls.crt"]`, and an error if it is missing.
unfoldable pub tls_crt : {S : Type 0} → Message → Secret → Action S Bytes
tls_crt missing secret = on_option (lookup "tls.crt" secret.entries) (fail (errorf missing)) pure

module _ {W : Type 0} (c : Client W) where
  -- Reading the root CA Certificate, as several functions begin.
  unfoldable pub get_root_certificate : Message → Action (State W) Certificate
  get_root_certificate context = do
    pkir ← get_pkir
    within context (
        call (
          c.get_certificate pkir.spec.root_ca_ref.certificate_namespace
            pkir.spec.root_ca_ref.certificate_name))

  -- Reading its Secret's certificate, for the staging ConfigMap.
  unfoldable pub get_root_pem : Action (State W) Bytes
  get_root_pem = do
    pkir ← get_pkir
    cert ← get_root_certificate (text "getting root CA Certificate" ∷ [])
    secret ←
        within (text "getting root CA Secret" ∷ [])
          (call (c.get_secret pkir.spec.root_ca_ref.certificate_namespace cert.secret_name))
    tls_crt (text "root CA Secret missing tls.crt" ∷ []) secret

  -- `currentRootSKID`.
  unfoldable pub current_root_skid : Action (State W) String
  current_root_skid = do
    pkir ← get_pkir
    cert ← get_root_certificate (text "getting root CA Certificate" ∷ [])
    secret ←
        within (text "getting root CA Secret " ∷ text cert.secret_name ∷ [])
          (call (c.get_secret pkir.spec.root_ca_ref.certificate_namespace cert.secret_name))
    pem ← tls_crt (text "secret " ∷ text cert.secret_name ∷ text " missing tls.crt key" ∷ []) secret
    lift (skid_from_pem c.codec pem)

  unfoldable pub list_cluster_issuers : Action (State W) (List Issuer)
  list_cluster_issuers = within (text "listing ClusterIssuers" ∷ []) (call c.list_cluster_issuers)

  unfoldable pub list_all_certificates : Action (State W) (List Certificate)
  list_all_certificates =
      within (text "listing Certificates" ∷ []) (call (c.list_certificates none))

  -- `discoverIntermediates`.
  unfoldable pub discover_intermediates : Action (State W) (List Certificate)
  discover_intermediates = do
    cert ← get_root_certificate (text "getting root CA Certificate" ∷ [])
    issuers ← list_cluster_issuers
    let root_issuer = first_name (find? (backed_by cert.secret_name) issuers)
    if root_issuer == ""
        then fail (
            errorf (text "no ClusterIssuer found with ca.secretName=" ∷ text cert.secret_name ∷ []))
        else do
          certs ← list_all_certificates
          pure (keep (λ x. issued_by_cluster_issuer root_issuer x && x.is_ca) certs)

  -- The end of `discoverNamespaceIntermediates`, the issuers of tier 1 being known.
  unfoldable pub list_tier2 : List String → Action (State W) (List Certificate)
  list_tier2 [] = pure []
  list_tier2 (n ∷ ns) = do certs ← list_all_certificates; pure (keep (is_tier2 (n ∷ ns)) certs)

  -- `discoverNamespaceIntermediates`.
  unfoldable pub discover_namespace_intermediates :
      List Certificate → Action (State W) (List Certificate)
  discover_namespace_intermediates [] = pure []
  discover_namespace_intermediates (t ∷ ts) = do
    issuers ← list_cluster_issuers
    list_tier2 (issuer_names_backed_by (t ∷ ts) issuers)

  -- `discoverLeafCerts`.
  unfoldable pub discover_leaf_certs :
      List Certificate → List Certificate → Action (State W) (List Certificate)
  discover_leaf_certs tier1 tier2 = do
    issuers ← list_cluster_issuers
    certs ← list_all_certificates
    pure (keep (is_leaf_below tier2 (issuer_names_backed_by tier1 issuers)) certs)

  -- `triggerReissuance`: the certificate comes back as the API server stored it.
  unfoldable pub trigger_reissuance : Certificate → Action (State W) Certificate
  trigger_reissuance cert = call (
      c.patch_certificate_status
        (c.set_certificate_condition cert "Issuing" "True" "ManuallyTriggered"
          "Certificate re-issuance triggered by PKI rotation operator")
        cert)

  -- `clearReissuanceTrigger`.
  unfoldable pub clear_reissuance_trigger : Action (State W) Unit
  clear_reissuance_trigger = pure tt

  -- `certificateAKID`: no text when the Secret is absent.
  unfoldable pub certificate_akid : Certificate → Action (State W) String
  certificate_akid cert =
      handle (call (get_reader c cert.namespace cert.secret_name))
        (λ secret. do
          pem ←
              tls_crt
                (text "secret "
                  ∷ text cert.namespace
                  ∷ text "/"
                  ∷ text cert.secret_name
                  ∷ text " missing tls.crt key"
                  ∷ [])
                secret
          lift (akid_from_pem c.codec pem))
        (λ e. if e.is_not_found then pure "" else fail e)
