-- ===== src/Controller/EnsureIntermediates.antt =====
-- pkirotation_ensure_intermediates.go: the child PKIRotation of each intermediate CA below the root.
pub mod Sync
use Prim.Native.String.{len, slice, ◌++◌ as string_append}
use private_pki_operator.Common.{
  ℕ, String, Bool, not, ◌&&◌, ◌||◌, some, List, [], ◌∷◌, ◌++◌, ◌==◌, if◌then◌else◌, ltb, any,
  insert,
}
use private_pki_operator.Action.{
  text, Action, pure, crash, lift, within, handle, ◌>>=◌, ◌>>◌, on_option,
}
use private_pki_operator.Api.{
  PkiRotation, CertificateRef, OwnerReference, unset, idle, complete, intermediate_ca,
  is_intermediate_ca, Status,
}
use private_pki_operator.Cluster.{Client, Certificate}
use private_pki_operator.Pki.KeyId.{skid_from_pem}
use private_pki_operator.Controller.State.{State, call, get_pkir, get_reader}
use private_pki_operator.Controller.Certificates.{tls_crt, get_root_certificate}
use private_pki_operator.Controller.Discovery.{
  IssuerAnchor, discover_downstream, find_issuers_for_ca_cert,
}

-- `pkirotationKind`.
abbrev pub pkirotation_kind : String
pkirotation_kind = "PKIRotation"

-- `maxPKIRNameLen` and `hashSuffixLen`.
abbrev pub max_pkir_name_len : ℕ
max_pkir_name_len = 63

abbrev pub hash_suffix_len : ℕ
hash_suffix_len = 8

-- `ownerPKIRLabel`.
abbrev pub owner_pkir_label : String
owner_pkir_label = "platform.adaptive-enforcement-lab.com/owner-pkirotation"

infixr 65 ◌⧺◌
abbrev pub ◌⧺◌ : String → String → String
a ⧺ b = string_append a b

-- `parentName` cut to `maxParent` bytes.
unfoldable pub cut_parent : String → String
cut_parent parent = if ltb 54 (len parent) then slice parent 0 54 else parent

-- `intermediateChildName`.
unfoldable pub intermediate_child_name : (String → String) → String → String → String → String
unfolding cut_parent
intermediate_child_name sha256_hex parent cert_namespace cert_name =
    cut_parent parent
    ⧺ "-"
    ⧺ slice (sha256_hex (cert_namespace ⧺ "/" ⧺ cert_name)) 0 hash_suffix_len

-- `ref.Kind == pkirotationKind && ref.Name == name`.
unfoldable pub refers_to : String → OwnerReference → Bool
refers_to name ref = ref.kind == pkirotation_kind && ref.name == name

-- What `ensureChildPKIR` makes of the child, new or old.
unfoldable pub adopt_child : PkiRotation → Certificate → PkiRotation → PkiRotation
unfolding refers_to
adopt_child root cert child = record child {
  spec = record {
    root_ca_ref = root.spec.root_ca_ref;
    trust_bundle = root.spec.trust_bundle;
    reissuance_timeout = 0;
    role = intermediate_ca;
    intermediate_ca_ref =
        some (record { certificate_name = cert.name; certificate_namespace = cert.namespace });
  };
  labels = insert owner_pkir_label root.name child.labels;
  owner_references =
      if any (refers_to root.name) child.owner_references
      then child.owner_references
      else child.owner_references
        ++ record { kind = pkirotation_kind; name = root.name; uid = root.uid } ∷ [];
}

-- `seen[ca.Namespace+"/"+ca.Name]`.
unfoldable pub same_certificate : Certificate → Certificate → Bool
same_certificate a b = (a.namespace ⧺ "/" ⧺ a.name) == (b.namespace ⧺ "/" ⧺ b.name)

-- The loop that drops repetitions, over what was seen before.
unfoldable pub dedup_from : List Certificate → List Certificate → List Certificate
unfolding same_certificate
dedup_from seen [] = []
dedup_from seen (ca ∷ cas) =
    let rest = dedup_from seen cas in
    let rest' = ca ∷ dedup_from (ca ∷ seen) cas in
    if any (same_certificate ca) seen then rest else rest'

-- Does `root` own the child, by name and by UID?
unfoldable pub is_owned : PkiRotation → PkiRotation → Bool
unfolding refers_to
is_owned root child =
    any (λ ref. refers_to root.name ref && ref.uid == root.uid) child.owner_references

-- The status that `syncChildSKIDs` gives to a child: the previous SKID goes only with an Idle or
-- Complete child.
unfoldable pub sync_status : String → Status → Status
sync_status skid s = elim s.phase [
  | unset ↦ record s { current_skid = skid; previous_skid = "" }
  | idle ↦ record s { current_skid = skid; previous_skid = "" }
  | complete ↦ record s { current_skid = skid; previous_skid = "" }
  | _ ↦ record s { current_skid = skid }
]

module _ {W : Type 0} (c : Client W) where
  -- The reads of `intermediateSKID`.
  unfoldable pub ref_skid : CertificateRef → Action (State W) String
  ref_skid ref = do
    cert ←
        within
          (text "getting intermediate CA Certificate "
            ∷ text ref.certificate_namespace
            ∷ text "/"
            ∷ text ref.certificate_name
            ∷ [])
          (call (c.get_certificate ref.certificate_namespace ref.certificate_name))
    secret ←
        within
          (text "getting intermediate CA Secret "
            ∷ text ref.certificate_namespace
            ∷ text "/"
            ∷ text cert.secret_name
            ∷ [])
          (call (get_reader c ref.certificate_namespace cert.secret_name))
    pem ←
        tls_crt
          (text "intermediate CA Secret "
            ∷ text ref.certificate_namespace
            ∷ text "/"
            ∷ text cert.secret_name
            ∷ text " missing tls.crt key"
            ∷ [])
          secret
    lift (skid_from_pem c.codec pem)

  -- `intermediateSKID`, of any PKIRotation. A nil reference panics.
  unfoldable pub intermediate_skid : PkiRotation → Action (State W) String
  intermediate_skid pkir =
      on_option pkir.spec.intermediate_ca_ref (crash "nil pointer dereference") ref_skid

  -- The bootstrap of a new child's status. No failure stops it.
  unfoldable pub bootstrap_skid : PkiRotation → Action (State W) Unit
  bootstrap_skid child =
      handle (intermediate_skid child)
        (λ skid.
          if skid == ""
          then pure tt
          else handle
              (call (
                c.update_status
                  (record child { status = record child.status { current_skid = skid } })))
              (λ _. pure tt) (λ _. pure tt))
        (λ _. pure tt)

  -- `ensureChildPKIR`.
  unfoldable pub ensure_child_pkir : Certificate → Action (State W) Unit
  ensure_child_pkir cert = do
    root ← get_pkir
    made ←
        within
          (text "create-or-patch child PKIRotation "
            ∷ text (intermediate_child_name c.sha256_hex root.name cert.namespace cert.name)
            ∷ [])
          (call (
            c.create_or_patch
              (intermediate_child_name c.sha256_hex root.name cert.namespace cert.name)
              (adopt_child root cert)))
    if made.0 then bootstrap_skid made.1 else pure tt

  unfoldable pub ensure_children : List Certificate → Action (State W) Unit
  ensure_children [] = pure tt
  ensure_children (ca ∷ cas) =
      within
        (text "ensuring child PKIRotation for " ∷ text ca.namespace ∷ text "/" ∷ text ca.name ∷ [])
        (ensure_child_pkir ca)
      >> ensure_children cas

  -- The CA certificates below each anchor in turn.
  unfoldable pub discover_cas : List IssuerAnchor → Action (State W) (List Certificate)
  discover_cas [] = pure []
  discover_cas (a ∷ anchors) = do
    found ←
        within
          (text "discovering downstream CAs from anchor "
            ∷ text a.kind
            ∷ text "/"
            ∷ text a.name
            ∷ [])
          (discover_downstream c a)
    more ← discover_cas anchors
    pure (found.cas ++ more)

  -- `ensureIntermediateCACRs`.
  unfoldable pub ensure_intermediate_ca_crs : Action (State W) Unit
  unfolding dedup_from
  ensure_intermediate_ca_crs = do
    pkir ← get_pkir
    root_cert ← get_root_certificate c (
        text "getting root CA Certificate "
        ∷ text pkir.spec.root_ca_ref.certificate_namespace
        ∷ text "/"
        ∷ text pkir.spec.root_ca_ref.certificate_name
        ∷ [])
    anchors ←
        within (text "finding issuers for root CA cert" ∷ []) (find_issuers_for_ca_cert c root_cert)
    cas ← discover_cas anchors
    ensure_children (dedup_from [] cas)
