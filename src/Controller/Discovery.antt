-- ===== src/Controller/Discovery.antt =====
-- pkirotation_discovery.go: everything below an issuer, level by level. The Go function recurs
-- without a bound; here it recurs at most as deep as the stack, `Client.stack_depth`.
pub mod Depth
pub mod Cycle
pub mod Levels
pub mod Gathered
pub mod Exact
use private_pki_operator.Common.{
  ℕ, zero, suc, String, Bool, true, not, ◌&&◌, Option, none, some, List, [], ◌∷◌, ◌++◌, map, ◌==◌,
  if◌then◌else◌, keep,
}
use private_pki_operator.Action.{text, Action, pure, crash, within, ◌>>=◌}
use private_pki_operator.Cluster.{Client, Certificate, Issuer}
use private_pki_operator.Controller.State.{State, call}
use private_pki_operator.Controller.Certificates.{
  issuer_kind_cluster_issuer, issuer_kind_issuer, backed_by, list_cluster_issuers,
}

-- `issuerAnchor`; a ClusterIssuer has the empty namespace.
pub record IssuerAnchor : Type 0 where
  pub name : String
  pub kind : String
  pub namespace : String

-- What a search found: the CA certificates and the others.
pub record Downstream : Type 0 where
  pub cas : List Certificate
  pub leaves : List Certificate

abbrev pub nothing_found : Downstream
nothing_found = record { cas = []; leaves = [] }

-- `anchor.Kind == issuerKindIssuer && anchor.Namespace != ""`: then only its namespace is listed.
unfoldable pub anchor_scope : IssuerAnchor → Option String
anchor_scope a =
    if a.kind == issuer_kind_issuer && not (a.namespace == "") then some a.namespace else none

abbrev in_scope : Option String → Certificate → Bool
in_scope none cert = true
in_scope (some namespace) cert = cert.namespace == namespace

-- Is the certificate a child of the anchor?
unfoldable pub is_child_of : IssuerAnchor → Certificate → Bool
unfolding anchor_scope
is_child_of a cert =
    cert.issuer_ref.name == a.name
    && (cert.issuer_ref.kind == a.kind && in_scope (anchor_scope a) cert)

-- The ClusterIssuer that the CA certificate backs and that did not sign it.
unfoldable pub is_next_cluster_issuer : Certificate → Issuer → Bool
is_next_cluster_issuer ca i =
    backed_by ca.secret_name i
    && not (i.name == ca.issuer_ref.name && ca.issuer_ref.kind == issuer_kind_cluster_issuer)

-- The Issuer that the CA certificate backs, by the Secret's name, and that did not sign it.
unfoldable pub is_next_issuer : Certificate → Issuer → Bool
is_next_issuer ca i =
    backed_by ca.secret_name i
    && not (
        i.name == ca.issuer_ref.name
        && (i.namespace == ca.namespace && ca.issuer_ref.kind == issuer_kind_issuer))

abbrev pub cluster_anchor : Issuer → IssuerAnchor
cluster_anchor i = record { name = i.name; kind = issuer_kind_cluster_issuer; namespace = "" }

abbrev pub issuer_anchor : Issuer → IssuerAnchor
issuer_anchor i = record { name = i.name; kind = issuer_kind_issuer; namespace = i.namespace }

-- What one level of the search has gathered.
pub record Level : Type 0 where
  pub found : Downstream
  pub next_anchors : List IssuerAnchor

module _ {W : Type 0} (c : Client W) where
  -- `findIssuersForCACert`.
  unfoldable pub find_issuers_for_ca_cert : Certificate → Action (State W) (List IssuerAnchor)
  find_issuers_for_ca_cert ca = do
    cluster_issuers ← list_cluster_issuers c
    issuers ← within (text "listing Issuers" ∷ []) (call c.list_issuers)
    pure (
        map cluster_anchor (keep (is_next_cluster_issuer ca) cluster_issuers)
        ++ map issuer_anchor (keep (is_next_issuer ca) issuers))

  -- A certificate that the anchor signed.
  unfoldable pub collect_child : Level → Certificate → Action (State W) Level
  collect_child l cert =
      if cert.is_ca
      then (do
        children ←
            within
              (text "finding issuers for CA cert "
                ∷ text cert.namespace
                ∷ text "/"
                ∷ text cert.name
                ∷ [])
              (find_issuers_for_ca_cert cert)
        pure (record {
          found = record l.found { cas = l.found.cas ++ cert ∷ [] };
          next_anchors = l.next_anchors ++ children;
        }))
      else pure (record l { found = record l.found { leaves = l.found.leaves ++ cert ∷ [] } })

  -- The inner loop of `discoverDownstreamBFS`, over the certificates of an anchor.
  unfoldable pub collect_children : Level → List Certificate → Action (State W) Level
  collect_children l [] = pure l
  collect_children l (cert ∷ certs) = do l' ← collect_child l cert; collect_children l' certs

  -- The outer loop, over the anchors of a level.
  unfoldable pub collect_level : Level → List IssuerAnchor → Action (State W) Level
  collect_level l [] = pure l
  collect_level l (a ∷ anchors) = do
    certs ←
        within (text "listing Certificates for anchor " ∷ text a.kind ∷ text "/" ∷ text a.name ∷ [])
          (call (c.list_certificates (anchor_scope a)))
    l' ← collect_children l (keep (is_child_of a) certs)
    collect_level l' anchors

  -- `discoverDownstreamBFS`.
  unfoldable pub discover_downstream_bfs : ℕ → List IssuerAnchor → Action (State W) Downstream
  discover_downstream_bfs zero anchors = crash "stack overflow"
  discover_downstream_bfs (suc depth) [] = pure nothing_found
  discover_downstream_bfs (suc depth) (a ∷ anchors) = do
    l ← collect_level (record { found = nothing_found; next_anchors = [] }) (a ∷ anchors)
    below ← discover_downstream_bfs depth l.next_anchors
    pure (record { cas = l.found.cas ++ below.cas; leaves = l.found.leaves ++ below.leaves })

  -- `discoverDownstream`.
  unfoldable pub discover_downstream : IssuerAnchor → Action (State W) Downstream
  discover_downstream anchor = discover_downstream_bfs c.stack_depth (anchor ∷ [])
