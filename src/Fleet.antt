-- ===== src/Fleet.antt =====
-- ci/private-pki-operator/internal/controller/fleet_metrics.go: the counts of the PKI hierarchy that
-- are made when Prometheus scrapes, from the lists in the manager's cache.
pub mod Counts
pub mod Census
pub mod Tests
use private_pki_operator.Common.{
  ℕ, ◌+◌, String, Bool, true, false, ◌&&◌, Option, none, some, List, [], ◌∷◌, ◌++◌, ◌==◌,
  if◌then◌else◌, length, any, has_name, lookup, insert,
}
use private_pki_operator.Action.{Result, Action, pure, modify, handle, ◌>>=◌, ◌>>◌}
use private_pki_operator.Api.{PkiRotation, CertificateRef, role_string}
use private_pki_operator.Cluster.{Client, Certificate}
use private_pki_operator.Controller.Certificates.{is_certificate_resource_ready}

-- `certTierRoot`, `certTierIntermediate` and `certTierLeaf`.
pub data Tier : Type 0 where
  root intermediate leaf : Tier

unfoldable pub tier_string : Tier → String
tier_string root = "root"
tier_string intermediate = "intermediate"
tier_string leaf = "leaf"

-- `descCertificates`, `descCertificatesReady`, `descNamespaces` and `descRotations`.
pub data Desc : Type 0 where
  certificates certificates_ready namespaces rotations : Desc

-- What `MustNewConstMetric` makes: a gauge's description, its label's value ("" for a description
-- without a label), and its value.
pub record Sample : Type 0 where
  pub desc : Desc
  pub label : String
  pub value : ℕ

-- `Describe`.
abbrev pub describe : List Desc
describe = certificates ∷ certificates_ready ∷ namespaces ∷ rotations ∷ []

-- A scrape: the outside, and what was sent on the channel.
pub record Scrape (W : Type 0) : Type 0 where
  pub world : W
  pub sent : List Sample

-- `map[string]int{…}` over the tiers.
pub record Tally : Type 0 where
  pub roots : ℕ
  pub intermediates : ℕ
  pub leaves : ℕ

abbrev pub no_certificates : Tally
no_certificates = record { roots = 0; intermediates = 0; leaves = 0 }

abbrev pub tally_of : Tier → Tally → ℕ
tally_of root t = t.roots
tally_of intermediate t = t.intermediates
tally_of leaf t = t.leaves

-- `total[tier]++`.
abbrev pub bump : Tier → Tally → Tally
bump root t = record t { roots = t.roots + 1 }
bump intermediate t = record t { intermediates = t.intermediates + 1 }
bump leaf t = record t { leaves = t.leaves + 1 }

-- `string(Spec.Role)`, the default counted as a root's.
abbrev pub role_label : PkiRotation → String
role_label pkir = if role_string pkir.spec.role == "" then "RootCA" else role_string pkir.spec.role

abbrev pub or_zero : Option ℕ → ℕ
or_zero none = 0
or_zero (some n) = n

-- The loop over the rotations: `byRole[role]++`.
unfoldable pub count_roles : List (String × ℕ) → List PkiRotation → List (String × ℕ)
count_roles by_role [] = by_role
count_roles by_role (pkir ∷ pkirs) =
    count_roles (insert (role_label pkir) (or_zero (lookup (role_label pkir) by_role) + 1) by_role)
      pkirs

abbrev pub no_rotations : List (String × ℕ)
no_rotations = ("RootCA", 0) ∷ ("IntermediateCA", 0) ∷ []

-- `rootCertificateRefs`.
unfoldable pub root_certificate_refs : List PkiRotation → List CertificateRef
root_certificate_refs [] = []
root_certificate_refs (pkir ∷ pkirs) =
    let rest = root_certificate_refs pkirs in
    if pkir.spec.root_ca_ref.certificate_name == "" then rest else pkir.spec.root_ca_ref ∷ rest

-- `roots[certRef{…}]`.
unfoldable pub is_root_ref : List CertificateRef → Certificate → Bool
is_root_ref refs cert =
    any
      (λ (ref : CertificateRef).
        ref.certificate_name == cert.name && ref.certificate_namespace == cert.namespace)
      refs

-- The switch of `Collect`.
unfoldable pub tier_of : List CertificateRef → Certificate → Tier
tier_of refs cert =
    if is_root_ref refs cert then root else if cert.is_ca then intermediate else leaf

-- `namespaces[ns] = struct{}{}`.
abbrev pub add_namespace : String → List String → List String
add_namespace ns names = if has_name ns names then names else ns ∷ names

-- What the loop over the certificates fills.
pub record Counted : Type 0 where
  pub total : Tally
  pub ready : Tally
  pub seen : List String

abbrev pub nothing_counted : Counted
nothing_counted = record { total = no_certificates; ready = no_certificates; seen = [] }

-- One round of it.
unfoldable pub count_certificate : List CertificateRef → Certificate → Counted → Counted
count_certificate refs cert k = record {
  total = bump (tier_of refs cert) k.total;
  ready = if is_certificate_resource_ready cert then bump (tier_of refs cert) k.ready else k.ready;
  seen = add_namespace cert.namespace k.seen;
}

unfoldable pub count_certificates : List CertificateRef → Counted → List Certificate → Counted
count_certificates refs k [] = k
count_certificates refs k (cert ∷ certs) =
    count_certificates refs (count_certificate refs cert k) certs

-- The samples of the rotations, in the order of the map.
unfoldable pub role_samples : List (String × ℕ) → List Sample
role_samples [] = []
role_samples ((role, n) ∷ by_role) =
    record { desc = rotations; label = role; value = n } ∷ role_samples by_role

-- The samples of one tier.
abbrev pub tier_samples : Counted → Tier → List Sample
tier_samples k tier =
    record { desc = certificates; label = tier_string tier; value = tally_of tier k.total }
    ∷ record { desc = certificates_ready; label = tier_string tier; value = tally_of tier k.ready }
    ∷ []

-- What is sent once the certificates are counted.
abbrev pub certificate_samples : Counted → List Sample
certificate_samples k =
    tier_samples k root
    ++ (tier_samples k intermediate
        ++ (tier_samples k leaf
            ++ record { desc = namespaces; label = ""; value = length k.seen } ∷ []))

module _ {W : Type 0} where
  -- A read from the cache.
  unfoldable pub read : {A : Type 0} → (W → Result A × W) → Action (Scrape W) A
  read m s = let (r, w) = m s.world in (r, record s { world = w })

  -- `ch <- …`.
  unfoldable pub send : List Sample → Action (Scrape W) Unit
  unfolding modify
  send samples = modify (λ s. record s { sent = s.sent ++ samples })

module _ {W : Type 0} (c : Client W) where
  -- The first half of `Collect`: the rotations that were listed, none if the list failed.
  unfoldable pub collect_rotations : Action (Scrape W) (List PkiRotation)
  collect_rotations =
      handle (read (c.list_pki_rotations none))
        (λ pkirs. do send (role_samples (count_roles no_rotations pkirs)); pure pkirs)
        (λ _. pure [])

  -- The second half.
  unfoldable pub collect_certificates : List PkiRotation → Action (Scrape W) Unit
  collect_certificates pkirs =
      handle (read (c.list_certificates none))
        (λ certs. send (
          certificate_samples
            (count_certificates (root_certificate_refs pkirs) nothing_counted certs)))
        (λ _. pure tt)

  -- `Collect`.
  unfoldable pub collect : Action (Scrape W) Unit
  collect = collect_rotations >>= collect_certificates
