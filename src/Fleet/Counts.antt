-- ===== src/Fleet/Counts.antt =====
-- The loops of Collect against plain counts of the lists.
use private_pki_operator.Common.{
  ℕ, ◌+◌, ◌≡◌, refl, sym, ap, String, Bool, true, false, not, ◌&&◌, ◌||◌, some, List, [], ◌∷◌, ◌==◌,
  if◌then◌else◌, any, count, has_name, lookup, insert, ltb, lookup-insert, eq_iff, arith,
}
use private_pki_operator.Api.{PkiRotation}
use private_pki_operator.Cluster.{Certificate}
use private_pki_operator.Controller.Certificates.{is_certificate_resource_ready}
use private_pki_operator.Fleet.{
  Tier, root, intermediate, leaf, tally_of, Counted, count_certificate, count_certificates, tier_of,
  is_root_ref, root_certificate_refs, count_roles, role_label, or_zero, add_namespace, bump, Tally,
}

-- Does a rotation name the certificate as its root?
abbrev pub is_named_root : List PkiRotation → Certificate → Bool
is_named_root pkirs cert =
    any
      (λ (p : PkiRotation).
        not (p.spec.root_ca_ref.certificate_name == "")
        && (p.spec.root_ca_ref.certificate_name == cert.name
            && p.spec.root_ca_ref.certificate_namespace == cert.namespace))
      pkirs

-- The tiers, each by itself.
abbrev pub in_tier : List PkiRotation → Tier → Certificate → Bool
in_tier pkirs root cert = is_named_root pkirs cert
in_tier pkirs intermediate cert = not (is_named_root pkirs cert) && cert.is_ca
in_tier pkirs leaf cert = not (is_named_root pkirs cert) && not cert.is_ca

abbrev is_tier : Tier → Tier → Bool
is_tier root root = true
is_tier intermediate intermediate = true
is_tier leaf leaf = true
is_tier _ _ = false

is_root_ref-named :
    (pkirs : List PkiRotation) (cert : Certificate)
    → is_root_ref (root_certificate_refs pkirs) cert ≡ is_named_root pkirs cert
unfolding is_root_ref root_certificate_refs
is_root_ref-named [] cert = refl
is_root_ref-named (p ∷ pkirs) cert = ground (arith, is_root_ref-named pkirs cert)

tier_of-in_tier :
    (pkirs : List PkiRotation) (t : Tier) (cert : Certificate)
    → is_tier t (tier_of (root_certificate_refs pkirs) cert) ≡ in_tier pkirs t cert
unfolding tier_of
tier_of-in_tier pkirs root cert = ground (arith, is_root_ref-named pkirs cert)
tier_of-in_tier pkirs intermediate cert = ground (arith, is_root_ref-named pkirs cert)
tier_of-in_tier pkirs leaf cert = ground (arith, is_root_ref-named pkirs cert)

tally_of-bump :
    (t u : Tier) (k : Tally) → tally_of t (bump u k) ≡ tally_of t k + (if is_tier t u then 1 else 0)
tally_of-bump root root k = refl
tally_of-bump root u k = omega arith
tally_of-bump intermediate intermediate k = refl
tally_of-bump intermediate u k = omega arith
tally_of-bump leaf leaf k = refl
tally_of-bump leaf u k = omega arith

module _ (pkirs : List PkiRotation) (t : Tier) where
  pub count_certificates-total :
      (certs : List Certificate) (k : Counted)
      → tally_of t (count_certificates (root_certificate_refs pkirs) k certs).total
        ≡ tally_of t k.total + count (in_tier pkirs t) certs
  unfolding count_certificates count_certificate
  count_certificates-total [] k = omega arith
  count_certificates-total (cert ∷ certs) k = ground (
    arith,
    count_certificates-total certs (count_certificate (root_certificate_refs pkirs) cert k),
    tally_of-bump t (tier_of (root_certificate_refs pkirs) cert) k.total,
    tier_of-in_tier pkirs t cert,
  )

  pub count_certificates-ready :
      (certs : List Certificate) (k : Counted)
      → tally_of t (count_certificates (root_certificate_refs pkirs) k certs).ready
        ≡ tally_of t k.ready
          + count (λ cert. in_tier pkirs t cert && is_certificate_resource_ready cert) certs
  unfolding count_certificates count_certificate
  count_certificates-ready [] k = omega arith
  count_certificates-ready (cert ∷ certs) k = ground (
    arith,
    count_certificates-ready certs (count_certificate (root_certificate_refs pkirs) cert k),
    tally_of-bump t (tier_of (root_certificate_refs pkirs) cert) k.ready,
    tier_of-in_tier pkirs t cert,
  )

-- No name twice.
abbrev pub AreNames : List String → Type 0
AreNames [] = Unit
AreNames (n ∷ ns) = (has_name n ns ≡ false) × AreNames ns

AreNames-add : (n : String) (ns : List String) → AreNames ns → AreNames (add_namespace n ns)
AreNames-add n ns h = names_if (has_name n ns) refl
  where
    names_if : (b : Bool) → has_name n ns ≡ b → AreNames (if b then ns else n ∷ ns)
    names_if true e = h
    names_if false e = (e, h)

has_name-add :
    (m n : String) (ns : List String) → has_name m (add_namespace n ns) ≡ (n == m || has_name m ns)
has_name-add m n ns = ground (arith, eq_iff n m, same)
  where
    same : n ≡ m → has_name m ns ≡ has_name n ns
    same e = ap (λ x. has_name x ns) (sym e)

module _ (pkirs : List PkiRotation) where
  pub count_certificates-AreNames :
      (certs : List Certificate) (k : Counted)
      → AreNames k.seen
      → AreNames (count_certificates (root_certificate_refs pkirs) k certs).seen
  unfolding count_certificates count_certificate
  count_certificates-AreNames [] k h = h
  count_certificates-AreNames (cert ∷ certs) k h =
      count_certificates-AreNames certs (count_certificate (root_certificate_refs pkirs) cert k)
        (AreNames-add cert.namespace k.seen h)

  pub count_certificates-seen :
      (certs : List Certificate) (k : Counted) (n : String)
      → has_name n (count_certificates (root_certificate_refs pkirs) k certs).seen
        ≡ (has_name n k.seen || any (λ (cert : Certificate). cert.namespace == n) certs)
  unfolding count_certificates count_certificate
  count_certificates-seen [] k n = ground arith
  count_certificates-seen (cert ∷ certs) k n = ground (
    arith,
    count_certificates-seen certs (count_certificate (root_certificate_refs pkirs) cert k) n,
    has_name-add n cert.namespace k.seen,
  )

-- The roles: what was counted is added to what was there.
pub count_roles-lookup :
    (pkirs : List PkiRotation) (by_role : List (String × ℕ)) (role : String)
    → lookup role (count_roles by_role pkirs) ≡ (
        if ltb 0 (count (λ p. role_label p == role) pkirs)
        then some (or_zero (lookup role by_role) + count (λ p. role_label p == role) pkirs)
        else lookup role by_role)
unfolding count_roles
count_roles-lookup [] by_role role = refl
count_roles-lookup (p ∷ pkirs) by_role role =
    let new = or_zero (lookup (role_label p) by_role) + 1 in
    ground (
      arith,
      count_roles-lookup pkirs (insert (role_label p) new by_role) role,
      lookup-insert by_role (role_label p) new role,
      eq_iff (role_label p) role,
    )
