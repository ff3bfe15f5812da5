-- ===== src/Fleet/Census.antt =====
-- Collect: the series of one scrape, whatever the order of the lists and of the map of the roles.
use private_pki_operator.Common.{
  ℕ, ◌≡◌, refl, ap, ◌∙◌, String, Bool, true, false, ◌&&◌, ◌||◌, Option, none, some, List, [], ◌∷◌,
  ◌++◌, ◌==◌, if◌then◌else◌, length, any, count, has_name, lookup, ltb, eq_iff, arith,
}
use private_pki_operator.Action.{Error, Result, ok, err, panic, pure, modify, handle, ◌>>=◌}
use private_pki_operator.Api.{PkiRotation}
use private_pki_operator.Cluster.{Client, Certificate}
use private_pki_operator.Controller.Certificates.{is_certificate_resource_ready}
use private_pki_operator.Fleet.{
  Tier, root, intermediate, leaf, tier_string, Desc, certificates, certificates_ready, namespaces,
  rotations, Sample, Scrape, Counted, role_label, count_roles, no_rotations, role_samples,
  certificate_samples, root_certificate_refs, count_certificates, nothing_counted, read, send,
  collect_rotations, collect_certificates, collect,
}
use private_pki_operator.Fleet.Counts.{
  in_tier, count_certificates-total, count_certificates-ready, AreNames,
  count_certificates-AreNames, count_certificates-seen, count_roles-lookup,
}

abbrev same_desc : Desc → Desc → Bool
same_desc certificates certificates = true
same_desc certificates_ready certificates_ready = true
same_desc namespaces namespaces = true
same_desc rotations rotations = true
same_desc _ _ = false

-- The value of a series among the samples of a scrape.
abbrev pub gauge : Desc → String → List Sample → Option ℕ
gauge d label [] = none
gauge d label (s ∷ ss) =
    let rest = gauge d label ss in
    if same_desc s.desc d && s.label == label then some s.value else rest

-- How many certificates of a tier there are, and how many of them are ready.
abbrev pub in_all : List PkiRotation → List Certificate → Tier → ℕ
in_all pkirs certs t = count (in_tier pkirs t) certs

abbrev pub ready_in : List PkiRotation → List Certificate → Tier → ℕ
ready_in pkirs certs t =
    count (λ cert. in_tier pkirs t cert && is_certificate_resource_ready cert) certs

abbrev pub of_role : List PkiRotation → String → ℕ
of_role pkirs role = count (λ p. role_label p == role) pkirs

-- The series of the certificates, for the rotations that name the roots.
pub record CertificateSeries (pkirs : List PkiRotation) (certs : List Certificate)
    (ss : List Sample) : Type 0 where
  pub totals : (t : Tier) → gauge certificates (tier_string t) ss ≡ some (in_all pkirs certs t)
  pub readies :
      (t : Tier) → gauge certificates_ready (tier_string t) ss ≡ some (ready_in pkirs certs t)
  pub names : List String
  pub names_once : AreNames names
  pub names_all :
      (n : String) → has_name n names ≡ any (λ (cert : Certificate). cert.namespace == n) certs
  pub reach : gauge namespaces "" ss ≡ some (length names)

-- The series of the rotations: both roles, and any other that occurs.
abbrev pub RoleSeries : List PkiRotation → List Sample → Type 0
RoleSeries pkirs ss =
    (role : String)
    → gauge rotations role ss ≡ (
        if role == "RootCA" || (role == "IntermediateCA" || ltb 0 (of_role pkirs role))
        then some (of_role pkirs role)
        else none)

gauge-role_samples :
    (by_role : List (String × ℕ)) (role : String)
    → gauge rotations role (role_samples by_role) ≡ lookup role by_role
unfolding role_samples
gauge-role_samples [] role = refl
gauge-role_samples ((r, n) ∷ by_role) role = ground (arith, gauge-role_samples by_role role)

gauge-roles_only :
    (d : Desc)
    → same_desc rotations d ≡ false
    → (by_role : List (String × ℕ)) (label : String) → gauge d label (role_samples by_role) ≡ none
unfolding role_samples
gauge-roles_only d h [] label = refl
gauge-roles_only d h ((r, n) ∷ by_role) label = ground (arith, gauge-roles_only d h by_role label)

gauge-append :
    (d : Desc) (label : String) (ss ts : List Sample)
    → gauge d label ss ≡ none
    → gauge d label (ss ++ ts) ≡ gauge d label ts
gauge-append d label [] ts h = refl
gauge-append d label (s ∷ ss) ts h = ground (arith, gauge-append d label ss ts)

gauge-append_right :
    (d : Desc) (label : String) (ss ts : List Sample)
    → gauge d label ts ≡ none
    → gauge d label (ss ++ ts) ≡ gauge d label ss
gauge-append_right d label [] ts h = h
gauge-append_right d label (s ∷ ss) ts h = ground (arith, gauge-append_right d label ss ts)

role_samples-RoleSeries :
    (pkirs : List PkiRotation) → RoleSeries pkirs (role_samples (count_roles no_rotations pkirs))
role_samples-RoleSeries pkirs role =
    gauge-role_samples (count_roles no_rotations pkirs) role
    ∙ count_roles-lookup pkirs no_rotations role
    ∙ ground (
      arith,
      eq_iff role "RootCA",
      eq_iff "RootCA" role,
      eq_iff role "IntermediateCA",
      eq_iff "IntermediateCA" role,
    )

-- The samples of the certificates alone.
abbrev counted : List PkiRotation → List Certificate → Counted
counted pkirs certs = count_certificates (root_certificate_refs pkirs) nothing_counted certs

module _ (pkirs : List PkiRotation) (certs : List Certificate) (before : List Sample)
    (apart : (d : Desc) (label : String)
      → same_desc rotations d ≡ false
      → gauge d label before ≡ none) where
  totals_lem :
      (t : Tier)
      → gauge certificates (tier_string t) (before ++ certificate_samples (counted pkirs certs))
        ≡ some (in_all pkirs certs t)
  unfolding tier_string
  totals_lem root =
      gauge-append certificates "root" before _ (apart certificates "root" refl)
      ∙ ap some (count_certificates-total pkirs root certs nothing_counted ∙ omega arith)
  totals_lem intermediate =
      gauge-append certificates "intermediate" before _ (apart certificates "intermediate" refl)
      ∙ ap some (count_certificates-total pkirs intermediate certs nothing_counted ∙ omega arith)
  totals_lem leaf =
      gauge-append certificates "leaf" before _ (apart certificates "leaf" refl)
      ∙ ap some (count_certificates-total pkirs leaf certs nothing_counted ∙ omega arith)

  readies_lem :
      (t : Tier)
      → gauge certificates_ready
          (tier_string t)
          (before ++ certificate_samples (counted pkirs certs))
        ≡ some (ready_in pkirs certs t)
  unfolding tier_string
  readies_lem root =
      gauge-append certificates_ready "root" before _ (apart certificates_ready "root" refl)
      ∙ ap some (count_certificates-ready pkirs root certs nothing_counted ∙ omega arith)
  readies_lem intermediate =
      gauge-append certificates_ready "intermediate" before _
        (apart certificates_ready "intermediate" refl)
      ∙ ap some (count_certificates-ready pkirs intermediate certs nothing_counted ∙ omega arith)
  readies_lem leaf =
      gauge-append certificates_ready "leaf" before _ (apart certificates_ready "leaf" refl)
      ∙ ap some (count_certificates-ready pkirs leaf certs nothing_counted ∙ omega arith)

  CertificateSeries-counted :
      CertificateSeries pkirs certs (before ++ certificate_samples (counted pkirs certs))
  CertificateSeries-counted = record {
    totals = totals_lem;
    readies = readies_lem;
    names = (counted pkirs certs).seen;
    names_once = count_certificates-AreNames pkirs certs nothing_counted tt;
    names_all = λ n. count_certificates-seen pkirs certs nothing_counted n;
    reach = gauge-append namespaces "" before _ (apart namespaces "" refl);
  }

no_roots : (certs : List Certificate) → in_all [] certs root ≡ 0
no_roots [] = refl
no_roots (cert ∷ certs) = omega (arith, no_roots certs)

-- What a scrape says of the certificates, by how their list went: a failure drops all of it.
abbrev pub CertificateOutcome : List PkiRotation → Result (List Certificate) → List Sample → Type 0
CertificateOutcome pkirs (ok certs) ss = CertificateSeries pkirs certs ss
CertificateOutcome pkirs _ ss =
    (d : Desc) (label : String) → same_desc rotations d ≡ false → gauge d label ss ≡ none

abbrev pub scraping : {W : Type 0} → W → Scrape W
scraping w = record { world = w; sent = [] }

module _ {W : Type 0} (c : Client W) where
  -- If the rotations were listed, the scrape has the number of rotations of each role, and, if the
  -- certificates were listed too, the number of them and of the ready ones in each tier and the
  -- number of their namespaces; otherwise it has none of these.
  pub collect-series :
      (w w1 w2 : W) (pkirs : List PkiRotation) (r : Result (List Certificate))
      → c.list_pki_rotations none w ≡ (ok pkirs, w1)
      → c.list_certificates none w1 ≡ (r, w2)
      → RoleSeries pkirs (collect c (scraping w)).1.sent
        × CertificateOutcome pkirs r (collect c (scraping w)).1.sent
  unfolding collect collect_rotations collect_certificates read send modify handle ◌>>=◌ pure
  collect-series w w1 w2 pkirs (ok certs) e f =
      rw (e, f)
        (
          λ role.
              gauge-append_right rotations role (role_samples (count_roles no_rotations pkirs)) _
                refl
              ∙ role_samples-RoleSeries pkirs role,
          CertificateSeries-counted pkirs certs (role_samples (count_roles no_rotations pkirs))
              (λ d label h. gauge-roles_only d h (count_roles no_rotations pkirs) label),
        )
  collect-series w w1 w2 pkirs (err x) e f =
      rw (e, f)
        (
          role_samples-RoleSeries pkirs,
          λ d label h. gauge-roles_only d h (count_roles no_rotations pkirs) label,
        )
  collect-series w w1 w2 pkirs (panic x) e f =
      rw (e, f)
        (
          role_samples-RoleSeries pkirs,
          λ d label h. gauge-roles_only d h (count_roles no_rotations pkirs) label,
        )

  -- If the rotations could not be listed and the certificates could, the scrape has no series of
  -- rotations, but it has those of the tiers: no root at all, and every CA as an intermediate.
  pub collect-demotes :
      (w w1 w2 : W) (e : Error) (certs : List Certificate)
      → c.list_pki_rotations none w ≡ (err e, w1)
      → c.list_certificates none w1 ≡ (ok certs, w2)
      → ((role : String) → gauge rotations role (collect c (scraping w)).1.sent ≡ none)
        × (gauge certificates "root" (collect c (scraping w)).1.sent ≡ some 0)
        × (gauge certificates "intermediate" (collect c (scraping w)).1.sent
            ≡ some (count (λ cert. cert.is_ca) certs))
  unfolding collect collect_rotations collect_certificates read send modify handle ◌>>=◌ pure
      tier_string
  collect-demotes w w1 w2 e certs h f =
      let series = CertificateSeries-counted [] certs [] (λ d label h. refl) in
      rw (h, f)
        (λ role. refl, series.totals root ∙ ap some (no_roots certs), series.totals intermediate)
