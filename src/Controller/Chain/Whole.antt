-- ===== src/Controller/Chain/Whole.antt =====
-- The cascade of an intermediate against the chains of certificates below it: the checks before
-- Complete, with what discoverDownstreamBFS finds.
use private_pki_operator.Common.{
  String, ◌≡◌, ◌≢◌, refl, ap, subst, sym, Bool, true, false, some, List, ◌++◌, Any, Member,
  Any-append_left, Any-append_right, All-Member,
}
use private_pki_operator.Action.{Result, ok}
use private_pki_operator.Action.Triple.{
  Ensures, Triple-pure, Triple-within, Triple-bind, Triple-weaken, Triple-from, outcome_ok,
}
use private_pki_operator.Api.{complete, PkiRotation}
use private_pki_operator.Cluster.{Client, Certificate}
use private_pki_operator.Controller.State.{State, call, get_pkir, get_reader}
use private_pki_operator.Action.Keeps.{Keeps, keeps_rules}
use private_pki_operator.Controller.Certificates.{tls_crt}
use private_pki_operator.Controller.EnsureIntermediates.{intermediate_skid, ref_skid}
use private_pki_operator.Controller.Discovery.{IssuerAnchor, Downstream}
use private_pki_operator.Controller.Discovery.Levels.{
  Snapshot, IsSteady, backed, levels, Returns-find, Ensures-levels,
}
use private_pki_operator.Controller.Discovery.Exact.{Below, levels-Below}
use private_pki_operator.Controller.StaleSweep.{load_intermediate_cert}
use private_pki_operator.Controller.Intermediate.{
  not_before_or_zero, discover_below, reconcile_verifying_chain_intermediate,
}
use private_pki_operator.Controller.Frame.Build.{StoresStatus, Preserves}
use private_pki_operator.Controller.Chain.Pending.{IsReissued}
use private_pki_operator.Controller.Chain.Cascaded.{
  Reissued, reconcile_verifying_chain_intermediate-Reissued,
}

-- The certificate was issued below an issuer that the CA certificate backs.
abbrev pub BelowCa : Snapshot → Certificate → Certificate → Type 0
BelowCa snap ca cert = Any (λ a. Below snap a cert) (backed snap ca)

-- The intermediate's certificate, and every certificate below it re-issued.
pub record WhollyReissued {W : Type 0} (c : Client W) (snap : Snapshot) (s : State W) : Type 0 where
  pub ca : Certificate
  pub s1 : State W
  pub loaded : load_intermediate_cert c s ≡ (ok ca, s1)
  pub reissued :
      (cert : Certificate)
      → BelowCa snap ca cert
      → IsReissued (not_before_or_zero ca.not_before) cert

-- The reads of the intermediate's certificate and of its Secret do not leave the states `At`.
pub record ReadsStay {W : Type 0} (c : Client W) (At : W → Type 0) : Type 0 where
  pub get_certificate : (ns n : String) → Preserves At (c.get_certificate ns n)
  pub get_reader : (ns n : String) → Preserves At (get_reader c ns n)

module _ {W : Type 0} (c : Client W) (At : W → Type 0) (snap : Snapshot)
    (steady : IsSteady c At snap) (reads : ReadsStay c At) where
  abbrev Stays : State W → Type 0
  Stays s = At s.world

  Stays-called : {A : Type 0} (m : W → Result A × W) → Preserves At m → Keeps Stays (call m)
  unfolding call
  Stays-called m k = record { at = λ s h. k.at s.world h }

  Keeps-load : Keeps Stays (load_intermediate_cert c)
  unfolding load_intermediate_cert get_pkir
  Keeps-load =
      let certs = λ (ns n : String). Stays-called _ (reads.get_certificate ns n) in
      search keeps_rules depth 12

  Keeps-skid : (pkir : PkiRotation) → Keeps Stays (intermediate_skid c pkir)
  unfolding intermediate_skid ref_skid tls_crt
  Keeps-skid pkir =
      let certs = λ (ns n : String). Stays-called _ (reads.get_certificate ns n) in
      let secrets = λ (ns n : String). Stays-called _ (reads.get_reader ns n) in
      search keeps_rules depth 14

  -- The issuers that the certificate backs, and what the search below them finds.
  Searched : Certificate → List IssuerAnchor × Downstream → Type 0
  Searched cert (anchors, found) =
      (anchors ≡ backed snap cert) × (levels snap c.stack_depth anchors ≡ some found)

  discover_below-Searched :
      (cert : Certificate) → Ensures Stays (discover_below c cert) (λ r _. Searched cert r)
  unfolding discover_below Searched
  discover_below-Searched cert =
      Triple-bind _ _ (Triple-within _ _ (Returns-find c At snap steady cert)) (λ anchors.
        Triple-from (λ s0 (e, h0).
          Triple-bind _ _
            (Triple-within _ _ (
              Triple-weaken _ (λ s same. subst Stays (sym same) h0)
                (Ensures-levels c At snap steady c.stack_depth anchors) (λ x s h. h) (λ s h. h)))
            (λ found. Triple-pure _ (λ s h. (e, h)))))

  found_below :
      (b : Bool) (ca cert : Certificate) (anchors : List IssuerAnchor) (found : Downstream)
      → Searched ca (anchors, found)
      → BelowCa snap ca cert
      → cert.is_ca ≡ b
      → Member cert (found.cas ++ found.leaves)
  unfolding Searched
  found_below true ca cert anchors found (same, searched) h k =
      Any-append_left _ found.cas found.leaves (
        (levels-Below snap true cert c.stack_depth anchors found searched).1
          (k, subst (Any (λ a. Below snap a cert)) (sym same) h))
  found_below false ca cert anchors found (same, searched) h k =
      Any-append_right _ found.cas found.leaves (
        (levels-Below snap false cert c.stack_depth anchors found searched).1
          (k, subst (Any (λ a. Below snap a cert)) (sym same) h))

  at_s2 : (s : State W) → At s.world → (r : Reissued c s) → At r.s2.world
  at_s2 s h r =
      let h1 = subst (λ x. At x.1.world) r.cert_loaded (Keeps-load.at s h) in
      subst (λ x. At x.1.world) r.live_read ((Keeps-skid r.s1.pkir).at r.s1 h1)

  all_below : (s : State W) → At s.world → Reissued c s → WhollyReissued c snap s
  all_below s h r = record {
    ca = r.cert;
    s1 = r.s1;
    loaded = r.cert_loaded;
    reissued = λ cert below. All-Member _ cert (r.found.cas ++ r.found.leaves) r.all_reissued (
        found_below cert.is_ca r.cert cert r.anchors r.found
          (outcome_ok _ _ (r.anchors, r.found) _ _
            ((discover_below-Searched r.cert).at r.s2 (at_s2 s h r)) (ap (λ x. x.0) r.below_found))
          below refl);
  }

  -- On a cluster that stays as it is while it is read, an intermediate enters Complete only if every
  -- certificate below it, at whatever depth, is ready and was not issued before its own certificate.
  pub reconcile_verifying_chain_intermediate-WhollyReissued :
      (s : State W)
      → StoresStatus c
      → At s.world
      → s.pkir.status.phase ≢ complete
      → (reconcile_verifying_chain_intermediate c s).1.pkir.status.phase ≡ complete
      → WhollyReissued c snap s
  reconcile_verifying_chain_intermediate-WhollyReissued s law at h e =
      all_below s at (reconcile_verifying_chain_intermediate-Reissued c law s h e)
