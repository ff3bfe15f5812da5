-- ===== src/Controller/Chain/Cascaded.antt =====
-- reconcileVerifyingChainIntermediate: an intermediate enters Complete only if nothing below it is
-- left to re-issue.
use private_pki_operator.Common.{
  ℕ, refl, String, ◌≡◌, ◌≢◌, inl, inr, ap, ◌∙◌, subst, List, [], ◌∷◌, ◌++◌, All, ◌==◌, eq_iff,
}
use private_pki_operator.Action.{Message, ok}
use private_pki_operator.Action.Keeps.{Keeps-within}
use private_pki_operator.Action.Triple.{
  Triple, Triple-gets, Triple-weaken, Triple-bind, Triple-if, Triple-from, Triple-after,
}
use private_pki_operator.Action.Runs.{within_ok}
use private_pki_operator.Action.Guard.{Guarded, Guarded-run, Guarded-Keeps, Guarded-reached}
use private_pki_operator.Api.{complete, idle, PkiRotation}
use private_pki_operator.Cluster.{Client, Certificate}
use private_pki_operator.Controller.State.{State, get_pkir}
use private_pki_operator.Controller.Conditions.{enter_phase}
use private_pki_operator.Controller.Discovery.{IssuerAnchor, Downstream}
use private_pki_operator.Controller.EnsureIntermediates.{intermediate_skid}
use private_pki_operator.Controller.StaleSweep.{load_intermediate_cert}
use private_pki_operator.Controller.Intermediate.{
  not_before_or_zero, discover_below, close_cascade, verify_cascade,
  reconcile_verifying_chain_intermediate,
}
use private_pki_operator.Controller.Frame.Build.{StoresStatus}
use private_pki_operator.Controller.Frame.Phases.{IsNot, IsNot-frame}
use private_pki_operator.Controller.Frame.Object.{OfObject}
use private_pki_operator.Controller.Frame.Intermediates.{
  Keeps-intermediate_skid, Keeps-load_intermediate_cert,
}
use private_pki_operator.Controller.Frame.Cascades.{
  Keeps-discover_below, Keeps-pending_downstream_certs, Keeps-skid_drifted, Keeps-close_pending,
}
use private_pki_operator.Controller.Chain.Pending.{IsReissued, pending_downstream_certs-IsReissued}

-- The key of the intermediate is the recorded one, and everything found below it is ready and not
-- older than its own certificate.
pub record Reissued {W : Type 0} (c : Client W) (s : State W) : Type 0 where
  pub cert : Certificate
  pub s1 : State W
  pub cert_loaded : load_intermediate_cert c s ≡ (ok cert, s1)
  pub live : String
  pub s2 : State W
  pub live_read : intermediate_skid c s1.pkir s1 ≡ (ok live, s2)
  pub live_recorded : live ≡ s1.pkir.status.current_skid
  pub anchors : List IssuerAnchor
  pub found : Downstream
  pub s3 : State W
  pub below_found : discover_below c cert s2 ≡ (ok (anchors, found), s3)
  pub all_reissued :
      All (IsReissued (not_before_or_zero cert.not_before)) (found.cas ++ found.leaves)

module _ {W : Type 0} (c : Client W) (law : StoresStatus c) where
  reset : (t : ℕ) (x : PkiRotation) → (IsNot complete) x → (IsNot complete) (enter_phase idle t x)
  unfolding enter_phase
  reset t x h = λ e. cc

  module _ (s0 : State W) where
    abbrev Watched : State W → Type 0
    Watched = Guarded (OfObject c (IsNot complete)) (Reissued c s0)

    -- What is left once nothing is pending.
    close :
        (found : Downstream) (pending : List Message) (s : State W)
        → OfObject c (IsNot complete) s
        → (pending ≡ [] → Reissued c s0)
        → Triple (λ x. x ≡ s) (close_cascade c found pending) (λ _. Watched) Watched
    close found [] s h finish = Guarded-reached _ s (finish refl)
    close found (m ∷ ms) s h finish =
        Guarded-Keeps _ s (Keeps-close_pending (IsNot-frame c law complete) found m ms) h

    guard_below :
        (cert : Certificate) (s2 : State W)
        → OfObject c (IsNot complete) s2
        → ((anchors : List IssuerAnchor) (found : Downstream) (s3 : State W)
            → discover_below c cert s2 ≡ (ok (anchors, found), s3)
            → All (IsReissued (not_before_or_zero cert.not_before)) (found.cas ++ found.leaves)
            → Reissued c s0)
        → Triple (λ x. x ≡ s2) (verify_cascade c cert) (λ _. Watched) Watched
    unfolding verify_cascade
    guard_below cert s2 h2 finish =
        Triple-bind _ _
          (Guarded-run _ s2 (Keeps-discover_below (IsNot-frame c law complete) cert) h2)
          (λ (anchors, found). Triple-from (λ s3 (below, h3).
            Triple-bind _ _
              (Guarded-run _ s3
                (Keeps-pending_downstream_certs (IsNot-frame c law complete) anchors _
                  (found.cas ++ found.leaves))
                h3)
              (λ pending. Triple-from (λ s4 (checked, h4). close found pending s4 h4 (λ e.
                finish anchors found s3 below (
                  pending_downstream_certs-IsReissued c anchors _ (found.cas ++ found.leaves) s3 s4
                    (checked ∙ ap (λ ms. (ok ms, s4)) e)))))))

    pub guard_cascade :
        OfObject c (IsNot complete) s0
        → Triple (λ x. x ≡ s0) (reconcile_verifying_chain_intermediate c) (λ _. Watched) Watched
    unfolding reconcile_verifying_chain_intermediate get_pkir
    guard_cascade h0 =
        Triple-bind _ _
          (Guarded-run _ s0 (Keeps-load_intermediate_cert (IsNot-frame c law complete)) h0)
          (λ cert. Triple-from (λ s1 (loaded, h1).
            Triple-bind {Q = λ x s. (x ≡ s1.pkir) × (s ≡ s1)} _ _
              (Triple-gets _ (λ s e. (ap (λ (t : State W). t.pkir) e, e)))
              (λ x. Triple-from (λ s' (same, at).
                Triple-bind _ _
                  (Triple-weaken _ (λ y e. e ∙ at)
                    (Guarded-run _ s1
                      (Keeps-within _ _ (Keeps-intermediate_skid (IsNot-frame c law complete) x))
                      h1)
                    (λ a y k. k) (λ y k. k))
                  (λ live. Triple-from (λ s2 (read, h2).
                    Triple-if (live == x.status.current_skid) _ _
                      (λ e. guard_below cert s2 h2 (λ anchors found s3 below reissued. record {
                        cert = cert;
                        s1 = s1;
                        cert_loaded = loaded;
                        live = live;
                        s2 = s2;
                        live_read =
                            subst (λ p. intermediate_skid c p s1 ≡ (ok live, s2)) same
                              (within_ok _ _ s1 s2 live read);
                        live_recorded =
                            (eq_iff live x.status.current_skid).0 e
                            ∙ ap (λ (p : PkiRotation). p.status.current_skid) same;
                        anchors = anchors;
                        found = found;
                        s3 = s3;
                        below_found = below;
                        all_reissued = reissued;
                      }))
                      (λ e.
                        Guarded-Keeps _ s2
                          (Keeps-skid_drifted (IsNot-frame c law complete) reset live _) h2)))))))

  -- An intermediate in a cascade enters Complete only if its live key is the recorded one and every
  -- certificate found below it is ready and was not issued before its own certificate.
  pub reconcile_verifying_chain_intermediate-Reissued :
      (s : State W)
      → s.pkir.status.phase ≢ complete
      → (reconcile_verifying_chain_intermediate c s).1.pkir.status.phase ≡ complete
      → Reissued c s
  reconcile_verifying_chain_intermediate-Reissued s h e =
      elim (Triple-after (guard_cascade s (h, tt)) s refl) [
        | inl (unfinished, _) ↦ absurd (unfinished e)
        | inr v ↦ v
      ]
