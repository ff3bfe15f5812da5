-- ===== src/Controller/Renewal/NewRoot.antt =====
-- reconcilePreservingOldRoot: when a root that waits for its renewal opens the dual-trust window.
use private_pki_operator.Common.{
  String, ◌≡◌, ◌≢◌, inl, inr, refl, sym, ap, ◌∙◌, ◌==◌, eq_iff, arith,
}
use private_pki_operator.Action.{ok}
use private_pki_operator.Action.Keeps.{Keeps-within}
use private_pki_operator.Action.Triple.{
  Triple, Triple-gets, Triple-weaken, Triple-bind, Triple-if, Triple-from, Triple-after,
}
use private_pki_operator.Action.Runs.{within_ok}
use private_pki_operator.Action.Guard.{Guarded, Guarded-run, Guarded-Keeps, Guarded-reached}
use private_pki_operator.Api.{dual_trust_active, PkiRotation}
use private_pki_operator.Cluster.{Client}
use private_pki_operator.Controller.State.{State, get_pkir}
use private_pki_operator.Controller.Conditions.{enter_phase}
use private_pki_operator.Controller.Certificates.{current_root_skid}
use private_pki_operator.Controller.Phases.{reconcile_preserving_old_root}
use private_pki_operator.Controller.Frame.Build.{StoresStatus}
use private_pki_operator.Controller.Frame.Phases.{IsNot, IsNot-frame}
use private_pki_operator.Controller.Frame.Object.{OfObject}
use private_pki_operator.Controller.Frame.Reads.{Keeps-current_root_skid}
use private_pki_operator.Controller.Frame.Handlers.{Keeps-preserving_unchanged}

-- The live root has another key than the one before the renewal.
pub record NewRootSeen {W : Type 0} (c : Client W) (s : State W) : Type 0 where
  pub live : String
  pub s1 : State W
  pub live_read : current_root_skid c s ≡ (ok live, s1)
  pub is_new : live ≢ s1.pkir.status.previous_skid

module _ {W : Type 0} (c : Client W) (law : StoresStatus c) (s0 : State W) where
  abbrev Watched : State W → Type 0
  Watched = Guarded (OfObject c (IsNot dual_trust_active)) (NewRootSeen c s0)

  guard_preserving :
      OfObject c (IsNot dual_trust_active) s0
      → Triple (λ x. x ≡ s0) (reconcile_preserving_old_root c) (λ _. Watched) Watched
  unfolding reconcile_preserving_old_root get_pkir enter_phase
  guard_preserving h0 =
      let F = IsNot-frame c law dual_trust_active in
      Triple-bind _ _ (Guarded-run _ s0 (Keeps-within _ _ (Keeps-current_root_skid F)) h0) (λ skid.
        Triple-from (λ s1 (run, h1).
          Triple-bind {Q = λ x s. (x ≡ s1.pkir) × (s ≡ s1)} _ _
            (Triple-gets _ (λ s e. (ap (λ (t : State W). t.pkir) e, e)))
            (λ x. Triple-from (λ s' (same, at).
              Triple-weaken _ (λ y e. e ∙ at)
                (Triple-if (skid == x.status.previous_skid) _ _
                  (λ e.
                    Guarded-Keeps _ s1 (Keeps-preserving_unchanged F (λ t y n k. cc) (λ y n. n)) h1)
                  (λ e. Guarded-reached _ s1 (record {
                    live = skid;
                    s1 = s1;
                    live_read = within_ok _ _ s0 s1 skid run;
                    is_new = λ k. ground (
                      arith,
                      e,
                      (eq_iff skid x.status.previous_skid).1
                          (k ∙ ap (λ (p : PkiRotation). p.status.previous_skid) (sym same)),
                    );
                  })))
                (λ a y k. k) (λ y k. k)))))

  -- A root that waits for its renewal opens the dual-trust window only if its live key is another
  -- one than the key before the renewal.
  pub reconcile_preserving_old_root-NewRootSeen :
      s0.pkir.status.phase ≢ dual_trust_active
      → (reconcile_preserving_old_root c s0).1.pkir.status.phase ≡ dual_trust_active
      → NewRootSeen c s0
  reconcile_preserving_old_root-NewRootSeen h e =
      elim (Triple-after (guard_preserving (h, tt)) s0 refl) [
        | inl (still, _) ↦ absurd (still e)
        | inr v ↦ v
      ]
