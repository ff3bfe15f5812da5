-- ===== src/Controller/Renewal.antt =====
-- reconcileIdle: when a root at rest starts a rotation.
pub mod NewRoot
pub mod Tests
use private_pki_operator.Common.{
  ℕ, String, Bool, true, false, not, ◌&&◌, ◌≡◌, ◌≢◌, ◌⊎◌, inl, inr, refl, sym, ap, ◌∙◌, subst,
  arith, if◌then◌else◌, ◌==◌, eq_iff,
}
use private_pki_operator.Action.{ok, Action, within, ◌>>=◌}
use private_pki_operator.Action.Keeps.{Keeps-within}
use private_pki_operator.Action.Triple.{
  Triple, Triple-gets, Triple-weaken, Triple-bind, Triple-if, Triple-from, Triple-after,
}
use private_pki_operator.Action.Runs.{within_ok}
use private_pki_operator.Action.Guard.{Guarded, Guarded-run, Guarded-Keeps, Guarded-reached}
use private_pki_operator.Api.{preserving_old_root, PkiRotation}
use private_pki_operator.Cluster.{Client}
use private_pki_operator.Controller.State.{State, get_pkir}
use private_pki_operator.Controller.Certificates.{current_root_skid}
use private_pki_operator.Controller.TrustBundle.{ensure_staging_config_map, ensure_bundle}
use private_pki_operator.Controller.Phases.{
  has_active_certificate_request, idle_skid_changed, idle_first_run, idle_unchanged, reconcile_idle,
}
use private_pki_operator.Controller.Frame.Build.{StoresStatus}
use private_pki_operator.Controller.Frame.Phases.{IsNot, IsNot-frame}
use private_pki_operator.Controller.Frame.Object.{OfObject}
use private_pki_operator.Controller.Frame.Reads.{
  Keeps-current_root_skid, Keeps-ensure_staging_config_map, Keeps-ensure_bundle,
}
use private_pki_operator.Controller.Frame.Handlers.{
  Keeps-has_active, Keeps-tend_children, Keeps-idle_first_run,
}

-- Why a rotation starts: the live key is another one than the recorded one, or it is the recorded
-- one and a request for the root's certificate is under way.
pub data Reason {W : Type 0} (c : Client W) (live recorded : String) (s : State W) : Type 0 where
  key_changed : recorded ≢ "" → recorded ≢ live → Reason c live recorded s
  request_active :
      (s' : State W)
      → recorded ≡ live
      → has_active_certificate_request c s ≡ (ok true, s')
      → Reason c live recorded s

-- A root at rest, once the staging ConfigMap and the bundle are there, reads its live key, and there
-- is a reason to start a rotation.
pub record RenewalSeen {W : Type 0} (c : Client W) (s : State W) : Type 0 where
  pub s1 : State W
  pub staging_ensured : ensure_staging_config_map c s ≡ (ok tt, s1)
  pub s2 : State W
  pub bundle_ensured : ensure_bundle c s1 ≡ (ok tt, s2)
  pub live : String
  pub s3 : State W
  pub live_read : current_root_skid c s2 ≡ (ok live, s3)
  pub reason : Reason c live s3.pkir.status.current_skid s3

apart :
    (recorded live : String)
    → not (recorded == "") && not (recorded == live) ≡ true
    → (recorded ≢ "") × (recorded ≢ live)
apart recorded live e = (
  λ none. ground (arith, e, (eq_iff recorded "").1 none),
  λ same. ground (arith, e, (eq_iff recorded live).1 same),
)

together :
    (recorded live : String)
    → not (recorded == "") && not (recorded == live) ≡ false
    → (recorded == "") ≡ false
    → recorded ≡ live
together recorded live e known = (eq_iff recorded live).0 (ground (arith, e, known))

module _ {W : Type 0} (c : Client W) (law : StoresStatus c) (s0 : State W) where
  abbrev Resting : State W → Type 0
  Resting = OfObject c (IsNot preserving_old_root)

  abbrev Watched : State W → Type 0
  Watched = Guarded Resting (RenewalSeen c s0)

  guard_unchanged :
      (skid : String) (s3 : State W)
      → Resting s3
      → ((s4 : State W) → has_active_certificate_request c s3 ≡ (ok true, s4) → RenewalSeen c s0)
      → Triple (λ x. x ≡ s3) (idle_unchanged c skid) (λ _. Watched) Watched
  unfolding idle_unchanged
  guard_unchanged skid s3 h3 finish =
      let F = IsNot-frame c law preserving_old_root in
      Triple-bind _ _ (Guarded-run _ s3 (Keeps-within _ _ (Keeps-has_active F)) h3) (λ active.
        Triple-from (λ s4 (run, h4).
          Triple-if active _ _
            (λ e.
              Guarded-reached _ s4
                (finish s4 (within_ok _ _ s3 s4 active run ∙ ap (λ b. (ok b, s4)) e)))
            (λ e. Guarded-Keeps _ s4 (Keeps-tend_children F) h4)))

  guard_skid :
      (skid : String) (s3 : State W) (x : PkiRotation)
      → x ≡ s3.pkir
      → Resting s3
      → (Reason c skid s3.pkir.status.current_skid s3 → RenewalSeen c s0)
      → Triple
          (λ y. y ≡ s3)
          (if not (x.status.current_skid == "") && not (x.status.current_skid == skid)
            then idle_skid_changed c skid
            else if x.status.current_skid == ""
            then idle_first_run c skid
            else idle_unchanged c skid)
          (λ _. Watched)
          Watched
  guard_skid skid s3 x same h3 finish =
      let F = IsNot-frame c law preserving_old_root in
      let recorded = ap (λ (p : PkiRotation). p.status.current_skid) same in
      Triple-if (not (x.status.current_skid == "") && not (x.status.current_skid == skid)) _ _
        (λ e.
          let (known, differs) = apart x.status.current_skid skid e in
          Guarded-reached _ s3
            (finish (key_changed (λ none. known (recorded ∙ none)) (λ k. differs (recorded ∙ k)))))
        (λ e.
          Triple-if (x.status.current_skid == "") _ _
            (λ first. Guarded-Keeps _ s3 (Keeps-idle_first_run F (λ k y h. h) skid) h3)
            (λ later. guard_unchanged skid s3 h3 (λ s4 active. finish (
              request_active s4 (sym recorded ∙ together x.status.current_skid skid e later)
                active))))

  guard_idle : Resting s0 → Triple (λ x. x ≡ s0) (reconcile_idle c) (λ _. Watched) Watched
  unfolding reconcile_idle get_pkir
  guard_idle h0 =
      let F = IsNot-frame c law preserving_old_root in
      Triple-bind _ _ (Guarded-run _ s0 (Keeps-within _ _ (Keeps-ensure_staging_config_map F)) h0)
        (λ u1. Triple-from (λ s1 (run1, h1).
          Triple-bind _ _ (Guarded-run _ s1 (Keeps-within _ _ (Keeps-ensure_bundle F)) h1) (λ u2.
            Triple-from (λ s2 (run2, h2).
              Triple-bind _ _ (Guarded-run _ s2 (Keeps-within _ _ (Keeps-current_root_skid F)) h2)
                (λ skid. Triple-from (λ s3 (run3, h3).
                  Triple-bind {Q = λ x s. (x ≡ s3.pkir) × (s ≡ s3)} _ _
                    (Triple-gets _ (λ s e. (ap (λ (t : State W). t.pkir) e, e)))
                    (λ x. Triple-from (λ s' (same, at).
                      Triple-weaken _ (λ y e. e ∙ at)
                        (guard_skid skid s3 x same h3 (λ reason. record {
                          s1 = s1;
                          staging_ensured = within_ok _ _ s0 s1 tt run1;
                          s2 = s2;
                          bundle_ensured = within_ok _ _ s1 s2 tt run2;
                          live = skid;
                          s3 = s3;
                          live_read = within_ok _ _ s2 s3 skid run3;
                          reason = reason;
                        }))
                        (λ a y k. k) (λ y k. k)))))))))

  -- A root at rest starts a rotation only if its live key is another one than the recorded one, or
  -- is the recorded one while a request for the root's certificate is not ready yet.
  pub reconcile_idle-RenewalSeen :
      s0.pkir.status.phase ≢ preserving_old_root
      → (reconcile_idle c s0).1.pkir.status.phase ≡ preserving_old_root
      → RenewalSeen c s0
  reconcile_idle-RenewalSeen h e = elim (Triple-after (guard_idle (h, tt)) s0 refl) [
    | inl (still, _) ↦ absurd (still e)
    | inr v ↦ v
  ]
