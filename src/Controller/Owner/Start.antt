-- ===== src/Controller/Owner/Start.antt =====
-- reconcileIdleIntermediate: when an intermediate starts a cascade of its own.
use private_pki_operator.Common.{
  String, Bool, true, false, ◌≡◌, ◌≢◌, refl, inl, inr, sym, ap, ◌∙◌, subst, [], ◌∷◌, ◌==◌, eq_iff,
  arith, if◌then◌else◌,
}
use private_pki_operator.Action.{text, errorf, fail, ok, within, ◌>>=◌, ◌>>◌}
use private_pki_operator.Action.Keeps.{Keeps-within, Keeps-bind}
use private_pki_operator.Action.Triple.{
  Triple, Triple-gets, Triple-fail, Triple-weaken, Triple-bind, Triple-if, Triple-from,
  Triple-after,
}
use private_pki_operator.Action.Runs.{within_ok}
use private_pki_operator.Action.Guard.{Guarded, Guarded-run, Guarded-Keeps, Guarded-reached}
use private_pki_operator.Api.{awaiting_reissuance}
use private_pki_operator.Cluster.{Client}
use private_pki_operator.Controller.State.{State, get_pkir, set_status}
use private_pki_operator.Controller.Conditions.{transition_to}
use private_pki_operator.Controller.EnsureIntermediates.{intermediate_skid}
use private_pki_operator.Controller.StaleSweep.{sweep_intermediate_children}
use private_pki_operator.Controller.Intermediate.{
  is_missing, intermediate_first_run, normalise_phase, yield_to_owner, intermediate_skid_changed,
  reconcile_idle_intermediate,
}
use private_pki_operator.Controller.Frame.Build.{StoresStatus}
use private_pki_operator.Controller.Frame.Phases.{IsNot, IsNot-frame}
use private_pki_operator.Controller.Frame.Object.{OfObject}
use private_pki_operator.Controller.Frame.Intermediates.{
  Keeps-intermediate_skid, Keeps-sweep_intermediate_children,
}
use private_pki_operator.Controller.Frame.Cascades.{
  Keeps-is_owner_root_ca_idle, Keeps-intermediate_first_run, Keeps-normalise_phase,
  Keeps-yield_to_owner,
}
use private_pki_operator.Controller.Owner.{
  OwnerRests, StartsCascade, owner_is_idle-OwnerRests, owners_run,
}

module _ {W : Type 0} (c : Client W) (law : StoresStatus c) where
  module _ (s0 : State W) where
    abbrev Watched : State W → Type 0
    Watched = Guarded (OfObject c (IsNot awaiting_reissuance)) (StartsCascade c s0)

    guard_start :
        (skid : String) (b : Bool) (s : State W)
        → OfObject c (IsNot awaiting_reissuance) s
        → (b ≡ true → StartsCascade c s0)
        → Triple
            (λ x. x ≡ s)
            (set_status (λ st. record st { current_skid = skid })
              >> (if b then transition_to c awaiting_reissuance else yield_to_owner c))
            (λ _. Watched)
            Watched
    guard_start skid true s h finish = Guarded-reached _ s (finish refl)
    guard_start skid false s h finish =
        Guarded-Keeps _ s
          (Keeps-bind _ _ ((IsNot-frame c law awaiting_reissuance).keeps_set_status _ (λ x h. h))
            (λ _. Keeps-yield_to_owner (IsNot-frame c law awaiting_reissuance) (λ x h e. cc)))
          h

    guard_changed :
        (skid : String) (s1 : State W)
        → OfObject c (IsNot awaiting_reissuance) s1
        → ((s2 : State W) → OwnerRests c s1.pkir.owner_references s1 s2 → StartsCascade c s0)
        → Triple (λ x. x ≡ s1) (intermediate_skid_changed c skid) (λ _. Watched) Watched
    unfolding intermediate_skid_changed
    guard_changed skid s1 h1 finish =
        Triple-bind _ _
          (Guarded-run _ s1
            (Keeps-within _ _ (Keeps-is_owner_root_ca_idle (IsNot-frame c law awaiting_reissuance)))
            h1)
          (λ owner_idle. Triple-from (λ s2 (run, h2). guard_start skid owner_idle s2 h2 (λ e.
            finish s2 (
              owner_is_idle-OwnerRests c s1.pkir.owner_references s1 s2 (
                owners_run c s1 s2
                  (within_ok _ _ s1 s2 owner_idle run ∙ ap (λ b. (ok b, s2)) e))))))

    guard_idle :
        (s1 : State W) (skid : String)
        → OfObject c (IsNot awaiting_reissuance) s1
        → intermediate_skid c s0.pkir s0 ≡ (ok skid, s1)
        → Triple
            (λ x. x ≡ s1)
            (if s0.pkir.status.current_skid == ""
              then intermediate_first_run c skid
              else if s0.pkir.status.current_skid == skid
              then normalise_phase c s0.pkir.status.phase >> sweep_intermediate_children c
              else intermediate_skid_changed c skid)
            (λ _. Watched)
            Watched
    guard_idle s1 skid h1 read =
        Triple-if (s0.pkir.status.current_skid == "") _ _
          (λ e.
            Guarded-Keeps _ s1
              (Keeps-intermediate_first_run (IsNot-frame c law awaiting_reissuance) (λ k x h e'. cc)
                skid)
              h1)
          (λ known.
            Triple-if (s0.pkir.status.current_skid == skid) _ _
              (λ e.
                Guarded-Keeps _ s1
                  (Keeps-bind _ _
                    (Keeps-normalise_phase (IsNot-frame c law awaiting_reissuance) (λ x h e'. cc) _)
                    (λ _.
                      Keeps-sweep_intermediate_children (IsNot-frame c law awaiting_reissuance)))
                  h1)
              (λ changed. guard_changed skid s1 h1 (λ s2 owner. record {
                live = skid;
                s1 = s1;
                live_read = read;
                was_known = λ e. ground (arith, eq_iff s0.pkir.status.current_skid "", known, e);
                has_changed =
                    λ e. ground (arith, eq_iff s0.pkir.status.current_skid skid, changed, e);
                s2 = s2;
                owner_rests = owner;
              })))

    pub guard_idle_intermediate :
        OfObject c (IsNot awaiting_reissuance) s0
        → Triple (λ x. x ≡ s0) (reconcile_idle_intermediate c) (λ _. Watched) Watched
    unfolding reconcile_idle_intermediate get_pkir
    guard_idle_intermediate h0 =
        Triple-bind {Q = λ x s. (x ≡ s0.pkir) × (s ≡ s0)} _ _
          (Triple-gets _ (λ s e. (ap (λ (t : State W). t.pkir) e, e)))
          (λ x. Triple-from (λ s' (same, at).
            Triple-weaken _ (λ y e. e ∙ at)
              (subst
                (λ p.
                  Triple (λ y. y ≡ s0)
                    (if is_missing p.spec.intermediate_ca_ref
                      then fail
                          (errorf (text "role=IntermediateCA but spec.intermediateCA is nil" ∷ []))
                      else (within (text "reading intermediate CA SKID" ∷ [])
                            (intermediate_skid c p)
                          >>= λ skid.
                              if p.status.current_skid == ""
                              then intermediate_first_run c skid
                              else if p.status.current_skid == skid
                              then normalise_phase c p.status.phase >> sweep_intermediate_children c
                              else intermediate_skid_changed c skid))
                    (λ _. Watched) Watched)
                (sym same)
                (Triple-if (is_missing s0.pkir.spec.intermediate_ca_ref) _ _
                  (λ e.
                    Triple-fail _
                      (λ y e. inl (subst (OfObject c (IsNot awaiting_reissuance)) (sym e) h0)))
                  (λ e.
                    Triple-bind _ _
                      (Guarded-run _ s0
                        (Keeps-within _ _
                          (Keeps-intermediate_skid (IsNot-frame c law awaiting_reissuance) s0.pkir))
                        h0)
                      (λ skid.
                        Triple-from (λ s1 (read, h1).
                          guard_idle s1 skid h1 (within_ok _ _ s0 s1 skid read))))))
              (λ a y k. k) (λ y k. k)))

  -- An intermediate at rest starts a cascade of its own only if its known key has changed and the
  -- first PKIRotation that owns it, if there is one, was found in no rotation.
  pub reconcile_idle_intermediate-StartsCascade :
      (s : State W)
      → s.pkir.status.phase ≢ awaiting_reissuance
      → (reconcile_idle_intermediate c s).1.pkir.status.phase ≡ awaiting_reissuance
      → StartsCascade c s
  reconcile_idle_intermediate-StartsCascade s h e =
      elim (Triple-after (guard_idle_intermediate s (h, tt)) s refl) [
        | inl (still, _) ↦ absurd (still e)
        | inr v ↦ v
      ]
