-- ===== src/Controller/Retention.antt =====
-- What the rotation leaves in the staging ConfigMap: a trust anchor stays through every phase but
-- Complete, and there only the old root goes.
pub mod BothRoots
pub mod Staging
use private_pki_operator.Common.{
  ℕ, String, Bool, true, false, ◌≡◌, ◌≢◌, refl, sym, ap, ◌∙◌, subst, ◌⊎◌, inl, inr, List, [],
  if◌then◌else◌,
}
use private_pki_operator.Action.{ok, Action, modify, handle, ◌>>=◌}
use private_pki_operator.Action.Keeps.{Keeps}
use private_pki_operator.Api.{
  Phase, Condition, unset, idle, preserving_old_root, dual_trust_active, awaiting_reissuance,
  verifying_chain, complete, other_phase, is_intermediate_ca, PkiRotation,
}
use private_pki_operator.Cluster.{Client, ConfigMap}
use private_pki_operator.Pki.Codec.{Bytes, IsLawful}
use private_pki_operator.Pki.Pem.{is_target}
use private_pki_operator.Controller.State.{State, Requeue, call, set_pkir, set_metrics}
use private_pki_operator.Controller.Conditions.{enter_phase}
use private_pki_operator.Controller.Intermediate.{reconcile_intermediate}
use private_pki_operator.Controller.Reconcile.{reconcile_root, reconcile_pkir, reconcile}
use private_pki_operator.Controller.Frame.{Frame}
use private_pki_operator.Controller.Frame.Build.{StoresStatus, Both, frame}
use private_pki_operator.Controller.Frame.Object.{Keeps-seed}
use private_pki_operator.Controller.Frame.Dispatch.{
  Keeps-reconcile_root, Keeps-reconcile_intermediate,
}
use private_pki_operator.Controller.Frame.Handlers.{Keeps-reconcile_complete}
use private_pki_operator.Controller.Retention.Staging.{AtStaging, Guards, Keeps-extend, Keeps-trim}

module _ {W : Type 0} {c : Client W} (law : StoresStatus c) {der : Bytes} {ns n : String}
    {J : W → Type 0} (guard : Guards c der ns n J) where
  retention_frame :
      (R : PkiRotation → Type 0)
      → ((x : PkiRotation) → R x → AtStaging ns n x)
      → ((p q : PkiRotation) → q.status ≡ p.status → q.spec ≡ p.spec → R p → R q)
      → ((p : PkiRotation) (g : List Condition → List Condition)
          → R p
          → R (record p { status = record p.status { conditions = g p.status.conditions } }))
      → Frame c
          (λ p. (t : ℕ) (x : PkiRotation) → R x → R (enter_phase p t x))
          (λ f. (x : PkiRotation) → R x → R (record x { status = f x.status }))
          (Both R J)
  retention_frame R here closed conditions_at =
      frame R J law guard.outside closed conditions_at (Keeps-seed R J guard.outside guard.created)
        (Keeps-extend guard R here)

  plain_frame :
      Frame c
        (λ p. (t : ℕ) (x : PkiRotation) → AtStaging ns n x → AtStaging ns n (enter_phase p t x))
        (λ f.
          (x : PkiRotation) → AtStaging ns n x → AtStaging ns n (record x { status = f x.status }))
        (Both (AtStaging ns n) J)
  plain_frame =
      retention_frame (AtStaging ns n) (λ x h. h)
        (λ p q _ same_spec h. (
          ap (λ s. s.trust_bundle.staging_config_map.namespace) same_spec ∙ h.0,
          ap (λ s. s.trust_bundle.staging_config_map.name) same_spec ∙ h.1,
        ))
        (λ p g h. h)

  enter :
      (p : Phase) (t : ℕ) (x : PkiRotation) → AtStaging ns n x → AtStaging ns n (enter_phase p t x)
  unfolding enter_phase
  enter p t x h = h

  Keeps-root : (p : Phase) → p ≢ complete → Keeps (Both (AtStaging ns n) J) (reconcile_root c p)
  Keeps-root = Keeps-reconcile_root plain_frame enter (λ f x h. h)

  Keeps-intermediate : (p : Phase) → Keeps (Both (AtStaging ns n) J) (reconcile_intermediate c p)
  Keeps-intermediate = Keeps-reconcile_intermediate plain_frame enter (λ f x h. h)

  -- The phase Complete trims by the recorded SKID of the old root, and forgets that SKID after it.
  module _ (lawful : IsLawful c.codec) (old : String)
      (spared : is_target c.codec old (record { header = []; bytes = der }) ≡ false) where
    abbrev AtOldRoot : PkiRotation → Type 0
    AtOldRoot x =
        AtStaging ns n x × ((x.status.previous_skid ≡ old) ⊎ (x.status.previous_skid ≡ ""))

    old_root_frame :
        Frame c
          (λ p. (t : ℕ) (x : PkiRotation) → AtOldRoot x → AtOldRoot (enter_phase p t x))
          (λ f. (x : PkiRotation) → AtOldRoot x → AtOldRoot (record x { status = f x.status }))
          (Both AtOldRoot J)
    old_root_frame =
        retention_frame AtOldRoot (λ x h. h.0)
          (λ p q same_status same_spec h. (
            (
              ap (λ s. s.trust_bundle.staging_config_map.namespace) same_spec ∙ h.0.0,
              ap (λ s. s.trust_bundle.staging_config_map.name) same_spec ∙ h.0.1,
            ),
            subst (λ s. (s.previous_skid ≡ old) ⊎ (s.previous_skid ≡ "")) (sym same_status) h.1,
          ))
          (λ p g h. h)

    enter_old : (p : Phase) (t : ℕ) (x : PkiRotation) → AtOldRoot x → AtOldRoot (enter_phase p t x)
    unfolding enter_phase
    enter_old p t x h = h

    Keeps-complete : Keeps (Both AtOldRoot J) (reconcile_root c complete)
    unfolding reconcile_root
    Keeps-complete =
        Keeps-reconcile_complete old_root_frame
          (Keeps-trim guard AtOldRoot (λ x h. h.0) lawful old spared (λ x h. h.1)) (enter_old idle)
          (λ x h. (h.0, inr refl))

module _ {W : Type 0} (c : Client W) (law : StoresStatus c) (der : Bytes) (J : W → Type 0) where
  -- `J` guards the certificate in the rotation's own staging ConfigMap.
  abbrev GuardsOf : PkiRotation → Type 0
  GuardsOf x =
      Guards c der x.spec.trust_bundle.staging_config_map.namespace
        x.spec.trust_bundle.staging_config_map.name J

  kept_outside_complete :
      (pkir : PkiRotation)
      → GuardsOf pkir
      → (b : Bool) → is_intermediate_ca pkir.spec.role ≡ b
      → (b ≡ true) ⊎ (pkir.status.phase ≢ complete)
      → (s : State W) → s.pkir ≡ pkir
      → J s.world
      → J (reconcile_pkir c pkir s).1.world
  unfolding reconcile_pkir
  kept_outside_complete pkir guard true role h s e j = rw role (
      ((Keeps-intermediate law guard pkir.status.phase).at s
        (subst (AtStaging _ _) (sym e) (refl, refl), j)).1)
  kept_outside_complete pkir guard false role (inl h) s e j = absurd cc
  kept_outside_complete pkir guard false role (inr h) s e j = rw role (
      ((Keeps-root law guard pkir.status.phase h).at s
        (subst (AtStaging _ _) (sym e) (refl, refl), j)).1)

  -- A certificate in the staging ConfigMap is still there after a reconcile of any phase but a
  -- root's Complete, however the reconcile ends.
  pub reconcile_retains :
      (name : String) (s : State W) (pkir : PkiRotation) (w : W)
      → c.get_pki_rotation name s.world ≡ (ok pkir, w)
      → GuardsOf pkir
      → (is_intermediate_ca pkir.spec.role ≡ true) ⊎ (pkir.status.phase ≢ complete)
      → J s.world
      → J (reconcile c name s).1.world
  unfolding reconcile handle ◌>>=◌ call set_pkir set_metrics modify
  reconcile_retains name s pkir w e guard h j = rw e (
      kept_outside_complete pkir guard _ refl h _ refl
        (subst (λ x. J x.1) e ((guard.outside.get_pki_rotation_at name).at s.world j)))

  phase_cases : (p : Phase) → (p ≡ complete) ⊎ (p ≢ complete)
  phase_cases complete = inl refl
  phase_cases unset = inr cc
  phase_cases idle = inr cc
  phase_cases preserving_old_root = inr cc
  phase_cases dual_trust_active = inr cc
  phase_cases awaiting_reissuance = inr cc
  phase_cases verifying_chain = inr cc
  phase_cases (other_phase s) = inr cc

  kept_anyhow :
      (pkir : PkiRotation)
      → IsLawful c.codec
      → GuardsOf pkir
      → is_target c.codec pkir.status.previous_skid (record { header = []; bytes = der }) ≡ false
      → (b : Bool) → is_intermediate_ca pkir.spec.role ≡ b
      → (s : State W) → s.pkir ≡ pkir
      → J s.world
      → J (reconcile_pkir c pkir s).1.world
  unfolding reconcile_pkir
  kept_anyhow pkir lawful guard spared true role s e j =
      kept_outside_complete pkir guard true role (inl refl) s e j
  kept_anyhow pkir lawful guard spared false role s e j = elim (phase_cases pkir.status.phase) [
    | inl done ↦
        rw (role, done)
          (((Keeps-complete law guard lawful pkir.status.previous_skid spared).at s (
            subst (AtOldRoot law guard lawful pkir.status.previous_skid spared) (sym e)
                ((refl, refl), inl refl),
            j,
          )).1)
    | inr other ↦ kept_outside_complete pkir guard false role (inr other) s e j
  ]

  -- A certificate in the staging ConfigMap whose key identifier is not the one recorded as the old
  -- root's is still there after a reconcile of any phase, however the reconcile ends.
  pub reconcile_spares :
      (name : String) (s : State W) (pkir : PkiRotation) (w : W)
      → c.get_pki_rotation name s.world ≡ (ok pkir, w)
      → IsLawful c.codec
      → GuardsOf pkir
      → is_target c.codec pkir.status.previous_skid (record { header = []; bytes = der }) ≡ false
      → J s.world
      → J (reconcile c name s).1.world
  unfolding reconcile handle ◌>>=◌ call set_pkir set_metrics modify
  reconcile_spares name s pkir w e lawful guard spared j = rw e (
      kept_anyhow pkir lawful guard spared _ refl _ refl
        (subst (λ x. J x.1) e ((guard.outside.get_pki_rotation_at name).at s.world j)))
