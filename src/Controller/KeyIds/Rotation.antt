-- ===== src/Controller/KeyIds/Rotation.antt =====
-- The phases of a root after Idle, and the whole reconcile, keep the SKIDs of the status in order.
use private_pki_operator.Common.{
  ℕ, String, false, ◌≡◌, ◌≢◌, refl, sym, ap, subst, ◌∙◌, ◌==◌, eq_iff, arith, if◌then◌else◌,
}
use private_pki_operator.Action.{ok, Action, modify}
use private_pki_operator.Action.Keeps.{Keeps, Keeps-within}
use private_pki_operator.Action.Triple.{
  Outcome, outcome_ok, Triple-weaken, Triple-pure, Triple-gets, Triple-if, Triple-within,
  Triple-bind, Ensures, Ensures-Keeps,
}
use private_pki_operator.Api.{
  Phase, Status, unset, idle, preserving_old_root, dual_trust_active, awaiting_reissuance,
  verifying_chain, complete, other_phase, is_intermediate_ca, PkiRotation,
}
use private_pki_operator.Cluster.{Client}
use private_pki_operator.Controller.State.{State, Requeue, get_pkir, set_pkir, set_status}
use private_pki_operator.Controller.Conditions.{transition_to, enter_phase}
use private_pki_operator.Controller.Phases.{
  preserving_unchanged, preserving_changed, reconcile_preserving_old_root, reconcile_complete,
}
use private_pki_operator.Controller.Frame.{Frame}
use private_pki_operator.Controller.Frame.Reads.{
  Keeps-current_root_skid, Keeps-clear_reissuance_trigger,
}
use private_pki_operator.Controller.Frame.Intermediates.{Keeps-sync_child_skids}
use private_pki_operator.Controller.Frame.Handlers.{
  Keeps-has_active, Keeps-reconcile_dual_trust_active, Keeps-reconcile_awaiting_reissuance,
  Keeps-reconcile_verifying_chain,
}
use private_pki_operator.Controller.Frame.Build.{StoresStatus}
use private_pki_operator.Controller.Frame.Object.{Keeps-trim}
use private_pki_operator.Controller.Reconcile.{
  reconcile_root, reconcile, reconcile_read, reconcile_pkir-root,
}
use private_pki_operator.Controller.KeyIds.{
  ApartIn, IsApart, BothKnown, BothKnown→apart, OfStatus, status_frame, IsApart-frame,
  Ensures-transition_to, Ensures-reconcile_idle,
}

in_phase :
    (s : Status) {p : Phase} → s.phase ≡ p → IsApart s → ApartIn p s.previous_skid s.current_skid
in_phase s e h = subst (λ p. ApartIn p s.previous_skid s.current_skid) e h

module _ {W : Type 0} (c : Client W) (law : StoresStatus c) where
  -- PreservingOldRoot: the old root's SKID is known.
  abbrev Preserving : Status → Type 0
  Preserving s = (s.phase ≡ preserving_old_root) × (s.previous_skid ≢ "")

  Preserving-frame :
      Frame c
        (λ p.
          (t : ℕ) (x : PkiRotation) → Preserving x.status → Preserving (enter_phase p t x).status)
        (λ f. (x : PkiRotation) → Preserving x.status → Preserving (f x.status))
        (OfStatus c law Preserving)
  Preserving-frame = status_frame c law Preserving (λ s g h. h)

  Preserving-IsApart : (s : State W) → OfStatus c law Preserving s → OfStatus c law IsApart s
  Preserving-IsApart s h = (
    subst (λ p. ApartIn p s.pkir.status.previous_skid s.pkir.status.current_skid) (sym h.0.0) h.0.1,
    tt,
  )

  known_frame :
      Frame c
        (λ p. (t : ℕ) (x : PkiRotation) → BothKnown x.status → BothKnown (enter_phase p t x).status)
        (λ f. (x : PkiRotation) → BothKnown x.status → BothKnown (f x.status))
        (OfStatus c law BothKnown)
  known_frame = status_frame c law BothKnown (λ s g h. h)

  any_frame :
      Frame c
        (λ p. (t : ℕ) (x : PkiRotation) → Unit → Unit)
        (λ f. (x : PkiRotation) → Unit → Unit)
        (OfStatus c law (λ _. Unit))
  any_frame = status_frame c law (λ _. Unit) (λ s g h. tt)

  -- Whatever held before, Idle asks nothing.
  enters_idle :
      Ensures (OfStatus c law (λ _. Unit)) (transition_to c idle) (λ _. OfStatus c law IsApart)
  unfolding enter_phase
  enters_idle =
      Ensures-transition_to c law (λ _. Unit) IsApart any_frame (IsApart-frame c law) idle
        (λ t x h. tt)

  enters_known :
      (p : Phase)
      → (t : ℕ) (x : PkiRotation) → BothKnown x.status
      → BothKnown (enter_phase p t x).status
  unfolding enter_phase
  enters_known p t x h = h

  known-IsApart : (s : State W) → OfStatus c law BothKnown s → OfStatus c law IsApart s
  known-IsApart s h = (BothKnown→apart _ _ _ h.0.0 h.0.1, tt)

  Ensures-preserving_unchanged :
      Ensures (OfStatus c law Preserving) (preserving_unchanged c) (λ _. OfStatus c law IsApart)
  unfolding preserving_unchanged set_status set_pkir modify
  Ensures-preserving_unchanged =
      Triple-bind {Q = λ _. OfStatus c law Preserving} _ _
        (Triple-within _ _ (Ensures-Keeps (Keeps-has_active Preserving-frame)))
        (λ active.
          Triple-if active _ _ (λ _. Triple-pure 10 Preserving-IsApart)
            (λ _.
              Triple-bind {Q = λ _. OfStatus c law (λ _. Unit)} _ _
                (record { at = λ s h. (tt, tt) }) (λ _. enters_idle)))

  Ensures-preserving_changed :
      (skid : String) (x : PkiRotation)
      → skid ≢ x.status.previous_skid
      → Ensures
          (λ s. OfStatus c law Preserving s × (s.pkir ≡ x))
          (preserving_changed c skid)
          (λ _. OfStatus c law IsApart)
  unfolding preserving_changed set_status set_pkir modify enter_phase
  Ensures-preserving_changed skid x other =
      Triple-bind {Q = λ _. OfStatus c law BothKnown} _ _
        (record {
          at = λ s h.
              ((h.0.0.1, λ same. other (sym same ∙ ap (λ p. p.status.previous_skid) h.1)), tt);
        })
        (λ _.
          Ensures-transition_to c law BothKnown IsApart known_frame (IsApart-frame c law)
            dual_trust_active (enters_known dual_trust_active))

  Preserving-branches :
      (skid : String) (x : PkiRotation)
      → Ensures
          (λ s. OfStatus c law Preserving s × (s.pkir ≡ x))
          (if skid == x.status.previous_skid
            then preserving_unchanged c
            else preserving_changed c skid)
          (λ _. OfStatus c law IsApart)
  Preserving-branches skid x =
      Triple-if (skid == x.status.previous_skid) _ _
        (λ same. record { at = λ s h. Ensures-preserving_unchanged.at s h.0 })
        (λ other.
          Ensures-preserving_changed skid x
            (λ e. ground (arith, eq_iff skid x.status.previous_skid, other, e)))

  Ensures-reconcile_preserving_old_root :
      Ensures
        (OfStatus c law Preserving)
        (reconcile_preserving_old_root c)
        (λ _. OfStatus c law IsApart)
  unfolding reconcile_preserving_old_root get_pkir
  Ensures-reconcile_preserving_old_root =
      Triple-bind {Q = λ _. OfStatus c law Preserving} _ _
        (Ensures-Keeps (Keeps-within _ _ (Keeps-current_root_skid Preserving-frame)))
        (λ skid.
          Triple-bind {Q = λ x s. OfStatus c law Preserving s × (s.pkir ≡ x)} _ _
            (Triple-gets _ (λ s h. (h, refl))) (Preserving-branches skid))

  Ensures-reconcile_complete :
      Ensures (OfStatus c law (λ _. Unit)) (reconcile_complete c) (λ _. OfStatus c law IsApart)
  unfolding reconcile_complete set_status set_pkir modify
  Ensures-reconcile_complete =
      Triple-bind {Q = λ _. OfStatus c law (λ _. Unit)} _ _
        (Ensures-Keeps (Keeps-within _ _ (Keeps-trim c (λ _. Unit))))
        (λ _.
          Triple-bind {Q = λ _. OfStatus c law (λ _. Unit)} _ _
            (Ensures-Keeps (Keeps-within _ _ (Keeps-clear_reissuance_trigger any_frame)))
            (λ _.
              Triple-bind {Q = λ _. OfStatus c law (λ _. Unit)} _ _
                (record { at = λ s h. (tt, tt) })
                (λ _.
                  Triple-bind {Q = λ _. OfStatus c law (λ _. Unit)} _ _
                    (Ensures-Keeps (Keeps-within _ _ (Keeps-sync_child_skids any_frame)))
                    (λ _.
                      Triple-bind {Q = λ _. OfStatus c law (λ _. Unit)} _ _
                        (Ensures-Keeps (any_frame.keeps_record_event _)) (λ _. enters_idle)))))

  stays_known :
      {m : Action (State W) Requeue}
      → Keeps (OfStatus c law BothKnown) m
      → Ensures (OfStatus c law BothKnown) m (λ _. OfStatus c law IsApart)
  stays_known {m} k =
      Triple-weaken m (λ s h. h) (Ensures-Keeps k) (λ a s. known-IsApart s) (λ s h. tt)

  -- The status of the object that was read, as a state of a handler.
  IsApart-at :
      (p : Phase) (s : State W)
      → s.pkir.status.phase ≡ p
      → IsApart s.pkir.status
      → Outcome
          (λ _. OfStatus c law IsApart)
          (λ _. Unit)
          (reconcile_root c p s).0
          (reconcile_root c p s).1
  unfolding reconcile_root
  IsApart-at unset s e h = enters_idle.at s (tt, tt)
  IsApart-at idle s e h = (Ensures-reconcile_idle c law).at s (e, tt)
  IsApart-at preserving_old_root s e h =
      Ensures-reconcile_preserving_old_root.at s ((e, in_phase s.pkir.status e h), tt)
  IsApart-at dual_trust_active s e h =
      (stays_known (Keeps-reconcile_dual_trust_active known_frame (enters_known _))).at s
        (in_phase s.pkir.status e h, tt)
  IsApart-at awaiting_reissuance s e h =
      (stays_known (Keeps-reconcile_awaiting_reissuance known_frame (enters_known _))).at s
        (in_phase s.pkir.status e h, tt)
  IsApart-at verifying_chain s e h =
      (stays_known (Keeps-reconcile_verifying_chain known_frame (enters_known _))).at s
        (in_phase s.pkir.status e h, tt)
  IsApart-at complete s e h = Ensures-reconcile_complete.at s (tt, tt)
  IsApart-at (other_phase t) s e h = enters_idle.at s (tt, tt)

  -- A reconcile of a root that returns without an error leaves the SKIDs in order, if they were.
  pub reconcile-IsApart :
      (name : String) (s : State W) (pkir : PkiRotation) (w : W) (r : Requeue)
      → c.get_pki_rotation name s.world ≡ (ok pkir, w)
      → is_intermediate_ca pkir.spec.role ≡ false
      → IsApart pkir.status
      → (reconcile c name s).0 ≡ ok r
      → IsApart (reconcile c name s).1.pkir.status
  reconcile-IsApart name s pkir w r e role h done =
      let path = reconcile_read c name s pkir w e ∙ reconcile_pkir-root c pkir _ role in
      subst (λ x. (x.0 ≡ ok r) → IsApart x.1.pkir.status) (sym path)
        (λ fine.
          (outcome_ok (λ _. OfStatus c law IsApart) (λ _. Unit) r _ _
            (IsApart-at pkir.status.phase _ refl h) fine).0)
        done
