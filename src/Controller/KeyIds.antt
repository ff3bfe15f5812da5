-- ===== src/Controller/KeyIds.antt =====
-- The two key identifiers in a root's status: from the phase in which the new root is seen until the
-- old one is trimmed they are there and differ.
pub mod Rotation
use private_pki_operator.Common.{
  ℕ, String, Bool, true, false, ◌≡◌, ◌≢◌, refl, sym, ap, subst, ◌∙◌, List, [], ◌∷◌, none, not, ◌&&◌,
  ◌==◌, eq_iff, arith, if◌then◌else◌,
}
use private_pki_operator.Action.{ok, Action, pure, modify, handle, ◌>>=◌, within}
use private_pki_operator.Action.Keeps.{Keeps, Keeps-within, Keeps-bind, Keeps-pure}
use private_pki_operator.Action.Triple.{
  Triple, Outcome, Triple-weaken, Triple-gets, Triple-if, Triple-within, Triple-bind, Ensures,
  Ensures-Keeps,
}
use private_pki_operator.Api.{
  Phase, Status, Condition, unset, idle, preserving_old_root, dual_trust_active,
  awaiting_reissuance, verifying_chain, complete, other_phase, is_intermediate_ca, PkiRotation,
}
use private_pki_operator.Cluster.{Client}
use private_pki_operator.Metrics.{record_phase, record_transition}
use private_pki_operator.Controller.State.{
  State, Requeue, call, now, get_pkir, set_pkir, set_status, set_metrics, update_status,
}
use private_pki_operator.Controller.Conditions.{transition_to, enter_phase}
use private_pki_operator.Controller.Phases.{
  idle_skid_changed, idle_first_run, idle_unchanged, reconcile_idle, preserving_unchanged,
  preserving_changed, reconcile_preserving_old_root, reconcile_complete,
}
use private_pki_operator.Controller.Frame.{Frame}
use private_pki_operator.Controller.Frame.Reads.{
  Keeps-ensure_staging_config_map, Keeps-ensure_bundle, Keeps-current_root_skid,
  Keeps-clear_reissuance_trigger,
}
use private_pki_operator.Controller.Frame.Intermediates.{Keeps-sync_child_skids}
use private_pki_operator.Controller.Frame.Handlers.{
  Keeps-has_active, Keeps-tend_children, Keeps-idle_first_run, Keeps-reconcile_dual_trust_active,
  Keeps-reconcile_awaiting_reissuance, Keeps-reconcile_verifying_chain,
}
use private_pki_operator.Controller.Frame.Build.{StoresStatus}
use private_pki_operator.Controller.Frame.Object.{OfObject, object_frame, Keeps-trim}

-- What the phase asks of the previous and the current SKID.
abbrev pub ApartIn : Phase → String → String → Type 0
ApartIn preserving_old_root previous current = previous ≢ ""
ApartIn dual_trust_active previous current = (previous ≢ "") × (previous ≢ current)
ApartIn awaiting_reissuance previous current = (previous ≢ "") × (previous ≢ current)
ApartIn verifying_chain previous current = (previous ≢ "") × (previous ≢ current)
ApartIn complete previous current = (previous ≢ "") × (previous ≢ current)
ApartIn _ previous current = Unit

abbrev pub IsApart : Status → Type 0
IsApart s = ApartIn s.phase s.previous_skid s.current_skid

-- Both SKIDs are there and differ: then the phase may be any.
abbrev pub BothKnown : Status → Type 0
BothKnown s = (s.previous_skid ≢ "") × (s.previous_skid ≢ s.current_skid)

pub BothKnown→apart : (p : Phase) (a b : String) → a ≢ "" → a ≢ b → ApartIn p a b
BothKnown→apart unset a b h k = tt
BothKnown→apart idle a b h k = tt
BothKnown→apart preserving_old_root a b h k = h
BothKnown→apart dual_trust_active a b h k = (h, k)
BothKnown→apart awaiting_reissuance a b h k = (h, k)
BothKnown→apart verifying_chain a b h k = (h, k)
BothKnown→apart complete a b h k = (h, k)
BothKnown→apart (other_phase s) a b h k = tt

changed_known :
    (current skid : String) → (not (current == "") && not (current == skid)) ≡ true → current ≢ ""
changed_known current skid h e = ground (arith, eq_iff current "", h, e)

same_known :
    (current skid : String)
    → (not (current == "") && not (current == skid)) ≡ false
    → (current == "") ≡ false
    → skid ≢ ""
same_known current skid h k e = ground (arith, eq_iff current skid, eq_iff current "", h, k, e)

module _ {W : Type 0} (c : Client W) (law : StoresStatus c) where
  -- Closed under what leaves the status and the specification alone.
  abbrev pub OfStatus : (Status → Type 0) → State W → Type 0
  OfStatus R = OfObject c (λ x. R x.status)

  pub status_frame :
      (R : Status → Type 0)
      → ((s : Status) (g : List Condition → List Condition)
          → R s
          → R (record s { conditions = g s.conditions }))
      → Frame c
          (λ p. (t : ℕ) (x : PkiRotation) → R x.status → R (enter_phase p t x).status)
          (λ f. (x : PkiRotation) → R x.status → R (f x.status))
          (OfStatus R)
  status_frame R conditions_at =
      object_frame c law (λ x. R x.status) (λ p q e _ h. subst R (sym e) h)
        (λ p g h. conditions_at p.status g h)

  -- What holds of the status after a phase change.
  pub Ensures-transition_to :
      {Q Q' : Phase → Type 0} {U U' : (Status → Status) → Type 0} (R R' : Status → Type 0)
      → Frame c Q U (OfStatus R)
      → Frame c Q' U' (OfStatus R')
      → (p : Phase) → ((t : ℕ) (x : PkiRotation) → R x.status → R' (enter_phase p t x).status)
      → Ensures (OfStatus R) (transition_to c p) (λ _. OfStatus R')
  unfolding transition_to get_pkir set_pkir modify
  Ensures-transition_to R R' F F' p k =
      Triple-bind {Q = λ _. OfStatus R} _ _ (Ensures-Keeps F.keeps_now) (λ t.
        Triple-bind {Q = λ _. OfStatus R} _ _ (Triple-gets _ (λ s h. h)) (λ x.
          Triple-bind {Q = λ _. OfStatus R'} _ _ (record { at = λ s h. (k t s.pkir h.0, tt) })
            (λ _. Ensures-Keeps (
              Keeps-bind _ _ F'.keeps_update_status (λ _.
                Keeps-bind _ _ (F'.keeps_set_metrics _)
                  (λ _. Keeps-bind _ _ (F'.keeps_set_metrics record_phase) (λ _. Keeps-pure 0)))))))

  pub IsApart-frame :
      Frame c
        (λ p. (t : ℕ) (x : PkiRotation) → IsApart x.status → IsApart (enter_phase p t x).status)
        (λ f. (x : PkiRotation) → IsApart x.status → IsApart (f x.status))
        (OfStatus IsApart)
  IsApart-frame = status_frame IsApart (λ s g h. h)

  abbrev AtIdle : Status → Type 0
  AtIdle s = s.phase ≡ idle

  idle_frame :
      Frame c
        (λ p. (t : ℕ) (x : PkiRotation) → AtIdle x.status → AtIdle (enter_phase p t x).status)
        (λ f. (x : PkiRotation) → AtIdle x.status → AtIdle (f x.status))
        (OfStatus AtIdle)
  idle_frame = status_frame AtIdle (λ s g h. h)

  idle-IsApart : (s : State W) → OfStatus AtIdle s → OfStatus IsApart s
  idle-IsApart s h = (
    subst (λ p. ApartIn p s.pkir.status.previous_skid s.pkir.status.current_skid) (sym h.0) tt,
    tt,
  )

  stays_idle :
      {m : Action (State W) Requeue}
      → Keeps (OfStatus AtIdle) m
      → Ensures (OfStatus AtIdle) m (λ _. OfStatus IsApart)
  stays_idle {m} k =
      Triple-weaken m (λ s h. h) (Ensures-Keeps k) (λ a s. idle-IsApart s) (λ s h. tt)

  enters_preserving :
      (f : Status → Status) (s : State W)
      → (f s.pkir.status).previous_skid ≢ ""
      → Outcome
          (λ _. OfStatus IsApart)
          (λ _. Unit)
          ((set_status f >>= λ _. transition_to c preserving_old_root) s).0
          ((set_status f >>= λ _. transition_to c preserving_old_root) s).1
  unfolding set_status set_pkir modify enter_phase
  enters_preserving f s h =
      (Triple-bind {P = λ x. x ≡ s} {Q = λ _. OfStatus (λ x. x.previous_skid ≢ "")} _ _
          (record { at = λ x e. (subst (λ y. (f y.pkir.status).previous_skid ≢ "") (sym e) h, tt) })
          (λ _.
            Ensures-transition_to (λ x. x.previous_skid ≢ "") IsApart
              (status_frame (λ x. x.previous_skid ≢ "") (λ x g k. k)) IsApart-frame
              preserving_old_root (λ t x k. k))).at
        s refl

  Ensures-idle_unchanged :
      (skid : String)
      → skid ≢ ""
      → Ensures (OfStatus AtIdle) (idle_unchanged c skid) (λ _. OfStatus IsApart)
  unfolding idle_unchanged
  Ensures-idle_unchanged skid known =
      Triple-bind {Q = λ _. OfStatus AtIdle} _ _
        (Triple-within _ _ (Ensures-Keeps (Keeps-has_active idle_frame)))
        (λ active.
          Triple-if active _ _
            (λ _. record {
              at = λ s h. enters_preserving (λ x. record x { previous_skid = skid }) s known;
            })
            (λ _. stays_idle (Keeps-tend_children idle_frame)))

  idle_branches :
      (skid : String) (x : PkiRotation)
      → Ensures
          (λ s. OfStatus AtIdle s × (s.pkir ≡ x))
          (if not (x.status.current_skid == "") && not (x.status.current_skid == skid)
            then idle_skid_changed c skid
            else if x.status.current_skid == ""
            then idle_first_run c skid
            else idle_unchanged c skid)
          (λ _. OfStatus IsApart)
  unfolding idle_skid_changed
  idle_branches skid x =
      Triple-if (not (x.status.current_skid == "") && not (x.status.current_skid == skid)) _ _
        (λ changed. record {
          at = λ s h. enters_preserving _ s (λ e.
              changed_known x.status.current_skid skid changed
                (ap (λ p. p.status.current_skid) (sym h.1) ∙ e));
        })
        (λ same.
          Triple-if (x.status.current_skid == "") _ _
            (λ first. record {
              at = λ s h. (stays_idle (Keeps-idle_first_run idle_frame (λ k y e. e) skid)).at s h.0;
            })
            (λ later. record {
              at = λ s h.
                  (Ensures-idle_unchanged skid
                      (same_known x.status.current_skid skid same later)).at
                    s h.0;
            }))

  pub Ensures-reconcile_idle : Ensures (OfStatus AtIdle) (reconcile_idle c) (λ _. OfStatus IsApart)
  unfolding reconcile_idle get_pkir
  Ensures-reconcile_idle =
      Triple-bind {Q = λ _. OfStatus AtIdle} _ _
        (Ensures-Keeps (Keeps-within _ _ (Keeps-ensure_staging_config_map idle_frame)))
        (λ _.
          Triple-bind {Q = λ _. OfStatus AtIdle} _ _
            (Ensures-Keeps (Keeps-within _ _ (Keeps-ensure_bundle idle_frame)))
            (λ _.
              Triple-bind {Q = λ _. OfStatus AtIdle} _ _
                (Ensures-Keeps (Keeps-within _ _ (Keeps-current_root_skid idle_frame)))
                (λ skid.
                  Triple-bind {Q = λ x s. OfStatus AtIdle s × (s.pkir ≡ x)} _ _
                    (Triple-gets _ (λ s h. (h, refl))) (idle_branches skid))))
