-- ===== src/Controller/Wakes.antt =====
-- What calls the controller again after a reconcile: the requeue that it asks for, or the watch of the
-- rotations, which sees a phase change.
pub mod Roots
pub mod Intermediates
pub mod Dispatch
pub mod Tests
use private_pki_operator.Common.{
  ℕ, ◌≡◌, ◌≢◌, ◌⊎◌, inl, inr, refl, ap, sym, ◌∙◌, Bool, true, false, if◌then◌else◌, Option, none,
  some,
}
use private_pki_operator.Action.{
  Error, Message, Action, pure, fail, within, handle, ◌>>=◌, modify, gets, on_option,
}
use private_pki_operator.Action.Keeps.{Keeps-bind, Keeps-pure}
use private_pki_operator.Action.Triple.{
  Triple, Ensures, Ensures-nothing, Triple-pure, Triple-fail, Triple-if, Triple-bind, Triple-handle,
  Triple-Keeps, Triple-weaken, Triple-option,
}
use private_pki_operator.Api.{Phase, PkiRotation}
use private_pki_operator.Cluster.{Client}
use private_pki_operator.Metrics.{record_phase}
use private_pki_operator.Controller.State.{State, Requeue, call, now, get_pkir, set_pkir}
use private_pki_operator.Controller.Conditions.{transition_to, enter_phase}
use private_pki_operator.Controller.Frame.{Frame}
use private_pki_operator.Controller.Frame.Build.{StoresStatus}
use private_pki_operator.Controller.Frame.Object.{OfObject, object_frame}

module _ {W : Type 0} (c : Client W) (law : StoresStatus c) (phase : Phase) where
  abbrev pub AtPhase : PkiRotation → Type 0
  AtPhase x = x.status.phase ≡ phase

  phase_frame :
      Frame c
        (λ p. (t : ℕ) (x : PkiRotation) → AtPhase x → AtPhase (enter_phase p t x))
        (λ f. (x : PkiRotation) → AtPhase x → AtPhase (record x { status = f x.status }))
        (OfObject c AtPhase)
  phase_frame = object_frame c law AtPhase (λ p q e _ h. ap (λ s. s.phase) e ∙ h) (λ p g h. h)

  -- The phase is set before anything of a phase change can fail.
  pub transition_to-AtPhase :
      Triple (λ _. Unit) (transition_to c phase) (λ _. OfObject c AtPhase) (OfObject c AtPhase)
  unfolding transition_to now call get_pkir gets set_pkir modify enter_phase
  transition_to-AtPhase =
      Triple-bind {Q = λ _ _. Unit} _ _ (record { at = λ s h. tt })
        (λ t.
          Triple-bind {Q = λ _ _. Unit} _ _ (record { at = λ s h. tt })
            (λ x.
              Triple-bind {Q = λ _. OfObject c AtPhase} _ _ (record { at = λ s h. (refl, tt) })
                (λ _. Triple-Keeps (
                  Keeps-bind _ _ phase_frame.keeps_update_status (λ _.
                    Keeps-bind _ _ (phase_frame.keeps_set_metrics _) (λ _.
                      Keeps-bind _ _ (phase_frame.keeps_set_metrics record_phase)
                        (λ _. Keeps-pure 0)))))))

-- What a reconcile of an object of the phase returns: a time to wait, or the phase has changed.
abbrev pub Wakes : {W : Type 0} → Phase → Requeue → State W → Type 0
Wakes before r s = (r ≢ 0) ⊎ (s.pkir.status.phase ≢ before)

-- Whenever the handler returns, something wakes the controller.
abbrev pub Woken : {W : Type 0} → Phase → Action (State W) Requeue → Type 0
Woken before m = Ensures (λ _. Unit) m (Wakes before)

other_phase_now : (p q x : Phase) → x ≡ p → p ≢ q → x ≢ q
other_phase_now p q x e n h = n (sym e ∙ h)

module _ {W : Type 0} {before : Phase} where
  pub Woken-pure : (r : Requeue) → r ≢ 0 → Woken {W = W} before (pure r)
  Woken-pure r n = Triple-pure r (λ s h. inl n)

  pub Woken-fail : (e : Error) → Woken {W = W} before (fail e)
  Woken-fail e = Triple-fail e (λ s h. h)

  pub Woken-if :
      (b : Bool) (m n : Action (State W) Requeue)
      → Woken before m
      → Woken before n
      → Woken before (if b then m else n)
  Woken-if b m n km kn = Triple-if b m n (λ _. km) (λ _. kn)

  pub Woken-bind :
      {A : Type 0} (m : Action (State W) A) (f : A → Action (State W) Requeue)
      → ((a : A) → Woken before (f a))
      → Woken before (m >>= f)
  Woken-bind m f k = Triple-bind m f (Ensures-nothing m) k

  pub Woken-handle :
      {A : Type 0} (m : Action (State W) A) (f : A → Action (State W) Requeue)
      (g : Error → Action (State W) Requeue)
      → ((a : A) → Woken before (f a))
      → ((e : Error) → Woken before (g e))
      → Woken before (handle m f g)
  Woken-handle m f g kf kg = Triple-handle m f g (Ensures-nothing m) kf kg

  -- The check before it gives the requeue, if it stops.
  pub Woken-stop :
      (m : Action (State W) (Option Requeue)) (n : Action (State W) Requeue)
      → Ensures (λ _. Unit) m (λ o _. o ≢ some 0)
      → Woken before n
      → Woken before (m >>= λ stop. on_option stop n pure)
  Woken-stop m n km kn = Triple-bind m _ km (λ stop. stopped stop)
    where
      differs : (r : Requeue) → some r ≢ some 0 → r ≢ 0
      differs r k e = k (ap some e)

      stopped :
          (stop : Option Requeue)
          → Ensures (λ _. stop ≢ some 0) (on_option stop n pure) (Wakes before)
      stopped none = Triple-weaken n (λ s h. tt) kn (λ a s h. h) (λ s h. h)
      stopped (some r) = Triple-pure r (λ s h. inl (differs r h))

  pub Woken-transition_to :
      (c : Client W) → StoresStatus c → (p : Phase) → p ≢ before → Woken before (transition_to c p)
  Woken-transition_to c law p n =
      Triple-weaken _ (λ s h. h) (transition_to-AtPhase c law p)
        (λ r s (e, _). inr (other_phase_now p before s.pkir.status.phase e n)) (λ s h. tt)

pub ruleset wakes_rules = (Woken-fail, Woken-if, Woken-bind, Woken-handle)
