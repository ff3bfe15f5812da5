-- ===== src/Controller/Conditions/Transition.antt =====
-- transitionTo: the metrics follow the status that the API server stored, and only that.
use private_pki_operator.Common.{ℕ, ◌≡◌, refl}
use private_pki_operator.Action.{Result, ok, err, panic, pure, gets, modify, handle, ◌>>=◌, fail}
use private_pki_operator.Api.{Phase, PkiRotation}
use private_pki_operator.Cluster.{Client}
use private_pki_operator.Metrics.{Metrics, record_phase, record_transition}
use private_pki_operator.Controller.State.{
  State, Requeue, call, now, get_pkir, set_pkir, set_metrics, update_status,
}
use private_pki_operator.Controller.Conditions.{enter_phase, transition_to}

abbrev pub outcome_of : Result PkiRotation → Result Requeue
outcome_of (ok q) = ok 0
outcome_of (err e) = err e
outcome_of (panic t) = panic t

-- The metrics after the write, which had this result.
abbrev pub counted : Phase → Phase → Metrics → Result PkiRotation → Metrics
counted from to m (ok q) = record_phase q (record_transition q from to m)
counted from to m (err e) = m
counted from to m (panic t) = m

module _ {W : Type 0} (c : Client W) where
  -- A phase change reports what the status write reported. The transition is counted and the phase
  -- gauge moved, from the object as stored, if the write succeeded; otherwise no metric changes.
  pub transition_to-metrics :
      (p : Phase) (s : State W) (t : ℕ) (w1 w2 : W) (r : Result PkiRotation)
      → c.now s.world ≡ (t, w1)
      → c.update_status (enter_phase p t s.pkir) w1 ≡ (r, w2)
      → ((transition_to c p s).0 ≡ outcome_of r)
        × ((transition_to c p s).1.metrics ≡ counted s.pkir.status.phase p s.metrics r)
        × ((transition_to c p s).1.world ≡ w2)
  unfolding transition_to now call get_pkir gets set_pkir modify update_status handle ◌>>=◌
      set_metrics pure fail
  transition_to-metrics p s t w1 w2 (ok q) e h = rw (e, h) (refl, refl, refl)
  transition_to-metrics p s t w1 w2 (err x) e h = rw (e, h) (refl, refl, refl)
  transition_to-metrics p s t w1 w2 (panic x) e h = rw (e, h) (refl, refl, refl)
