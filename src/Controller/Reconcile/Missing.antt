-- ===== src/Controller/Reconcile/Missing.antt =====
-- A reconcile of a rotation that is gone.
use private_pki_operator.Common.{
  ℕ, String, Bool, Option, Bool-cases, inl, inr, true, not, ◌&&◌, ◌≡◌, ◌≢◌, refl, ap, ◌∙◌, none, [],
  ◌∷◌, ◌==◌, eq_iff, if◌then◌else◌, has_name,
}
use private_pki_operator.Action.{Error, ok, err, pure, modify, handle, ◌>>=◌}
use private_pki_operator.Cluster.{Client}
use private_pki_operator.Metrics.{all_phases, forget_phase}
use private_pki_operator.Metrics.Series.{forget_phase-phase}
use private_pki_operator.Controller.State.{State, call}
use private_pki_operator.Controller.Reconcile.{reconcile}

unless_empty :
    (name : String)
    → name ≢ ""
    → (a : Bool) (x y : Option ℕ) → (if not (name == "") && a then x else y) ≡ (if a then x else y)
unless_empty name named a x y = elim (Bool-cases (name == "")) [
  | inl empty ↦ absurd (named ((eq_iff name "").0 empty))
  | inr full ↦ rw full refl
]

module _ {W : Type 0} (c : Client W) where
  reconcile_gone :
      (name : String) (s : State W) (e : Error) (w : W)
      → c.get_pki_rotation name s.world ≡ (err e, w)
      → e.is_not_found ≡ true
      → reconcile c name s ≡ (ok 0, record s { world = w; metrics = forget_phase name s.metrics })
  unfolding reconcile call handle ◌>>=◌ modify pure
  reconcile_gone name s e w h gone = rw (h, gone) refl

  -- When the rotation was deleted, and its name is not empty, the reconcile ends without an error and
  -- without a requeue; the phase gauge has no series left with its name, a role of the enumeration or
  -- the empty role, and a phase of `allPhases`; and all its other series are as before.
  pub reconcile_missing :
      (name : String) (s : State W) (e : Error) (w : W) (n r p : String)
      → c.get_pki_rotation name s.world ≡ (err e, w)
      → e.is_not_found ≡ true
      → name ≢ ""
      → ((reconcile c name s).0 ≡ ok 0)
        × ((reconcile c name s).1.metrics.phase n r p ≡ (
            if n == name
              && has_name r ("RootCA" ∷ "IntermediateCA" ∷ "" ∷ [])
              && has_name p all_phases
            then none
            else s.metrics.phase n r p))
  reconcile_missing name s e w n r p h gone named = (
    ap (λ x. x.0) (reconcile_gone name s e w h gone),
    ap (λ x. x.1.metrics.phase n r p) (reconcile_gone name s e w h gone)
        ∙ forget_phase-phase name s.metrics n r p
        ∙ unless_empty name named _ _ _,
  )
