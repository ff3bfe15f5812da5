-- ===== src/Controller/Frame/Phases.antt =====
-- The frame of the predicates that a phase has not been entered.
use private_pki_operator.Common.{ℕ, ◌≢◌, sym, ap, ◌∙◌}
use private_pki_operator.Api.{Phase, PkiRotation}
use private_pki_operator.Cluster.{Client}
use private_pki_operator.Controller.Conditions.{enter_phase}
use private_pki_operator.Controller.Frame.{Frame}
use private_pki_operator.Controller.Frame.Build.{StoresStatus}
use private_pki_operator.Controller.Frame.Object.{OfObject, object_frame}

abbrev pub IsNot : Phase → PkiRotation → Type 0
IsNot p x = x.status.phase ≢ p

pub IsNot-frame :
    {W : Type 0} (c : Client W) (law : StoresStatus c) (phase : Phase)
    → Frame c
        (λ p. (t : ℕ) (x : PkiRotation) → IsNot phase x → IsNot phase (enter_phase p t x))
        (λ f. (x : PkiRotation) → IsNot phase x → IsNot phase (record x { status = f x.status }))
        (OfObject c (IsNot phase))
IsNot-frame c law phase =
    object_frame c law (IsNot phase) (λ p q e _ h h'. h (sym (ap (λ s. s.phase) e) ∙ h'))
      (λ p g h. h)
