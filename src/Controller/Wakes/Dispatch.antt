-- ===== src/Controller/Wakes/Dispatch.antt =====
-- The dispatch of a reconcile, and what calls the controller again after each branch.
use private_pki_operator.Common.{◌≡◌, String, sym, subst, ◌∙◌}
use private_pki_operator.Action.{ok}
use private_pki_operator.Action.Triple.{Outcome}
use private_pki_operator.Api.{PkiRotation}
use private_pki_operator.Cluster.{Client}
use private_pki_operator.Controller.State.{State, Requeue}
use private_pki_operator.Controller.Reconcile.{reconcile, reconcile_pkir, reconcile_read}
use private_pki_operator.Controller.Frame.Build.{StoresStatus}
use private_pki_operator.Controller.Wakes.{Wakes, Woken, Woken-if}
use private_pki_operator.Controller.Wakes.Roots.{Woken-root}
use private_pki_operator.Controller.Wakes.Intermediates.{Woken-intermediate}

module _ {W : Type 0} (c : Client W) (law : StoresStatus c) where
  Woken-pkir : (pkir : PkiRotation) → Woken pkir.status.phase (reconcile_pkir c pkir)
  unfolding reconcile_pkir
  Woken-pkir pkir =
      Woken-if _ _ _ (Woken-intermediate c law pkir.status.phase)
        (Woken-root c law pkir.status.phase)

  returned :
      (pkir : PkiRotation) (s0 : State W) (r : Requeue) (s' : State W)
      → reconcile_pkir c pkir s0 ≡ (ok r, s')
      → Wakes pkir.status.phase r s'
  returned pkir s0 r s' e =
      subst (λ x. Outcome (Wakes pkir.status.phase) (λ _. Unit) x.0 x.1) e
        ((Woken-pkir pkir).at s0 tt)

  -- A reconcile of an object that could be read, when it returns without an error, either asks to be
  -- called again after some seconds or has left the object in another phase than the one read, so
  -- that the status write wakes the controller: no rotation is left waiting for nothing.
  pub reconcile-Wakes :
      (name : String) (s : State W) (pkir : PkiRotation) (w : W) (r : Requeue) (s' : State W)
      → c.get_pki_rotation name s.world ≡ (ok pkir, w)
      → reconcile c name s ≡ (ok r, s')
      → Wakes pkir.status.phase r s'
  reconcile-Wakes name s pkir w r s' h e =
      returned pkir _ r s' (sym (reconcile_read c name s pkir w h) ∙ e)
