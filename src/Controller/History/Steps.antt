-- ===== src/Controller/History/Steps.antt =====
-- What one reconcile shows that takes a root along an edge of its graph.
use private_pki_operator.Common.{◌≡◌, sym, ap, ◌∙◌, subst, false}
use private_pki_operator.Api.{
  Phase, idle, preserving_old_root, dual_trust_active, awaiting_reissuance, verifying_chain,
  complete, is_intermediate_ca,
}
use private_pki_operator.Cluster.{Client}
use private_pki_operator.Controller.Reconcile.{reconcile_root, reconcile_read, reconcile_pkir-root}
use private_pki_operator.Controller.Frame.Build.{StoresStatus}
use private_pki_operator.Controller.Graph.{Follows, reconcile-Follows}
use private_pki_operator.Controller.Renewal.{RenewalSeen, reconcile_idle-RenewalSeen}
use private_pki_operator.Controller.Renewal.NewRoot.{
  NewRootSeen, reconcile_preserving_old_root-NewRootSeen,
}
use private_pki_operator.Controller.Retention.BothRoots.{
  BothStaged, reconcile_dual_trust_active-BothStaged,
}
use private_pki_operator.Controller.Chain.Awaited.{Awaited, reconcile_awaiting_reissuance-Awaited}
use private_pki_operator.Controller.Chain.Verified.{Verified}
use private_pki_operator.Controller.Chain.Complete.{reconcile_verifying_chain-Verified}
use private_pki_operator.Controller.History.{Reconciles, state_read}

module _ {W : Type 0} (c : Client W) (law : StoresStatus c) where
  pub Reconciles-Follows : {p q : Phase} → Reconciles c p q → Follows false p q
  Reconciles-Follows {p} {q} r =
      subst (λ b. Follows b p q) r.role
        (subst (λ x. Follows (is_intermediate_ca r.pkir.spec.role) x q) r.found
          (subst (Follows (is_intermediate_ca r.pkir.spec.role) r.pkir.status.phase) r.left
            (reconcile-Follows c law r.name r.before r.pkir r.world r.read)))

  -- The reconcile is the handler of the phase that it read.
  pub dispatched :
      {p q : Phase} (r : Reconciles c p q)
      → (reconcile_root c p (state_read c r)).1.pkir.status.phase ≡ q
  dispatched r =
      ap (λ p. (reconcile_root c p (state_read c r)).1.pkir.status.phase) (sym r.found)
      ∙ ap (λ x. x.1.pkir.status.phase)
          (sym (
            reconcile_read c r.name r.before r.pkir r.world r.read
            ∙ reconcile_pkir-root c r.pkir (state_read c r) r.role))
      ∙ r.left

  pub step-RenewalSeen :
      (r : Reconciles c idle preserving_old_root) → RenewalSeen c (state_read c r)
  unfolding reconcile_root
  step-RenewalSeen r =
      reconcile_idle-RenewalSeen c law (state_read c r) (λ e. cc (sym r.found ∙ e)) (dispatched r)

  pub step-NewRootSeen :
      (r : Reconciles c preserving_old_root dual_trust_active) → NewRootSeen c (state_read c r)
  unfolding reconcile_root
  step-NewRootSeen r =
      reconcile_preserving_old_root-NewRootSeen c law (state_read c r) (λ e. cc (sym r.found ∙ e))
        (dispatched r)

  pub step-BothStaged :
      (r : Reconciles c dual_trust_active awaiting_reissuance) → BothStaged c (state_read c r)
  unfolding reconcile_root
  step-BothStaged r =
      reconcile_dual_trust_active-BothStaged c law (state_read c r) (λ e. cc (sym r.found ∙ e))
        (dispatched r)

  pub step-Awaited :
      (r : Reconciles c awaiting_reissuance verifying_chain) → Awaited c (state_read c r)
  unfolding reconcile_root
  step-Awaited r =
      reconcile_awaiting_reissuance-Awaited c law (state_read c r) (λ e. cc (sym r.found ∙ e))
        (dispatched r)

  pub step-Verified : (r : Reconciles c verifying_chain complete) → Verified c (state_read c r)
  unfolding reconcile_root
  step-Verified r =
      (reconcile_verifying_chain-Verified c law (state_read c r) r.found).0 (dispatched r)
