-- ===== src/Controller/Wakes/Roots.antt =====
-- The phases of a root's rotation: pkirotation_phases.go.
use private_pki_operator.Common.{ℕ, String, ◌==◌, not, ◌||◌, ◌≢◌, List, [], ◌∷◌, Option, some}
use private_pki_operator.Action.{Message, Action, ◌>>=◌}
use private_pki_operator.Action.Triple.{
  Ensures, Ensures-nothing, Triple-pure, Triple-fail, Triple-if, Triple-bind, Triple-handle,
}
use private_pki_operator.Api.{
  Phase, unset, idle, preserving_old_root, dual_trust_active, awaiting_reissuance, verifying_chain,
  complete, other_phase,
}
use private_pki_operator.Cluster.{Client, Certificate}
use private_pki_operator.Controller.State.{State, Requeue}
use private_pki_operator.Controller.Certificates.{is_certificate_resource_ready}
use private_pki_operator.Controller.StaleSweep.{sweep_root_children}
use private_pki_operator.Controller.VerifyChain.{
  not_verified, not_verified_warning, secret_unreadable, verify_tier1_chain, verify_tier2_chain,
  verify_leaf_chain, tier2_is_fresh, is_not_before, parent_not_before,
}
use private_pki_operator.Controller.Phases.{
  tend_children, idle_skid_changed, idle_first_run, idle_unchanged, reconcile_idle,
  preserving_unchanged, preserving_changed, reconcile_preserving_old_root, staging_failed,
  trigger_tier1, reconcile_dual_trust_active, reconcile_complete,
}
use private_pki_operator.Controller.Cascade.{
  wait_for_reissuance, finish_reissuance, await_tier2, reconcile_awaiting_reissuance,
  chain_is_verified, verify_leaves, verify_tier2, reconcile_verifying_chain,
}
use private_pki_operator.Controller.Reconcile.{reconcile_root}
use private_pki_operator.Controller.Frame.Build.{StoresStatus}
use private_pki_operator.Controller.Wakes.{
  Woken, Woken-pure, Woken-bind, Woken-stop, Woken-transition_to, wakes_rules,
}

-- A check that stops asks for a requeue after some seconds.
abbrev Delays : {W : Type 0} → Action (State W) (Option Requeue) → Type 0
Delays m = Ensures (λ _. Unit) m (λ o _. o ≢ some 0)

module _ {W : Type 0} (c : Client W) where
  Delays-bind :
      {A : Type 0} (m : Action (State W) A) (f : A → Action (State W) (Option Requeue))
      → ((a : A) → Delays (f a))
      → Delays (m >>= f)
  Delays-bind m f k = Triple-bind m f (Ensures-nothing m) k

  Delays-not_verified :
      (r : String) (m : Message) (n : Requeue) → n ≢ 0 → Delays (not_verified c r m n)
  unfolding not_verified
  Delays-not_verified r m n h =
      Delays-bind _ _ (λ _. Delays-bind _ _ (λ _. Triple-pure _ (λ s _ e. h cc)))

  Delays-not_verified_warning :
      (m : Message) (n : Requeue) → n ≢ 0 → Delays (not_verified_warning c m n)
  unfolding not_verified_warning
  Delays-not_verified_warning m n h =
      Delays-bind _ _
        (λ _. Delays-bind _ _ (λ _. Delays-bind _ _ (λ _. Triple-pure _ (λ s _ e. h cc))))

  Delays-tier1 : (certs : List Certificate) → Delays (verify_tier1_chain c certs)
  unfolding verify_tier1_chain secret_unreadable
  Delays-tier1 [] = Triple-pure _ (λ s _. cc)
  Delays-tier1 (cert ∷ certs) =
      Triple-handle _ _ _ (Ensures-nothing _)
        (λ akid. Delays-bind _ _ (λ pkir.
          Triple-if (akid == "" || not (akid == pkir.status.current_skid)) _ _
            (λ _. Delays-not_verified_warning _ 30 cc) (λ _. Delays-tier1 certs)))
        (λ e. Delays-bind _ _ (λ _. Delays-bind _ _ (λ _. Triple-fail _ (λ s h. h))))

  Delays-tier2 : (base : ℕ) (certs : List Certificate) → Delays (verify_tier2_chain c base certs)
  unfolding verify_tier2_chain
  Delays-tier2 base [] = Triple-pure _ (λ s _. cc)
  Delays-tier2 base (cert ∷ certs) =
      Triple-if (tier2_is_fresh base cert) _ _ (λ _. Delays-tier2 base certs)
        (λ _. Delays-bind _ _ (λ _. Delays-not_verified_warning _ 10 cc))

  Delays-leaves :
      (base : ℕ) (tier2 certs : List Certificate) → Delays (verify_leaf_chain c base tier2 certs)
  unfolding verify_leaf_chain
  Delays-leaves base tier2 [] = Triple-pure _ (λ s _. cc)
  Delays-leaves base tier2 (cert ∷ certs) =
      Triple-if (not (is_certificate_resource_ready cert)) _ _ (λ _. Delays-not_verified _ _ 30 cc)
        (λ _.
          Triple-if (is_not_before (parent_not_before base tier2 cert.namespace) cert.not_before) _
            _ (λ _. Delays-leaves base tier2 certs)
            (λ _. Delays-bind _ _ (λ _. Delays-not_verified _ _ 10 cc)))

module _ {W : Type 0} (c : Client W) (law : StoresStatus c) where
  module _ {before : Phase} where
    Woken-tend_children : Woken before (tend_children c)
    unfolding tend_children sweep_root_children
    Woken-tend_children =
        Woken-bind _ _
          (λ _. Woken-bind _ _ (λ _. Woken-bind _ _ (λ _. Woken-bind _ _ (λ _. Woken-pure _ cc))))

    Woken-idle : preserving_old_root ≢ before → Woken before (reconcile_idle c)
    unfolding reconcile_idle idle_skid_changed idle_first_run idle_unchanged
    Woken-idle n =
        let move = Woken-transition_to c law preserving_old_root n in
        let tend = Woken-tend_children in search wakes_rules depth 30

    Woken-wait : (m : String) → Woken before (wait_for_reissuance c m)
    unfolding wait_for_reissuance
    Woken-wait m =
        Woken-bind _ _ (λ _. Woken-bind _ _ (λ _. Woken-bind _ _ (λ _. Woken-pure 30 cc)))

  Woken-preserving : Woken preserving_old_root (reconcile_preserving_old_root c)
  unfolding reconcile_preserving_old_root preserving_unchanged preserving_changed
  Woken-preserving =
      let back = Woken-transition_to {before = preserving_old_root} c law idle cc in
      let on = Woken-transition_to {before = preserving_old_root} c law dual_trust_active cc in
      let wait = Woken-pure {W = W} {before = preserving_old_root} 10 cc in
      search wakes_rules depth 30

  Woken-dual_trust : Woken dual_trust_active (reconcile_dual_trust_active c)
  unfolding reconcile_dual_trust_active trigger_tier1 staging_failed
  Woken-dual_trust =
      let on = Woken-transition_to {before = dual_trust_active} c law awaiting_reissuance cc in
      search wakes_rules depth 30

  Woken-awaiting : Woken awaiting_reissuance (reconcile_awaiting_reissuance c)
  unfolding reconcile_awaiting_reissuance await_tier2 finish_reissuance
  Woken-awaiting =
      let wait = Woken-wait {before = awaiting_reissuance} in
      let on = Woken-transition_to {before = awaiting_reissuance} c law verifying_chain cc in
      search wakes_rules depth 30

  Woken-verifying : Woken verifying_chain (reconcile_verifying_chain c)
  unfolding reconcile_verifying_chain verify_tier2 verify_leaves chain_is_verified
  Woken-verifying =
      let on = Woken-transition_to {before = verifying_chain} c law complete cc in
      Woken-bind _ _ (λ tier1. Woken-stop _ _ (Delays-tier1 c tier1) (
        Woken-bind _ _ (λ tier2. Woken-stop _ _ (Delays-tier2 c _ tier2) (
          Woken-bind _ _ (λ leaves.
            Woken-stop _ _ (Delays-leaves c _ tier2 leaves) (search wakes_rules depth 30))))))

  Woken-complete : Woken complete (reconcile_complete c)
  unfolding reconcile_complete
  Woken-complete =
      let on = Woken-transition_to {before = complete} c law idle cc in search wakes_rules depth 30

  pub Woken-root : (before : Phase) → Woken before (reconcile_root c before)
  unfolding reconcile_root
  Woken-root unset = Woken-transition_to c law idle cc
  Woken-root idle = Woken-idle cc
  Woken-root preserving_old_root = Woken-preserving
  Woken-root dual_trust_active = Woken-dual_trust
  Woken-root awaiting_reissuance = Woken-awaiting
  Woken-root verifying_chain = Woken-verifying
  Woken-root complete = Woken-complete
  Woken-root (other_phase s) = Woken-transition_to c law idle cc
