-- ===== src/Controller/Graph.antt =====
-- The state machine of a rotation: the edges between its phases, for a root and for an
-- intermediate CA, against the handlers that a reconcile dispatches to.
use private_pki_operator.Common.{
  ℕ, String, Bool, true, false, ◌≡◌, refl, ap, subst, sym, ◌⊎◌, inl, inr,
}
use private_pki_operator.Action.{ok, modify, handle, ◌>>=◌}
use private_pki_operator.Action.Keeps.{Keeps}
use private_pki_operator.Api.{
  Phase, unset, idle, preserving_old_root, dual_trust_active, awaiting_reissuance, verifying_chain,
  complete, other_phase, is_intermediate_ca, PkiRotation,
}
use private_pki_operator.Cluster.{Client}
use private_pki_operator.Controller.State.{State, call, set_pkir, set_metrics}
use private_pki_operator.Controller.Conditions.{enter_phase}
use private_pki_operator.Controller.Intermediate.{reconcile_intermediate}
use private_pki_operator.Controller.Reconcile.{reconcile_root, reconcile_pkir, reconcile}
use private_pki_operator.Controller.Frame.{Frame}
use private_pki_operator.Controller.Frame.Build.{StoresStatus}
use private_pki_operator.Controller.Frame.Object.{OfObject, object_frame, Keeps-trim}
use private_pki_operator.Controller.Frame.Handlers.{
  Keeps-reconcile_idle, Keeps-reconcile_preserving_old_root, Keeps-reconcile_dual_trust_active,
  Keeps-reconcile_awaiting_reissuance, Keeps-reconcile_verifying_chain, Keeps-reconcile_complete,
}
use private_pki_operator.Controller.Frame.Cascades.{
  Keeps-reconcile_idle_intermediate, Keeps-reconcile_awaiting_reissuance_intermediate,
  Keeps-reconcile_verifying_chain_intermediate, Keeps-reconcile_complete_intermediate,
}

-- The edges of a root (false) and of an intermediate CA (true).
pub data Edge : Bool → Phase → Phase → Type 0 where
  -- A root's renewal was seen, in flight or done.
  renewal_seen : Edge false idle preserving_old_root
  -- The renewal kept the key.
  renewal_over : Edge false preserving_old_root idle
  new_root_seen : Edge false preserving_old_root dual_trust_active
  both_roots_staged : Edge false dual_trust_active awaiting_reissuance
  -- An intermediate's key changed.
  key_changed : Edge true idle awaiting_reissuance
  first_seen : Edge true unset awaiting_reissuance
  -- The key changed again during the cascade.
  drifted : Edge true awaiting_reissuance idle
  drifted_late : Edge true verifying_chain idle
  reissued : (b : Bool) → Edge b awaiting_reissuance verifying_chain
  verified : (b : Bool) → Edge b verifying_chain complete
  finished : (b : Bool) → Edge b complete idle
  started : (b : Bool) → Edge b unset idle
  -- Phases that the role does not have.
  recovered : (b : Bool) (s : String) → Edge b (other_phase s) idle
  no_preserving : Edge true preserving_old_root idle
  no_dual_trust : Edge true dual_trust_active idle

abbrev pub Follows : Bool → Phase → Phase → Type 0
Follows b p q = (q ≡ p) ⊎ Edge b p q

-- The phase of the object is `p` or follows it.
abbrev InPhase : Bool → Phase → PkiRotation → Type 0
InPhase b p x = Follows b p x.status.phase

module _ {W : Type 0} (c : Client W) (law : StoresStatus c) where
  graph_frame :
      (b : Bool) (p : Phase)
      → Frame c
          (λ q. (t : ℕ) (x : PkiRotation) → InPhase b p x → InPhase b p (enter_phase q t x))
          (λ f. (x : PkiRotation) → InPhase b p x → InPhase b p (record x { status = f x.status }))
          (OfObject c (InPhase b p))
  graph_frame b p =
      object_frame c law (InPhase b p)
        (λ x y same_status same_spec h. subst (λ q. Follows b p q.phase) (sym same_status) h)
        (λ x g h. h)

  enter :
      (b : Bool) (p q : Phase)
      → Edge b p q
      → (t : ℕ) (x : PkiRotation) → InPhase b p x
      → InPhase b p (enter_phase q t x)
  unfolding enter_phase
  enter b p q e t x h = inr e

  Keeps-reconcile_root : (p : Phase) → Keeps (OfObject c (InPhase false p)) (reconcile_root c p)
  unfolding reconcile_root
  Keeps-reconcile_root unset =
      (graph_frame false unset).keeps_transition_to idle (enter false _ _ (started false))
  Keeps-reconcile_root idle =
      Keeps-reconcile_idle (graph_frame false idle) (enter false _ _ renewal_seen) (λ s x h. h)
        (λ s x h. h) (λ s x h. h)
  Keeps-reconcile_root preserving_old_root =
      Keeps-reconcile_preserving_old_root (graph_frame false preserving_old_root)
        (enter false _ _ renewal_over) (enter false _ _ new_root_seen) (λ x h. h) (λ s x h. h)
  Keeps-reconcile_root dual_trust_active =
      Keeps-reconcile_dual_trust_active (graph_frame false dual_trust_active)
        (enter false _ _ both_roots_staged)
  Keeps-reconcile_root awaiting_reissuance =
      Keeps-reconcile_awaiting_reissuance (graph_frame false awaiting_reissuance)
        (enter false _ _ (reissued false))
  Keeps-reconcile_root verifying_chain =
      Keeps-reconcile_verifying_chain (graph_frame false verifying_chain)
        (enter false _ _ (verified false))
  Keeps-reconcile_root complete =
      Keeps-reconcile_complete (graph_frame false complete) (Keeps-trim c (InPhase false complete))
        (enter false _ _ (finished false)) (λ x h. h)
  Keeps-reconcile_root (other_phase s) =
      (graph_frame false (other_phase s)).keeps_transition_to idle
        (enter false _ _ (recovered false s))

  Keeps-reconcile_intermediate :
      (p : Phase) → Keeps (OfObject c (InPhase true p)) (reconcile_intermediate c p)
  unfolding reconcile_intermediate
  Keeps-reconcile_intermediate unset =
      Keeps-reconcile_idle_intermediate (graph_frame true unset) (enter true _ _ first_seen)
        (λ x h. inr (started true)) (λ s x h. h) (λ s x h. inr (started true))
  Keeps-reconcile_intermediate idle =
      Keeps-reconcile_idle_intermediate (graph_frame true idle) (enter true _ _ key_changed)
        (λ x h. inl refl) (λ s x h. h) (λ s x h. inl refl)
  Keeps-reconcile_intermediate preserving_old_root =
      (graph_frame true preserving_old_root).keeps_transition_to idle (enter true _ _ no_preserving)
  Keeps-reconcile_intermediate dual_trust_active =
      (graph_frame true dual_trust_active).keeps_transition_to idle (enter true _ _ no_dual_trust)
  Keeps-reconcile_intermediate awaiting_reissuance =
      Keeps-reconcile_awaiting_reissuance_intermediate (graph_frame true awaiting_reissuance)
        (enter true _ _ (reissued true)) (enter true _ _ drifted)
  Keeps-reconcile_intermediate verifying_chain =
      Keeps-reconcile_verifying_chain_intermediate (graph_frame true verifying_chain)
        (enter true _ _ (verified true)) (enter true _ _ drifted_late)
  Keeps-reconcile_intermediate complete =
      Keeps-reconcile_complete_intermediate (graph_frame true complete)
        (enter true _ _ (finished true)) (λ x h. h)
  Keeps-reconcile_intermediate (other_phase s) =
      (graph_frame true (other_phase s)).keeps_transition_to idle
        (enter true _ _ (recovered true s))

module _ {W : Type 0} (c : Client W) (law : StoresStatus c) where
  Follows-object :
      (pkir : PkiRotation) (s : State W)
      → s.pkir ≡ pkir
      → (b : Bool) → is_intermediate_ca pkir.spec.role ≡ b
      → Follows b pkir.status.phase (reconcile_pkir c pkir s).1.pkir.status.phase
  unfolding reconcile_pkir
  Follows-object pkir s e true h = rw h (
      ((Keeps-reconcile_intermediate c law pkir.status.phase).at s
        (inl (ap (λ p. p.status.phase) e), tt)).0)
  Follows-object pkir s e false h = rw h (
      ((Keeps-reconcile_root c law pkir.status.phase).at s
        (inl (ap (λ p. p.status.phase) e), tt)).0)

  -- However a reconcile of an object that could be read ends, the object's phase is the one that was
  -- read or one edge further in the graph of its role.
  pub reconcile-Follows :
      (name : String) (s : State W) (pkir : PkiRotation) (w : W)
      → c.get_pki_rotation name s.world ≡ (ok pkir, w)
      → Follows
          (is_intermediate_ca pkir.spec.role)
          pkir.status.phase
          (reconcile c name s).1.pkir.status.phase
  unfolding reconcile handle ◌>>=◌ call set_pkir set_metrics modify
  reconcile-Follows name s pkir w e = rw e (Follows-object pkir _ refl _ refl)
