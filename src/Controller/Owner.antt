-- ===== src/Controller/Owner.antt =====
-- isOwnerRootCAIdle: what it found of an intermediate's owner.
pub mod Start
use private_pki_operator.Common.{
  ℕ, String, Bool, true, false, ◌≡◌, ◌≢◌, ◌⊎◌, refl, inl, inr, sym, ap, ◌∙◌, subst, List, [], ◌∷◌,
  ◌==◌, eq_iff, arith, if◌then◌else◌,
}
use private_pki_operator.Action.{
  Message, text, errorf, fail, ok, Action, within, pure, gets, handle, ◌>>=◌, ◌>>◌,
}
use private_pki_operator.Action.Keeps.{Keeps-within, Keeps-bind}
use private_pki_operator.Action.Triple.{
  Triple, Triple-gets, Triple-fail, Triple-weaken, Triple-bind, Triple-if, Triple-from,
  Triple-after,
}
use private_pki_operator.Action.Runs.{pure_ok, within_ok, bind_ok}
use private_pki_operator.Action.Guard.{Guarded, Guarded-run, Guarded-Keeps, Guarded-reached}
use private_pki_operator.Api.{
  Phase, unset, idle, awaiting_reissuance, PkiRotation, OwnerReference, other_phase,
  verifying_chain, complete, preserving_old_root, dual_trust_active,
}
use private_pki_operator.Cluster.{Client}
use private_pki_operator.Controller.State.{State, Requeue, call, get_pkir, set_status}
use private_pki_operator.Controller.Conditions.{enter_phase, transition_to}
use private_pki_operator.Controller.EnsureIntermediates.{pkirotation_kind, intermediate_skid}
use private_pki_operator.Controller.StaleSweep.{sweep_intermediate_children}
use private_pki_operator.Controller.Intermediate.{
  is_idle, is_missing, intermediate_first_run, normalise_phase, owner_is_idle,
  is_owner_root_ca_idle, yield_to_owner, intermediate_skid_changed, reconcile_idle_intermediate,
}
use private_pki_operator.Controller.Frame.{Frame}
use private_pki_operator.Controller.Frame.Build.{StoresStatus}
use private_pki_operator.Controller.Frame.Object.{OfObject, object_frame}
use private_pki_operator.Controller.Frame.Intermediates.{
  Keeps-intermediate_skid, Keeps-sweep_intermediate_children,
}
use private_pki_operator.Controller.Frame.Cascades.{
  Keeps-is_owner_root_ca_idle, Keeps-intermediate_first_run, Keeps-normalise_phase,
  Keeps-yield_to_owner,
}

abbrev pub IsResting : Phase → Type 0
IsResting p = (p ≡ unset) ⊎ (p ≡ idle)

-- The first owner that is a PKIRotation, if there is one, is in no rotation.
pub data OwnerRests {W : Type 0} (c : Client W)
    : List OwnerReference → State W → State W → Type 0 where
  no_owner : {s : State W} → OwnerRests c [] s s
  skip :
      {ref : OwnerReference} {refs : List OwnerReference} {s s' : State W}
      → ref.kind ≢ pkirotation_kind
      → OwnerRests c refs s s'
      → OwnerRests c (ref ∷ refs) s s'
  rests :
      {ref : OwnerReference} {refs : List OwnerReference} {s s' : State W} (owner : PkiRotation)
      → ref.kind ≡ pkirotation_kind
      → call (c.get_pki_rotation ref.name) s ≡ (ok owner, s')
      → IsResting owner.status.phase
      → OwnerRests c (ref ∷ refs) s s'

is_idle-IsResting : (p : Phase) → is_idle p ≡ true → IsResting p
is_idle-IsResting unset e = inl refl
is_idle-IsResting idle e = inr refl
is_idle-IsResting preserving_old_root e = absurd cc
is_idle-IsResting dual_trust_active e = absurd cc
is_idle-IsResting awaiting_reissuance e = absurd cc
is_idle-IsResting verifying_chain e = absurd cc
is_idle-IsResting complete e = absurd cc
is_idle-IsResting (other_phase t) e = absurd cc

-- The key changed from a known one, and the owner was found at rest.
pub record StartsCascade {W : Type 0} (c : Client W) (s : State W) : Type 0 where
  pub live : String
  pub s1 : State W
  pub live_read : intermediate_skid c s.pkir s ≡ (ok live, s1)
  pub was_known : s.pkir.status.current_skid ≢ ""
  pub has_changed : s.pkir.status.current_skid ≢ live
  pub s2 : State W
  pub owner_rests : OwnerRests c s1.pkir.owner_references s1 s2

module _ {W : Type 0} (c : Client W) where
  owner_if :
      (t : Message) (ref : OwnerReference) (refs : List OwnerReference) (s s' : State W) (b : Bool)
      → (ref.kind == pkirotation_kind) ≡ b
      → (owner_is_idle c refs s ≡ (ok true, s') → OwnerRests c refs s s')
      → (if b
            then (within t (call (c.get_pki_rotation ref.name)) >>= λ owner.
                pure (is_idle owner.status.phase))
            else owner_is_idle c refs)
          s
        ≡ (ok true, s')
      → OwnerRests c (ref ∷ refs) s s'
  owner_if t ref refs s s' true same rest e =
      let (owner, s1, run, done) = bind_ok _ _ s true s' e in
      let (at_rest, end) = pure_ok _ true s1 s' done in
      rests owner ((eq_iff ref.kind pkirotation_kind).0 same)
        (within_ok _ _ s s' owner (run ∙ ap (λ x. (ok owner, x)) end))
        (is_idle-IsResting owner.status.phase at_rest)
  owner_if t ref refs s s' false same rest e =
      skip (λ k. ground (arith, eq_iff ref.kind pkirotation_kind, same, k)) (rest e)

  pub owner_is_idle-OwnerRests :
      (refs : List OwnerReference) (s s' : State W)
      → owner_is_idle c refs s ≡ (ok true, s')
      → OwnerRests c refs s s'
  unfolding owner_is_idle
  owner_is_idle-OwnerRests [] s s' e =
      subst (λ x. OwnerRests c [] s x) (pure_ok true true s s' e).1 no_owner
  owner_is_idle-OwnerRests (ref ∷ refs) s s' e =
      owner_if _ ref refs s s' (ref.kind == pkirotation_kind) refl
        (owner_is_idle-OwnerRests refs s s') e

  pub owners_run :
      (s s' : State W)
      → is_owner_root_ca_idle c s ≡ (ok true, s')
      → owner_is_idle c s.pkir.owner_references s ≡ (ok true, s')
  unfolding is_owner_root_ca_idle get_pkir gets ◌>>=◌ handle
  owners_run s s' e = e
