-- ===== src/Controller/Chain/Complete.antt =====
-- The two directions of what VerifyingChain decides.
use private_pki_operator.Common.{String, Bool, ◌≡◌, ◌↔◌, inl, inr, refl, ap, ◌∙◌, List, none}
use private_pki_operator.Action.{Message, Action, handle, within, ◌>>=◌, modify}
use private_pki_operator.Action.Triple.{Triple, Triple-bind, Triple-after}
use private_pki_operator.Action.Runs.{run_bind, run_within}
use private_pki_operator.Api.{ConditionType, verifying_chain, complete, PkiRotation}
use private_pki_operator.Cluster.{Client, Certificate}
use private_pki_operator.Metrics.{Metrics}
use private_pki_operator.Controller.State.{
  State, Event, call, now, set_pkir, set_status, set_metrics, record_event,
}
use private_pki_operator.Controller.Conditions.{set_condition}
use private_pki_operator.Controller.Certificates.{
  discover_intermediates, discover_namespace_intermediates, discover_leaf_certs, latest_not_before,
}
use private_pki_operator.Controller.VerifyChain.{
  verify_tier1_chain, verify_tier2_chain, verify_leaf_chain,
}
use private_pki_operator.Controller.Cascade.{
  chain_is_verified, verify_leaves, verify_tier2, reconcile_verifying_chain,
}
use private_pki_operator.Controller.Frame.Build.{StoresStatus}
use private_pki_operator.Controller.Frame.Object.{OfObject}
use private_pki_operator.Controller.Wakes.{AtPhase, transition_to-AtPhase}
use private_pki_operator.Controller.Chain.{verify_tier1_chain-Signed}
use private_pki_operator.Controller.Chain.Tiers.{
  verify_tier2_chain-IsFresh, verify_leaf_chain-IsRenewed,
}
use private_pki_operator.Controller.Chain.Verified.{Verified, guard_chain}

module _ {W : Type 0} (c : Client W) (law : StoresStatus c) where
  -- What cannot fail.
  Returns : {A : Type 0} → Action (State W) A → Type 0
  Returns m = Triple (λ _. Unit) m (λ _ _. Unit) (OfObject c (AtPhase c law complete))

  Returns-set_metrics : (f : PkiRotation → Metrics → Metrics) → Returns (set_metrics f)
  unfolding Returns set_metrics modify
  Returns-set_metrics f = record { at = λ s h. tt }

  Returns-record_event : (e : Event) → Returns (record_event e)
  unfolding Returns record_event modify
  Returns-record_event e = record { at = λ s h. tt }

  Returns-set_condition :
      (t : ConditionType) (b : Bool) (r : String) (m : Message) → Returns (set_condition c t b r m)
  unfolding Returns set_condition ◌>>=◌ handle now call set_status set_pkir modify
  Returns-set_condition t b r m = record { at = λ s h. tt }

  chain_is_verified_completes :
      (tier1 tier2 leaves : List Certificate)
      → Triple
          (λ _. Unit)
          (chain_is_verified c tier1 tier2 leaves)
          (λ _. OfObject c (AtPhase c law complete))
          (OfObject c (AtPhase c law complete))
  unfolding chain_is_verified Returns
  chain_is_verified_completes tier1 tier2 leaves =
      Triple-bind {Q = λ _ _. Unit} _ _ (Returns-set_metrics _) (λ _.
        Triple-bind {Q = λ _ _. Unit} _ _ (Returns-set_condition _ _ _ _) (λ _.
          Triple-bind {Q = λ _ _. Unit} _ _ (Returns-record_event _)
            (λ _. transition_to-AtPhase c law complete)))

  Verified-run :
      (s : State W) (v : Verified c s)
      → reconcile_verifying_chain c s ≡ chain_is_verified c v.tier1 v.tier2 v.leaves v.s4
  unfolding reconcile_verifying_chain verify_tier2 verify_leaves
  Verified-run s v =
      let base = latest_not_before v.tier1 in
      run_bind (within _ (discover_intermediates c)) _ s v.s1 v.tier1
        (run_within _ (discover_intermediates c) s v.s1 v.tier1 v.tier1_found)
      ∙ run_bind (verify_tier1_chain c v.tier1) _ v.s1 v.s2 none
          ((verify_tier1_chain-Signed c v.tier1 v.s1 v.s2).1 v.tier1_signed)
      ∙ run_bind (within _ (discover_namespace_intermediates c v.tier1)) _ v.s2 v.s3 v.tier2 (
          run_within _ (discover_namespace_intermediates c v.tier1) v.s2 v.s3 v.tier2 v.tier2_found)
      ∙ run_bind (verify_tier2_chain c base v.tier2) _ v.s3 v.s3 none
          ((verify_tier2_chain-IsFresh c base v.tier2 v.s3 v.s3).1 (refl, v.tier2_fresh))
      ∙ run_bind (within _ (discover_leaf_certs c v.tier1 v.tier2)) _ v.s3 v.s4 v.leaves
          (run_within _ (discover_leaf_certs c v.tier1 v.tier2) v.s3 v.s4 v.leaves v.leaves_found)
      ∙ run_bind (verify_leaf_chain c base v.tier2 v.leaves) _ v.s4 v.s4 none (
          (verify_leaf_chain-IsRenewed c base v.tier2 v.leaves v.s4 v.s4).1
            (refl, v.leaves_renewed))

  guarded :
      (s : State W)
      → s.pkir.status.phase ≡ verifying_chain
      → (reconcile_verifying_chain c s).1.pkir.status.phase ≡ complete
      → Verified c s
  guarded s h e = elim (Triple-after (guard_chain c law s (h, tt)) s refl) [
    | inl (still, _) ↦ absurd cc
    | inr v ↦ v
  ]

  -- If a status update gives back what was sent, a root in VerifyingChain enters Complete, in which
  -- the old root is taken from the trust bundle, just if three lists were found below it, one after
  -- the other, and passed: each cluster intermediate's AKID read as the recorded SKID and not
  -- empty; each namespace intermediate is ready and was issued after the latest cluster
  -- intermediate; and each leaf is ready and was not issued before the last listed namespace
  -- intermediate of its namespace that has an issue time, or before the latest cluster intermediate
  -- if its namespace has none.
  pub reconcile_verifying_chain-Verified :
      (s : State W)
      → s.pkir.status.phase ≡ verifying_chain
      → ((reconcile_verifying_chain c s).1.pkir.status.phase ≡ complete) ↔ Verified c s
  reconcile_verifying_chain-Verified s h = (
    guarded s h,
    λ v.
        ap (λ x. x.1.pkir.status.phase) (Verified-run s v)
        ∙ (Triple-after (chain_is_verified_completes v.tier1 v.tier2 v.leaves) v.s4 tt).0,
  )
