-- ===== src/Controller/Chain/Verified.antt =====
-- reconcileVerifyingChain: the three lists that are checked before a root enters Complete.
use private_pki_operator.Common.{ℕ, ◌≡◌, ap, ◌∙◌, List, All}
use private_pki_operator.Action.{ok}
use private_pki_operator.Action.Keeps.{Keeps-within}
use private_pki_operator.Action.Triple.{
  Triple, Triple-weaken, Triple-bind, Triple-option, Triple-from,
}
use private_pki_operator.Action.Runs.{within_ok}
use private_pki_operator.Action.Guard.{Guarded, Guarded-run, Guarded-pure, Guarded-reached}
use private_pki_operator.Api.{verifying_chain, PkiRotation}
use private_pki_operator.Cluster.{Client, Certificate}
use private_pki_operator.Controller.State.{State}
use private_pki_operator.Controller.Certificates.{
  discover_intermediates, discover_namespace_intermediates, discover_leaf_certs, latest_not_before,
}
use private_pki_operator.Controller.Cascade.{verify_leaves, verify_tier2, reconcile_verifying_chain}
use private_pki_operator.Controller.Conditions.{enter_phase}
use private_pki_operator.Controller.Frame.{Frame}
use private_pki_operator.Controller.Frame.Build.{StoresStatus}
use private_pki_operator.Controller.Frame.Object.{OfObject, object_frame}
use private_pki_operator.Controller.Frame.Reads.{
  Keeps-discover_intermediates, Keeps-discover_namespace_intermediates, Keeps-discover_leaf_certs,
  Keeps-verify_tier1_chain, Keeps-verify_tier2_chain, Keeps-verify_leaf_chain,
}
use private_pki_operator.Controller.Chain.{Signed, IsFresh, IsRenewed, verify_tier1_chain-Signed}
use private_pki_operator.Controller.Chain.Tiers.{
  verify_tier2_chain-IsFresh, verify_leaf_chain-IsRenewed,
}

-- The chain below the root, as it was found from the state on, passed the three checks.
pub record Verified {W : Type 0} (c : Client W) (s : State W) : Type 0 where
  pub tier1 : List Certificate
  pub s1 : State W
  pub tier1_found : discover_intermediates c s ≡ (ok tier1, s1)
  pub s2 : State W
  pub tier1_signed : Signed c tier1 s1 s2
  pub tier2 : List Certificate
  pub s3 : State W
  pub tier2_found : discover_namespace_intermediates c tier1 s2 ≡ (ok tier2, s3)
  pub tier2_fresh : All (IsFresh (latest_not_before tier1)) tier2
  pub leaves : List Certificate
  pub s4 : State W
  pub leaves_found : discover_leaf_certs c tier1 tier2 s3 ≡ (ok leaves, s4)
  pub leaves_renewed : All (IsRenewed (latest_not_before tier1) tier2) leaves

module _ {W : Type 0} (c : Client W) (law : StoresStatus c) where
  abbrev Verifying : PkiRotation → Type 0
  Verifying x = x.status.phase ≡ verifying_chain

  Verifying-frame :
      Frame c
        (λ p. (t : ℕ) (x : PkiRotation) → Verifying x → Verifying (enter_phase p t x))
        (λ f. (x : PkiRotation) → Verifying x → Verifying (record x { status = f x.status }))
        (OfObject c Verifying)
  Verifying-frame = object_frame c law Verifying (λ p q e _ h. ap (λ s. s.phase) e ∙ h) (λ p g h. h)

  module _ (s0 : State W) where
    -- The phase has not changed, unless the chain is verified.
    abbrev Watched : State W → Type 0
    Watched = Guarded (OfObject c Verifying) (Verified c s0)

    guard_leaves :
        (tier1 tier2 : List Certificate) (s3 : State W)
        → OfObject c Verifying s3
        → ((leaves : List Certificate) (s4 : State W)
            → discover_leaf_certs c tier1 tier2 s3 ≡ (ok leaves, s4)
            → All (IsRenewed (latest_not_before tier1) tier2) leaves
            → Verified c s0)
        → Triple (λ x. x ≡ s3) (verify_leaves c tier1 tier2) (λ _. Watched) Watched
    unfolding verify_leaves
    guard_leaves tier1 tier2 s3 h3 finish =
        Triple-bind _ _
          (Guarded-run _ s3
            (Keeps-within _ _ (Keeps-discover_leaf_certs Verifying-frame tier1 tier2)) h3)
          (λ leaves. Triple-from (λ s4 (found, h4).
            Triple-bind _ _
              (Guarded-run _ s4 (Keeps-verify_leaf_chain Verifying-frame _ tier2 leaves) h4)
              (λ stop. Triple-from (λ s5 (checked, h5).
                Triple-option stop _ _
                  (λ e.
                    let (_, renewed) =
                      (verify_leaf_chain-IsRenewed c (latest_not_before tier1) tier2 leaves s4 s5).0
                        (checked ∙ ap (λ o. (ok o, s5)) e) in
                    Guarded-reached _ s5
                      (finish leaves s4 (within_ok _ _ s3 s4 leaves found) renewed))
                  (λ r e. Guarded-pure r s5 h5)))))

    guard_tier2 :
        (tier1 : List Certificate) (s2 : State W)
        → OfObject c Verifying s2
        → ((tier2 leaves : List Certificate) (s3 s4 : State W)
            → discover_namespace_intermediates c tier1 s2 ≡ (ok tier2, s3)
            → All (IsFresh (latest_not_before tier1)) tier2
            → discover_leaf_certs c tier1 tier2 s3 ≡ (ok leaves, s4)
            → All (IsRenewed (latest_not_before tier1) tier2) leaves
            → Verified c s0)
        → Triple (λ x. x ≡ s2) (verify_tier2 c tier1) (λ _. Watched) Watched
    unfolding verify_tier2
    guard_tier2 tier1 s2 h2 finish =
        Triple-bind _ _
          (Guarded-run _ s2
            (Keeps-within _ _ (Keeps-discover_namespace_intermediates Verifying-frame tier1)) h2)
          (λ tier2. Triple-from (λ s3 (found, h3).
            Triple-bind _ _ (Guarded-run _ s3 (Keeps-verify_tier2_chain Verifying-frame _ tier2) h3)
              (λ stop. Triple-from (λ s' (checked, h').
                Triple-option stop _ _
                  (λ e.
                    let (same, fresh) =
                      (verify_tier2_chain-IsFresh c (latest_not_before tier1) tier2 s3 s').0
                        (checked ∙ ap (λ o. (ok o, s')) e) in
                    Triple-weaken _ (λ x k. k ∙ same)
                      (guard_leaves tier1 tier2 s3 h3 (λ leaves s4.
                        finish tier2 leaves s3 s4 (within_ok _ _ s2 s3 tier2 found) fresh))
                      (λ a x k. k) (λ x k. k))
                  (λ r e. Guarded-pure r s' h')))))

    pub guard_chain :
        OfObject c Verifying s0
        → Triple (λ x. x ≡ s0) (reconcile_verifying_chain c) (λ _. Watched) Watched
    unfolding reconcile_verifying_chain
    guard_chain h0 =
        Triple-bind _ _
          (Guarded-run _ s0 (Keeps-within _ _ (Keeps-discover_intermediates Verifying-frame)) h0)
          (λ tier1. Triple-from (λ s1 (found, h1).
            Triple-bind _ _ (Guarded-run _ s1 (Keeps-verify_tier1_chain Verifying-frame tier1) h1)
              (λ stop. Triple-from (λ s2 (checked, h2).
                Triple-option stop _ _
                  (λ e. guard_tier2 tier1 s2 h2 (λ tier2 leaves s3 s4 found2 fresh found3 renewed.
                    record {
                      tier1 = tier1;
                      s1 = s1;
                      tier1_found = within_ok _ _ s0 s1 tier1 found;
                      s2 = s2;
                      tier1_signed =
                          (verify_tier1_chain-Signed c tier1 s1 s2).0
                            (checked ∙ ap (λ o. (ok o, s2)) e);
                      tier2 = tier2;
                      s3 = s3;
                      tier2_found = found2;
                      tier2_fresh = fresh;
                      leaves = leaves;
                      s4 = s4;
                      leaves_found = found3;
                      leaves_renewed = renewed;
                    }))
                  (λ r e. Guarded-pure r s2 h2)))))
