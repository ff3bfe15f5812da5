-- ===== src/Controller/Chain/Tiers.antt =====
-- verifyTier2Chain and verifyLeafChain against the freshness of every certificate.
use private_pki_operator.Common.{
  ℕ, ◌<◌, ◌≤◌, Bool, true, false, not, ◌≡◌, ◌↔◌, refl, sym, ap, subst, List, [], ◌∷◌, none, some,
  Option, All, arith, if◌then◌else◌, &&-true,
}
use private_pki_operator.Action.{ok, Action, pure}
use private_pki_operator.Cluster.{Client, Certificate}
use private_pki_operator.Controller.State.{State, Requeue}
use private_pki_operator.Controller.Certificates.{is_certificate_resource_ready}
use private_pki_operator.Controller.VerifyChain.{
  is_after, is_not_before, tier2_is_fresh, parent_not_before, verify_tier2_chain, verify_leaf_chain,
}
use private_pki_operator.Controller.VerifyChain.Baseline.{
  parent_not_before-IsBaseline, IsBaseline-unique,
}
use private_pki_operator.Controller.Chain.{
  IsFresh, IsRenewed, Stops, Stops-bind, Stops-not_verified, Stops-not_verified_warning,
  stop_absurd, if_Stops,
}

pub after_iff :
    (base : ℕ) (at : Option ℕ) → (is_after base at ≡ true) ↔ ((t : ℕ) × (at ≡ some t) × (base < t))
after_iff base none = (λ h. absurd cc, λ (t, e, lt). absurd cc)
after_iff base (some n) = (λ h. (n, refl, ground arith), λ (t, e, lt). ground (arith, e, lt))

pub not_before_iff :
    (base : ℕ) (at : Option ℕ)
    → (is_not_before base at ≡ true) ↔ ((t : ℕ) × (at ≡ some t) × (base ≤ t))
not_before_iff base none = (λ h. absurd cc, λ (t, e, le). absurd cc)
not_before_iff base (some n) = (λ h. (n, refl, ground arith), λ (t, e, le). ground (arith, e, le))

IsFresh-iff :
    (base : ℕ) (cert : Certificate) → (tier2_is_fresh base cert ≡ true) ↔ IsFresh base cert
unfolding tier2_is_fresh
IsFresh-iff base cert = (
  λ h.
      let (ready, late) = &&-true _ _ h in
      let (t, e, lt) = (after_iff base cert.not_before).0 late in (ready, t, e, lt),
  λ (ready, t, e, lt). rw (ready, (after_iff base cert.not_before).1 (t, e, lt)) refl,
)

if_goes_on :
    {S : Type 0} (b : Bool) (m n : Action S (Option Requeue)) (s s' : S)
    → Stops n
    → (if b then m else n) s ≡ (ok none, s')
    → (b ≡ true) × (m s ≡ (ok none, s'))
if_goes_on true m n s s' stop e = (refl, e)
if_goes_on false m n s s' stop e = absurd (stop_absurd stop s s' e)

module _ {W : Type 0} (c : Client W) (base : ℕ) where
  verify_tier2-IsFresh :
      (certs : List Certificate) (s s' : State W)
      → verify_tier2_chain c base certs s ≡ (ok none, s')
      → (s' ≡ s) × All (IsFresh base) certs
  unfolding verify_tier2_chain pure
  verify_tier2-IsFresh [] s s' e = (sym (ap (λ x. x.1) e), tt)
  verify_tier2-IsFresh (cert ∷ certs) s s' e =
      let (fresh, more) =
        if_goes_on (tier2_is_fresh base cert) (verify_tier2_chain c base certs) _ s s'
          (Stops-bind _ _ (λ _. Stops-not_verified_warning c _ _)) e in
      let (same, rest) = verify_tier2-IsFresh certs s s' more in
      (same, ((IsFresh-iff base cert).0 fresh, rest))

  fresh_verify_tier2 :
      (certs : List Certificate) (s : State W)
      → All (IsFresh base) certs
      → verify_tier2_chain c base certs s ≡ (ok none, s)
  unfolding verify_tier2_chain pure
  fresh_verify_tier2 [] s h = refl
  fresh_verify_tier2 (cert ∷ certs) s (h, hs) =
      rw ((IsFresh-iff base cert).1 h) (fresh_verify_tier2 certs s hs)

  -- `verifyTier2Chain` lets the reconcile go on just if every namespace intermediate is ready and
  -- was issued after the cluster intermediates; it then changed nothing.
  pub verify_tier2_chain-IsFresh :
      (certs : List Certificate) (s s' : State W)
      → (verify_tier2_chain c base certs s ≡ (ok none, s')) ↔ ((s' ≡ s) × All (IsFresh base) certs)
  verify_tier2_chain-IsFresh certs s s' = (
    verify_tier2-IsFresh certs s s',
    λ (same, h).
        subst (λ x. verify_tier2_chain c base certs s ≡ (ok none, x)) (sym same)
          (fresh_verify_tier2 certs s h),
  )

  module _ (tier2 : List Certificate) where
    verify_leaves-IsRenewed :
        (certs : List Certificate) (s s' : State W)
        → verify_leaf_chain c base tier2 certs s ≡ (ok none, s')
        → (s' ≡ s) × All (IsRenewed base tier2) certs
    unfolding verify_leaf_chain pure
    verify_leaves-IsRenewed [] s s' e = (sym (ap (λ x. x.1) e), tt)
    verify_leaves-IsRenewed (cert ∷ certs) s s' e =
        let (ready, next) =
          if_Stops (not (is_certificate_resource_ready cert)) _ _ s s' (Stops-not_verified c _ _ _)
            e in
        let (renewed, more) =
          if_goes_on (is_not_before (parent_not_before base tier2 cert.namespace) cert.not_before)
            (verify_leaf_chain c base tier2 certs) _ s s'
            (Stops-bind _ _ (λ _. Stops-not_verified c _ _ _)) next in
        let (same, rest) = verify_leaves-IsRenewed certs s s' more in
        let (t, at, le) = (not_before_iff _ cert.not_before).0 renewed in
        (
          same,
          (
            (
              ground (arith, ready),
              t,
              at,
              _,
              parent_not_before-IsBaseline base tier2 cert.namespace,
              le,
            ),
            rest,
          ),
        )

    renewed_verify_leaves :
        (certs : List Certificate) (s : State W)
        → All (IsRenewed base tier2) certs
        → verify_leaf_chain c base tier2 certs s ≡ (ok none, s)
    unfolding verify_leaf_chain pure
    renewed_verify_leaves [] s h = refl
    renewed_verify_leaves (cert ∷ certs) s ((ready, t, at, b, baseline, le), hs) =
        rw
          (
            ready,
            IsBaseline-unique base b tier2 cert.namespace baseline,
            (not_before_iff b cert.not_before).1 (t, at, le),
          )
          (renewed_verify_leaves certs s hs)

    -- `verifyLeafChain` lets the reconcile go on just if every leaf is ready and was not issued
    -- before the last intermediate listed of its namespace that has an issue time, whether that one
    -- is its issuer or not, or before the base if the namespace has none; it then changed nothing.
    pub verify_leaf_chain-IsRenewed :
        (certs : List Certificate) (s s' : State W)
        → (verify_leaf_chain c base tier2 certs s ≡ (ok none, s'))
          ↔ ((s' ≡ s) × All (IsRenewed base tier2) certs)
    verify_leaf_chain-IsRenewed certs s s' = (
      verify_leaves-IsRenewed certs s s',
      λ (same, h).
          subst (λ x. verify_leaf_chain c base tier2 certs s ≡ (ok none, x)) (sym same)
            (renewed_verify_leaves certs s h),
    )
