-- ===== src/Controller/Chain/Awaited.antt =====
-- reconcileAwaitingReissuance: when a root goes on from re-issuing to verifying.
use private_pki_operator.Common.{
  ℕ, String, Bool, true, false, not, ◌||◌, ◌≡◌, ◌≢◌, inl, inr, refl, ap, ◌∙◌, subst, List, [], ◌∷◌,
  All, ◌==◌, eq_iff, if◌then◌else◌,
}
use private_pki_operator.Action.{text, ok, Action, pure, within, gets, handle, each, ◌>>=◌}
use private_pki_operator.Action.Keeps.{Keeps-within, Keeps-each}
use private_pki_operator.Action.Triple.{Triple, Triple-bind, Triple-if, Triple-from, Triple-after}
use private_pki_operator.Action.Runs.{pure_ok, within_ok, bind_ok}
use private_pki_operator.Action.Guard.{Guarded, Guarded-run, Guarded-Keeps, Guarded-reached}
use private_pki_operator.Api.{verifying_chain}
use private_pki_operator.Cluster.{Client, Certificate}
use private_pki_operator.Controller.State.{State, get_pkir}
use private_pki_operator.Controller.Certificates.{
  is_certificate_resource_ready, certificate_akid, discover_intermediates,
  discover_namespace_intermediates, latest_not_before,
}
use private_pki_operator.Controller.VerifyChain.{cert_text, is_after}
use private_pki_operator.Controller.Cascade.{
  tier2_pending_reason, tier1_reissued_against_new_root, trigger_if_stale, await_tier2,
  reconcile_awaiting_reissuance,
}
use private_pki_operator.Controller.Frame.Build.{StoresStatus}
use private_pki_operator.Controller.Frame.Object.{OfObject}
use private_pki_operator.Controller.Frame.Phases.{IsNot, IsNot-frame}
use private_pki_operator.Controller.Frame.Reads.{
  Keeps-discover_intermediates, Keeps-discover_namespace_intermediates,
}
use private_pki_operator.Controller.Frame.Handlers.{
  Keeps-wait_for_reissuance, Keeps-tier1_reissued, Keeps-trigger_if_stale,
}
use private_pki_operator.Controller.Chain.{Signed, IsFresh, all_read, read_one, akid_accepted}
use private_pki_operator.Controller.Chain.Tiers.{after_iff}

-- Every cluster intermediate is signed by the new root, and every namespace intermediate, as it is
-- stored after the triggers, is ready and issued after them.
pub record Awaited {W : Type 0} (c : Client W) (s : State W) : Type 0 where
  pub tier1 : List Certificate
  pub s1 : State W
  pub tier1_found : discover_intermediates c s ≡ (ok tier1, s1)
  pub s2 : State W
  pub tier1_signed : Signed c tier1 s1 s2
  pub found : List Certificate
  pub s3 : State W
  pub tier2_found : discover_namespace_intermediates c tier1 s2 ≡ (ok found, s3)
  pub tier2 : List Certificate
  pub s4 : State W
  pub tier2_triggered :
      each (trigger_if_stale c (latest_not_before tier1)) found s3 ≡ (ok tier2, s4)
  pub tier2_fresh : All (IsFresh (latest_not_before tier1)) tier2

nothing_pending :
    (ready late : Bool) (rest : String)
    → (if not ready
        then "Namespace intermediate CA re-issuance in progress"
        else if not late
        then "Waiting for namespace intermediate CA re-issuance"
        else rest)
      ≡ ""
    → (ready ≡ true) × (late ≡ true) × (rest ≡ "")
nothing_pending true true rest e = (refl, refl, e)
nothing_pending true false rest e = absurd cc
nothing_pending false late rest e = absurd cc

tier2_pending_reason-IsFresh :
    (base : ℕ) (certs : List Certificate)
    → tier2_pending_reason base certs ≡ ""
    → All (IsFresh base) certs
unfolding tier2_pending_reason
tier2_pending_reason-IsFresh base [] e = tt
tier2_pending_reason-IsFresh base (cert ∷ certs) e =
    let (ready, late, rest) =
      nothing_pending (is_certificate_resource_ready cert) (is_after base cert.not_before) _ e in
    let (t, at, lt) = (after_iff base cert.not_before).0 late in
    ((ready, t, at, lt), tier2_pending_reason-IsFresh base certs rest)

module _ {W : Type 0} (c : Client W) where
  true_branch :
      (b : Bool) (m : Action (State W) Bool) (s s' : State W)
      → (if b then pure false else m) s ≡ (ok true, s')
      → (b ≡ false) × (m s ≡ (ok true, s'))
  true_branch true m s s' e = let (returned, _) = pure_ok false true s s' e in absurd cc
  true_branch false m s s' e = (refl, e)

  akid_known :
      (akid : String) (m : Action (State W) Bool) (s s' : State W)
      → (get_pkir >>= λ pkir.
            if akid == "" || not (akid == pkir.status.current_skid) then pure false else m)
          s
        ≡ (ok true, s')
      → (akid ≢ "") × (akid ≡ s.pkir.status.current_skid) × (m s ≡ (ok true, s'))
  unfolding get_pkir gets ◌>>=◌ handle
  akid_known akid m s s' e =
      let (accepted, more) = true_branch _ m s s' e in
      let (known, same) = akid_accepted akid s.pkir.status.current_skid accepted in
      (known, same, more)

  tier1_reissued-Signed :
      (certs : List Certificate) (s s' : State W)
      → tier1_reissued_against_new_root c certs s ≡ (ok true, s')
      → Signed c certs s s'
  unfolding tier1_reissued_against_new_root
  tier1_reissued-Signed [] s s' e = subst (Signed c [] s) (pure_ok true true s s' e).1 all_read
  tier1_reissued-Signed (cert ∷ certs) s s' e =
      let (akid, s1, read, next) =
        bind_ok (within (text "reading AKID for " ∷ cert_text cert) (certificate_akid c cert)) _ s
          true s' e in
      let (known, same, rest) =
        akid_known akid (tier1_reissued_against_new_root c certs) s1 s' next in
      read_one akid (within_ok _ _ s s1 akid read) known same
        (tier1_reissued-Signed certs s1 s' rest)

module _ {W : Type 0} (c : Client W) (law : StoresStatus c) (s0 : State W) where
  abbrev Watched : State W → Type 0
  Watched = Guarded (OfObject c (IsNot verifying_chain)) (Awaited c s0)

  guard_tier2 :
      (tier1 : List Certificate) (s2 : State W)
      → OfObject c (IsNot verifying_chain) s2
      → ((found tier2 : List Certificate) (s3 s4 : State W)
          → discover_namespace_intermediates c tier1 s2 ≡ (ok found, s3)
          → each (trigger_if_stale c (latest_not_before tier1)) found s3 ≡ (ok tier2, s4)
          → All (IsFresh (latest_not_before tier1)) tier2
          → Awaited c s0)
      → Triple (λ x. x ≡ s2) (await_tier2 c tier1) (λ _. Watched) Watched
  unfolding await_tier2
  guard_tier2 tier1 s2 h2 finish =
      let F = IsNot-frame c law verifying_chain in
      Triple-bind _ _
        (Guarded-run _ s2 (Keeps-within _ _ (Keeps-discover_namespace_intermediates F tier1)) h2)
        (λ found. Triple-from (λ s3 (run, h3).
          Triple-bind _ _
            (Guarded-run _ s3
              (Keeps-each _ found (λ cert. Keeps-trigger_if_stale F (latest_not_before tier1) cert))
              h3)
            (λ tier2. Triple-from (λ s4 (triggered, h4).
              Triple-if (tier2_pending_reason (latest_not_before tier1) tier2 == "") _ _
                (λ e. Guarded-reached _ s4 (
                  finish found tier2 s3 s4 (within_ok _ _ s2 s3 found run) triggered (
                    tier2_pending_reason-IsFresh (latest_not_before tier1) tier2
                      ((eq_iff (tier2_pending_reason (latest_not_before tier1) tier2) "").0 e))))
                (λ e. Guarded-Keeps _ s4 (Keeps-wait_for_reissuance F _) h4)))))

  guard_awaiting :
      OfObject c (IsNot verifying_chain) s0
      → Triple (λ x. x ≡ s0) (reconcile_awaiting_reissuance c) (λ _. Watched) Watched
  unfolding reconcile_awaiting_reissuance
  guard_awaiting h0 =
      let F = IsNot-frame c law verifying_chain in
      Triple-bind _ _ (Guarded-run _ s0 (Keeps-within _ _ (Keeps-discover_intermediates F)) h0)
        (λ tier1. Triple-from (λ s1 (found, h1).
          Triple-bind _ _ (Guarded-run _ s1 (Keeps-tier1_reissued F tier1) h1) (λ reissued.
            Triple-from (λ s2 (checked, h2).
              Triple-if reissued _ _
                (λ e. guard_tier2 tier1 s2 h2 (λ below tier2 s3 s4 found2 triggered fresh. record {
                  tier1 = tier1;
                  s1 = s1;
                  tier1_found = within_ok _ _ s0 s1 tier1 found;
                  s2 = s2;
                  tier1_signed =
                      tier1_reissued-Signed c tier1 s1 s2 (checked ∙ ap (λ b. (ok b, s2)) e);
                  found = below;
                  s3 = s3;
                  tier2_found = found2;
                  tier2 = tier2;
                  s4 = s4;
                  tier2_triggered = triggered;
                  tier2_fresh = fresh;
                }))
                (λ e. Guarded-Keeps _ s2 (Keeps-wait_for_reissuance F _) h2)))))

  -- A root that waits for the re-issuance goes on to verify the chain only if every cluster
  -- intermediate's AKID was read as the new root's SKID, and every namespace intermediate, as it is
  -- stored after the triggers, is ready and was issued after the cluster intermediates.
  pub reconcile_awaiting_reissuance-Awaited :
      s0.pkir.status.phase ≢ verifying_chain
      → (reconcile_awaiting_reissuance c s0).1.pkir.status.phase ≡ verifying_chain
      → Awaited c s0
  reconcile_awaiting_reissuance-Awaited h e = elim (Triple-after (guard_awaiting (h, tt)) s0 refl) [
    | inl (still, _) ↦ absurd (still e)
    | inr v ↦ v
  ]
