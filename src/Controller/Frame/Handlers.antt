-- ===== src/Controller/Frame/Handlers.antt =====
-- The phase handlers of a root keep what a frame keeps, if the frame allows the phases that each
-- of them enters.
use private_pki_operator.Common.{String, List, [], ◌∷◌, ℕ, none}
use private_pki_operator.Action.Keeps.{
  Keeps, keeps_rules, Keeps-each, Keeps-pure, Keeps-bind, Keeps-if, Keeps-within,
}
use private_pki_operator.Action.{Error}
use private_pki_operator.Api.{
  Phase, Status, idle, preserving_old_root, dual_trust_active, awaiting_reissuance, verifying_chain,
  complete,
}
use private_pki_operator.Cluster.{Client, Certificate}
use private_pki_operator.Controller.State.{State}
use private_pki_operator.Controller.TrustBundle.{trim_staging_config_map}
use private_pki_operator.Controller.Phases.{
  has_active_certificate_request, tend_children, idle_skid_changed, idle_first_run, idle_unchanged,
  reconcile_idle, preserving_unchanged, preserving_changed, reconcile_preserving_old_root,
  staging_failed, trigger_tier1, reconcile_dual_trust_active, reconcile_complete,
}
use private_pki_operator.Controller.Cascade.{
  warn_if_overdue, wait_for_reissuance, tier1_reissued_against_new_root, trigger_if_stale,
  trigger_leaf_reissuance, finish_reissuance, await_tier2, reconcile_awaiting_reissuance,
  chain_is_verified, verify_leaves, verify_tier2, reconcile_verifying_chain,
}
use private_pki_operator.Controller.Frame.{Frame}
use private_pki_operator.Controller.Frame.Rules.{frame_rules, rule_set_status}
use private_pki_operator.Controller.Frame.Reads.{
  Keeps-get_pkir, Keeps-current_root_skid, Keeps-discover_intermediates,
  Keeps-discover_namespace_intermediates, Keeps-discover_leaf_certs, Keeps-trigger_reissuance,
  Keeps-clear_reissuance_trigger, Keeps-certificate_akid, Keeps-update_condition_status,
  Keeps-set_condition, Keeps-ensure_staging_config_map, Keeps-ensure_bundle,
  Keeps-verify_tier1_chain, Keeps-verify_tier2_chain, Keeps-verify_leaf_chain,
}
use private_pki_operator.Controller.Frame.Intermediates.{
  Keeps-ensure_intermediate_ca_crs, Keeps-sweep_root_children, Keeps-sync_child_skids,
}

module _ {W : Type 0} {c : Client W} {Q : Phase → Type 0} {U : (Status → Status) → Type 0}
    {P : State W → Type 0} (F : Frame c Q U P) where
  pub Keeps-has_active : Keeps P (has_active_certificate_request c)
  unfolding has_active_certificate_request
  Keeps-has_active = search (keeps_rules, frame_rules, Keeps-get_pkir)

  pub Keeps-tend_children : Keeps P (tend_children c)
  unfolding tend_children
  Keeps-tend_children =
      search (keeps_rules, Keeps-ensure_intermediate_ca_crs, Keeps-sweep_root_children)

  Keeps-idle_skid_changed :
      Q preserving_old_root
      → ((skid : String)
          → U (λ s. record s { previous_skid = s.current_skid; current_skid = skid }))
      → (skid : String) → Keeps P (idle_skid_changed c skid)
  unfolding idle_skid_changed
  Keeps-idle_skid_changed q u skid =
      Keeps-bind _ _ (F.keeps_set_status _ (u skid)) (λ _. F.keeps_transition_to _ q)

  pub Keeps-idle_first_run :
      ((skid : String) → U (λ s. record s { current_skid = skid }))
      → (skid : String) → Keeps P (idle_first_run c skid)
  unfolding idle_first_run
  Keeps-idle_first_run u skid =
      Keeps-bind _ _ (F.keeps_set_status _ (u skid))
        (λ _. search (keeps_rules, frame_rules, Keeps-tend_children))

  Keeps-idle_unchanged :
      Q preserving_old_root
      → ((skid : String) → U (λ s. record s { previous_skid = skid }))
      → (skid : String) → Keeps P (idle_unchanged c skid)
  unfolding idle_unchanged
  Keeps-idle_unchanged q u skid = Keeps-bind _ _ (Keeps-within _ _ Keeps-has_active) (λ active.
      Keeps-if active _ _
        (Keeps-bind _ _ (F.keeps_set_status _ (u skid)) (λ _. F.keeps_transition_to _ q))
        Keeps-tend_children)

  pub Keeps-reconcile_idle :
      Q preserving_old_root
      → ((skid : String)
          → U (λ s. record s { previous_skid = s.current_skid; current_skid = skid }))
      → ((skid : String) → U (λ s. record s { current_skid = skid }))
      → ((skid : String) → U (λ s. record s { previous_skid = skid }))
      → Keeps P (reconcile_idle c)
  unfolding reconcile_idle
  Keeps-reconcile_idle q u v w =
      let changed = Keeps-idle_skid_changed q u in
      let first = Keeps-idle_first_run v in
      let unchanged = Keeps-idle_unchanged q w in
      search
        (
          keeps_rules, Keeps-ensure_staging_config_map, Keeps-ensure_bundle,
          Keeps-current_root_skid, Keeps-get_pkir,
        )
        depth 12

  pub Keeps-preserving_unchanged :
      Q idle
      → U (λ s. record s { previous_skid = ""; rotation_started_at = none })
      → Keeps P (preserving_unchanged c)
  unfolding preserving_unchanged
  Keeps-preserving_unchanged q u = Keeps-bind _ _ (Keeps-within _ _ Keeps-has_active) (λ active.
      Keeps-if active _ _ (Keeps-pure 10)
        (Keeps-bind _ _ (F.keeps_set_status _ u) (λ _. F.keeps_transition_to _ q)))

  Keeps-preserving_changed :
      Q dual_trust_active
      → ((skid : String) → U (λ s. record s { current_skid = skid }))
      → (skid : String) → Keeps P (preserving_changed c skid)
  unfolding preserving_changed
  Keeps-preserving_changed q u skid =
      Keeps-bind _ _ (F.keeps_set_status _ (u skid)) (λ _. F.keeps_transition_to _ q)

  pub Keeps-reconcile_preserving_old_root :
      Q idle
      → Q dual_trust_active
      → U (λ s. record s { previous_skid = ""; rotation_started_at = none })
      → ((skid : String) → U (λ s. record s { current_skid = skid }))
      → Keeps P (reconcile_preserving_old_root c)
  unfolding reconcile_preserving_old_root
  Keeps-reconcile_preserving_old_root q r u v =
      let unchanged = Keeps-preserving_unchanged q u in
      let changed = Keeps-preserving_changed r v in
      search (keeps_rules, Keeps-current_root_skid, Keeps-get_pkir) depth 12

  pub Keeps-staging_failed : (e : Error) → Keeps P (staging_failed c e)
  unfolding staging_failed
  Keeps-staging_failed e = search (keeps_rules, Keeps-set_condition, Keeps-update_condition_status)

  pub Keeps-reconcile_dual_trust_active :
      Q awaiting_reissuance → Keeps P (reconcile_dual_trust_active c)
  unfolding reconcile_dual_trust_active trigger_tier1
  Keeps-reconcile_dual_trust_active q =
      search
        (
          keeps_rules, Keeps-each, frame_rules, Keeps-staging_failed, Keeps-set_condition,
          Keeps-discover_intermediates, Keeps-trigger_reissuance,
        )
        depth 12

  pub Keeps-reconcile_complete :
      Keeps P (trim_staging_config_map c)
      → Q idle
      → U (λ s. record s {
        previous_skid = "";
        rotation_started_at = none;
        dual_trust_active_at = none;
      })
      → Keeps P (reconcile_complete c)
  unfolding reconcile_complete
  Keeps-reconcile_complete t q u =
      search
        (
          keeps_rules, frame_rules, rule_set_status, Keeps-clear_reissuance_trigger,
          Keeps-sync_child_skids,
        )
        depth 12

  pub Keeps-wait_for_reissuance : (m : String) → Keeps P (wait_for_reissuance c m)
  unfolding wait_for_reissuance warn_if_overdue
  Keeps-wait_for_reissuance m =
      search
        (
          keeps_rules, frame_rules, Keeps-get_pkir, Keeps-set_condition,
          Keeps-update_condition_status,
        )
        depth 9

  pub Keeps-tier1_reissued :
      (certs : List Certificate) → Keeps P (tier1_reissued_against_new_root c certs)
  unfolding tier1_reissued_against_new_root
  Keeps-tier1_reissued [] = search keeps_rules
  Keeps-tier1_reissued (cert ∷ certs) =
      let rest = Keeps-tier1_reissued certs in
      search (keeps_rules, Keeps-certificate_akid, Keeps-get_pkir)

  pub Keeps-trigger_if_stale :
      (base : ℕ) (cert : Certificate) → Keeps P (trigger_if_stale c base cert)
  unfolding trigger_if_stale
  Keeps-trigger_if_stale base cert = search (keeps_rules, Keeps-trigger_reissuance)

  Keeps-trigger_leaf_reissuance :
      (tier1 tier2 : List Certificate) → Keeps P (trigger_leaf_reissuance c tier1 tier2)
  unfolding trigger_leaf_reissuance
  Keeps-trigger_leaf_reissuance tier1 tier2 =
      search
        (keeps_rules, Keeps-each, frame_rules, Keeps-discover_leaf_certs, Keeps-trigger_reissuance)
        depth 9

  pub Keeps-reconcile_awaiting_reissuance :
      Q verifying_chain → Keeps P (reconcile_awaiting_reissuance c)
  unfolding reconcile_awaiting_reissuance await_tier2 finish_reissuance
  Keeps-reconcile_awaiting_reissuance q =
      search
        (
          keeps_rules, Keeps-each, frame_rules, Keeps-discover_intermediates,
          Keeps-discover_namespace_intermediates, Keeps-tier1_reissued, Keeps-wait_for_reissuance,
          Keeps-trigger_if_stale, Keeps-trigger_leaf_reissuance, Keeps-set_condition,
        )
        depth 14

  Keeps-chain_is_verified :
      Q complete
      → (tier1 tier2 leaves : List Certificate) → Keeps P (chain_is_verified c tier1 tier2 leaves)
  unfolding chain_is_verified
  Keeps-chain_is_verified q tier1 tier2 leaves =
      search (keeps_rules, frame_rules, Keeps-set_condition) depth 9

  pub Keeps-reconcile_verifying_chain : Q complete → Keeps P (reconcile_verifying_chain c)
  unfolding reconcile_verifying_chain verify_tier2 verify_leaves
  Keeps-reconcile_verifying_chain q =
      search
        (
          keeps_rules, Keeps-chain_is_verified, Keeps-discover_intermediates,
          Keeps-discover_namespace_intermediates, Keeps-discover_leaf_certs,
          Keeps-verify_tier1_chain, Keeps-verify_tier2_chain, Keeps-verify_leaf_chain,
        )
        depth 14
