-- ===== src/Controller/Frame/Cascades.antt =====
-- The phase handlers of an intermediate CA keep what a frame keeps, if the frame allows the phases
-- that each of them enters.
use private_pki_operator.Common.{String, List, [], ◌∷◌, ℕ, none}
use private_pki_operator.Action.{Message}
use private_pki_operator.Action.Keeps.{
  Keeps, keeps_rules, Keeps-each, Keeps-bind, Keeps-if, Keeps-within,
}
use private_pki_operator.Api.{
  Phase, Status, unset, idle, preserving_old_root, dual_trust_active, awaiting_reissuance,
  verifying_chain, complete, other_phase, OwnerReference,
}
use private_pki_operator.Cluster.{Client, Certificate}
use private_pki_operator.Controller.State.{State}
use private_pki_operator.Controller.Discovery.{IssuerAnchor, Downstream}
use private_pki_operator.Controller.Intermediate.{
  owner_is_idle, is_owner_root_ca_idle, intermediate_first_run, normalise_phase, yield_to_owner,
  intermediate_skid_changed, reconcile_idle_intermediate, reconcile_complete_intermediate,
  skid_drifted, trigger_downstream, discover_below, trigger_cascade,
  reconcile_awaiting_reissuance_intermediate, direct_child_akid_mismatched, pending_cert,
  pending_downstream_certs, mark_intermediate_chain_verified, close_cascade, verify_cascade,
  reconcile_verifying_chain_intermediate,
}
use private_pki_operator.Controller.Frame.{Frame}
use private_pki_operator.Controller.Frame.Rules.{frame_rules, rule_set_status}
use private_pki_operator.Controller.Frame.Reads.{
  Keeps-get_pkir, Keeps-certificate_akid, Keeps-trigger_reissuance, Keeps-set_condition,
  Keeps-update_condition_status, Keeps-find_issuers_for_ca_cert, Keeps-discover_downstream_bfs,
  Keeps-retrigger,
}
use private_pki_operator.Controller.Frame.Intermediates.{
  Keeps-intermediate_skid, Keeps-load_intermediate_cert, Keeps-sweep_intermediate_children,
}

module _ {W : Type 0} {c : Client W} {Q : Phase → Type 0} {U : (Status → Status) → Type 0}
    {P : State W → Type 0} (F : Frame c Q U P) where
  Keeps-owner_is_idle : (refs : List OwnerReference) → Keeps P (owner_is_idle c refs)
  unfolding owner_is_idle
  Keeps-owner_is_idle [] = search keeps_rules
  Keeps-owner_is_idle (ref ∷ refs) =
      let rest = Keeps-owner_is_idle refs in search (keeps_rules, frame_rules)

  pub Keeps-is_owner_root_ca_idle : Keeps P (is_owner_root_ca_idle c)
  unfolding is_owner_root_ca_idle
  Keeps-is_owner_root_ca_idle = search (keeps_rules, Keeps-get_pkir, Keeps-owner_is_idle)

  pub Keeps-intermediate_first_run :
      ((skid : String) → U (λ s. record s { current_skid = skid; phase = idle }))
      → (skid : String) → Keeps P (intermediate_first_run c skid)
  unfolding intermediate_first_run
  Keeps-intermediate_first_run u skid =
      Keeps-bind _ _ (F.keeps_set_status _ (u skid))
        (λ _. search (keeps_rules, frame_rules, Keeps-sweep_intermediate_children))

  pub Keeps-normalise_phase :
      U (λ s. record s { phase = idle }) → (p : Phase) → Keeps P (normalise_phase c p)
  unfolding normalise_phase
  Keeps-normalise_phase u unset = search (keeps_rules, frame_rules, rule_set_status)
  Keeps-normalise_phase u idle = search keeps_rules
  Keeps-normalise_phase u preserving_old_root = search keeps_rules
  Keeps-normalise_phase u dual_trust_active = search keeps_rules
  Keeps-normalise_phase u awaiting_reissuance = search keeps_rules
  Keeps-normalise_phase u verifying_chain = search keeps_rules
  Keeps-normalise_phase u complete = search keeps_rules
  Keeps-normalise_phase u (other_phase s) = search keeps_rules

  pub Keeps-yield_to_owner : U (λ s. record s { phase = idle }) → Keeps P (yield_to_owner c)
  unfolding yield_to_owner
  Keeps-yield_to_owner u = search (keeps_rules, frame_rules, rule_set_status)

  Keeps-intermediate_skid_changed :
      Q awaiting_reissuance
      → U (λ s. record s { phase = idle })
      → ((skid : String) → U (λ s. record s { current_skid = skid }))
      → (skid : String) → Keeps P (intermediate_skid_changed c skid)
  unfolding intermediate_skid_changed
  Keeps-intermediate_skid_changed q u v skid =
      Keeps-bind _ _ (Keeps-within _ _ Keeps-is_owner_root_ca_idle) (λ owner_idle.
        Keeps-bind _ _ (F.keeps_set_status _ (v skid))
          (λ _. Keeps-if owner_idle _ _ (F.keeps_transition_to _ q) (Keeps-yield_to_owner u)))

  pub Keeps-reconcile_idle_intermediate :
      Q awaiting_reissuance
      → U (λ s. record s { phase = idle })
      → ((skid : String) → U (λ s. record s { current_skid = skid }))
      → ((skid : String) → U (λ s. record s { current_skid = skid; phase = idle }))
      → Keeps P (reconcile_idle_intermediate c)
  unfolding reconcile_idle_intermediate
  Keeps-reconcile_idle_intermediate q u v w =
      let first = Keeps-intermediate_first_run w in
      let normal = Keeps-normalise_phase u in
      let changed = Keeps-intermediate_skid_changed q u v in
      search
        (keeps_rules, Keeps-get_pkir, Keeps-intermediate_skid, Keeps-sweep_intermediate_children)
        depth 12

  pub Keeps-reconcile_complete_intermediate :
      Q idle
      → U (λ s. record s { previous_skid = ""; rotation_started_at = none })
      → Keeps P (reconcile_complete_intermediate c)
  unfolding reconcile_complete_intermediate
  Keeps-reconcile_complete_intermediate q u =
      search (keeps_rules, frame_rules, rule_set_status) depth 9

  pub Keeps-skid_drifted : Q idle → (live during : String) → Keeps P (skid_drifted c live during)
  unfolding skid_drifted
  Keeps-skid_drifted q live during = search (keeps_rules, frame_rules, Keeps-get_pkir)

  Keeps-trigger_downstream :
      (kind : String) (certs : List Certificate) → Keeps P (trigger_downstream c kind certs)
  unfolding trigger_downstream
  Keeps-trigger_downstream kind certs = search (keeps_rules, Keeps-each, Keeps-trigger_reissuance)

  pub Keeps-discover_below : (cert : Certificate) → Keeps P (discover_below c cert)
  unfolding discover_below
  Keeps-discover_below cert =
      search (keeps_rules, Keeps-find_issuers_for_ca_cert, Keeps-discover_downstream_bfs)

  Keeps-trigger_cascade :
      Q verifying_chain → (cert : Certificate) → Keeps P (trigger_cascade c cert)
  unfolding trigger_cascade
  Keeps-trigger_cascade q cert =
      search
        (
          keeps_rules, frame_rules, Keeps-discover_below, Keeps-trigger_downstream,
          Keeps-set_condition,
        )
        depth 10

  pub Keeps-reconcile_awaiting_reissuance_intermediate :
      Q verifying_chain → Q idle → Keeps P (reconcile_awaiting_reissuance_intermediate c)
  unfolding reconcile_awaiting_reissuance_intermediate
  Keeps-reconcile_awaiting_reissuance_intermediate q r =
      search
        (
          keeps_rules, Keeps-load_intermediate_cert, Keeps-get_pkir, Keeps-intermediate_skid,
          Keeps-trigger_cascade, Keeps-skid_drifted,
        )
        depth 10

  Keeps-direct_child_akid_mismatched :
      (cert : Certificate) → Keeps P (direct_child_akid_mismatched c cert)
  unfolding direct_child_akid_mismatched
  Keeps-direct_child_akid_mismatched cert =
      search (keeps_rules, Keeps-certificate_akid, Keeps-get_pkir, Keeps-retrigger)

  Keeps-pending_cert :
      (anchors : List IssuerAnchor) (base : ℕ) (cert : Certificate)
      → Keeps P (pending_cert c anchors base cert)
  unfolding pending_cert
  Keeps-pending_cert anchors base cert =
      search (keeps_rules, Keeps-retrigger, Keeps-direct_child_akid_mismatched)

  pub Keeps-pending_downstream_certs :
      (anchors : List IssuerAnchor) (base : ℕ) (certs : List Certificate)
      → Keeps P (pending_downstream_certs c anchors base certs)
  unfolding pending_downstream_certs
  Keeps-pending_downstream_certs anchors base [] = search keeps_rules
  Keeps-pending_downstream_certs anchors base (cert ∷ certs) =
      let rest = Keeps-pending_downstream_certs anchors base certs in
      search (keeps_rules, Keeps-pending_cert)

  Keeps-mark_verified : (found : Downstream) → Keeps P (mark_intermediate_chain_verified c found)
  unfolding mark_intermediate_chain_verified
  Keeps-mark_verified found = search (keeps_rules, frame_rules, Keeps-set_condition) depth 9

  pub Keeps-close_pending :
      (found : Downstream) (m : Message) (ms : List Message)
      → Keeps P (close_cascade c found (m ∷ ms))
  unfolding close_cascade
  Keeps-close_pending found m ms =
      search (keeps_rules, Keeps-set_condition, Keeps-update_condition_status)

  Keeps-close_cascade :
      Q complete
      → (found : Downstream) (pending : List Message) → Keeps P (close_cascade c found pending)
  unfolding close_cascade
  Keeps-close_cascade q found [] = search (keeps_rules, frame_rules, Keeps-mark_verified)
  Keeps-close_cascade q found (m ∷ ms) = Keeps-close_pending found m ms

  Keeps-verify_cascade : Q complete → (cert : Certificate) → Keeps P (verify_cascade c cert)
  unfolding verify_cascade
  Keeps-verify_cascade q cert =
      search
        (keeps_rules, Keeps-discover_below, Keeps-pending_downstream_certs, Keeps-close_cascade)

  pub Keeps-reconcile_verifying_chain_intermediate :
      Q complete → Q idle → Keeps P (reconcile_verifying_chain_intermediate c)
  unfolding reconcile_verifying_chain_intermediate
  Keeps-reconcile_verifying_chain_intermediate q r =
      search
        (
          keeps_rules, Keeps-load_intermediate_cert, Keeps-get_pkir, Keeps-intermediate_skid,
          Keeps-verify_cascade, Keeps-skid_drifted,
        )
        depth 10
