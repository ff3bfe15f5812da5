-- ===== src/Controller/Frame/Reads.antt =====
-- The reads of the handlers, and the writes to other objects, keep what a frame keeps.
use private_pki_operator.Common.{String, Bool, List, [], ◌∷◌, ℕ, zero, suc}
use private_pki_operator.Action.Keeps.{Keeps, keeps_rules, Keeps-handle, Keeps-bind, Keeps-if}
use private_pki_operator.Api.{Phase, Status, ConditionType}
use private_pki_operator.Action.{Message, Error}
use private_pki_operator.Cluster.{Client, Certificate, Secret}
use private_pki_operator.Controller.State.{State, Requeue, get_pkir}
use private_pki_operator.Controller.Conditions.{
  upsert_condition, set_condition, update_condition_status,
}
use private_pki_operator.Controller.Certificates.{
  tls_crt, get_root_certificate, get_root_pem, current_root_skid, list_cluster_issuers,
  list_all_certificates, discover_intermediates, list_tier2, discover_namespace_intermediates,
  discover_leaf_certs, trigger_reissuance, clear_reissuance_trigger, certificate_akid,
}
use private_pki_operator.Controller.TrustBundle.{
  get_staging_config_map, ensure_staging_config_map, create_trust_bundle, repair_bundle,
  ensure_bundle,
}
use private_pki_operator.Controller.Discovery.{
  IssuerAnchor, Level, find_issuers_for_ca_cert, collect_child, collect_children, collect_level,
  discover_downstream_bfs, discover_downstream,
}
use private_pki_operator.Controller.VerifyChain.{
  retrigger, not_verified, not_verified_warning, secret_unreadable, verify_tier1_chain,
  verify_tier2_chain, verify_leaf_chain,
}
use private_pki_operator.Controller.Frame.{Frame}
use private_pki_operator.Controller.Frame.Rules.{frame_rules}

module _ {W : Type 0} {c : Client W} {Q : Phase → Type 0} {U : (Status → Status) → Type 0}
    {P : State W → Type 0} (F : Frame c Q U P) where
  pub Keeps-get_pkir : Keeps P (get_pkir {W = W})
  unfolding get_pkir
  Keeps-get_pkir = search keeps_rules

  pub Keeps-tls_crt : (m : Message) (s : Secret) → Keeps P (tls_crt {S = State W} m s)
  unfolding tls_crt
  Keeps-tls_crt m s = search keeps_rules

  pub Keeps-get_root_certificate : (m : Message) → Keeps P (get_root_certificate c m)
  unfolding get_root_certificate
  Keeps-get_root_certificate m = search (keeps_rules, frame_rules, Keeps-get_pkir)

  pub Keeps-get_root_pem : Keeps P (get_root_pem c)
  unfolding get_root_pem
  Keeps-get_root_pem =
      search (keeps_rules, frame_rules, Keeps-get_pkir, Keeps-get_root_certificate, Keeps-tls_crt)

  pub Keeps-current_root_skid : Keeps P (current_root_skid c)
  unfolding current_root_skid
  Keeps-current_root_skid =
      search (keeps_rules, frame_rules, Keeps-get_pkir, Keeps-get_root_certificate, Keeps-tls_crt)
        depth 9

  pub Keeps-list_cluster_issuers : Keeps P (list_cluster_issuers c)
  unfolding list_cluster_issuers
  Keeps-list_cluster_issuers = search (keeps_rules, frame_rules)

  pub Keeps-list_all_certificates : Keeps P (list_all_certificates c)
  unfolding list_all_certificates
  Keeps-list_all_certificates = search (keeps_rules, frame_rules)

  pub Keeps-discover_intermediates : Keeps P (discover_intermediates c)
  unfolding discover_intermediates
  Keeps-discover_intermediates =
      search
        (
          keeps_rules, Keeps-get_root_certificate, Keeps-list_cluster_issuers,
          Keeps-list_all_certificates,
        )
        depth 9

  Keeps-list_tier2 : (ns : List String) → Keeps P (list_tier2 c ns)
  unfolding list_tier2
  Keeps-list_tier2 [] = search keeps_rules
  Keeps-list_tier2 (n ∷ ns) = search (keeps_rules, Keeps-list_all_certificates)

  pub Keeps-discover_namespace_intermediates :
      (certs : List Certificate) → Keeps P (discover_namespace_intermediates c certs)
  unfolding discover_namespace_intermediates
  Keeps-discover_namespace_intermediates [] = search keeps_rules
  Keeps-discover_namespace_intermediates (t ∷ ts) =
      search (keeps_rules, Keeps-list_cluster_issuers, Keeps-list_tier2)

  pub Keeps-discover_leaf_certs :
      (tier1 tier2 : List Certificate) → Keeps P (discover_leaf_certs c tier1 tier2)
  unfolding discover_leaf_certs
  Keeps-discover_leaf_certs tier1 tier2 =
      search (keeps_rules, Keeps-list_cluster_issuers, Keeps-list_all_certificates)

  pub Keeps-trigger_reissuance : (cert : Certificate) → Keeps P (trigger_reissuance c cert)
  unfolding trigger_reissuance
  Keeps-trigger_reissuance cert = search frame_rules

  pub Keeps-clear_reissuance_trigger : Keeps P (clear_reissuance_trigger c)
  unfolding clear_reissuance_trigger
  Keeps-clear_reissuance_trigger = search keeps_rules

  pub Keeps-certificate_akid : (cert : Certificate) → Keeps P (certificate_akid c cert)
  unfolding certificate_akid
  Keeps-certificate_akid cert = search (keeps_rules, frame_rules, Keeps-tls_crt)

  pub Keeps-update_condition_status : Keeps P (update_condition_status c)
  unfolding update_condition_status
  Keeps-update_condition_status = search (keeps_rules, frame_rules)

  pub Keeps-set_condition :
      (t : ConditionType) (b : Bool) (r : String) (m : Message) → Keeps P (set_condition c t b r m)
  unfolding set_condition
  Keeps-set_condition t b r m = Keeps-bind _ _ F.keeps_now (λ n. F.keeps_set_status _ (
      F.allows_conditions (
        upsert_condition
          (record { type = t; status = b; reason = r; message = m; last_transition_time = n }))))

  pub Keeps-get_staging_config_map : Keeps P (get_staging_config_map c)
  unfolding get_staging_config_map
  Keeps-get_staging_config_map = search (keeps_rules, frame_rules, Keeps-get_pkir)

  pub Keeps-ensure_staging_config_map : Keeps P (ensure_staging_config_map c)
  unfolding ensure_staging_config_map
  Keeps-ensure_staging_config_map = search (keeps_rules, frame_rules, Keeps-get_staging_config_map)

  pub Keeps-ensure_bundle : Keeps P (ensure_bundle c)
  unfolding ensure_bundle create_trust_bundle repair_bundle
  Keeps-ensure_bundle = search (keeps_rules, frame_rules, Keeps-get_pkir) depth 9

  pub Keeps-find_issuers_for_ca_cert :
      (cert : Certificate) → Keeps P (find_issuers_for_ca_cert c cert)
  unfolding find_issuers_for_ca_cert
  Keeps-find_issuers_for_ca_cert cert =
      search (keeps_rules, frame_rules, Keeps-list_cluster_issuers)

  Keeps-collect_child : (l : Level) (cert : Certificate) → Keeps P (collect_child c l cert)
  unfolding collect_child
  Keeps-collect_child l cert = search (keeps_rules, Keeps-find_issuers_for_ca_cert)

  Keeps-collect_children :
      (l : Level) (certs : List Certificate) → Keeps P (collect_children c l certs)
  unfolding collect_children
  Keeps-collect_children l [] = search keeps_rules
  Keeps-collect_children l (cert ∷ certs) =
      search (keeps_rules, Keeps-collect_child, λ (l' : Level). Keeps-collect_children l' certs)

  Keeps-collect_level :
      (l : Level) (anchors : List IssuerAnchor) → Keeps P (collect_level c l anchors)
  unfolding collect_level
  Keeps-collect_level l [] = search keeps_rules
  Keeps-collect_level l (a ∷ anchors) = search (
    keeps_rules,
    frame_rules,
    Keeps-collect_children,
    λ (l' : Level). Keeps-collect_level l' anchors,
  )

  pub Keeps-discover_downstream_bfs :
      (depth : ℕ) (anchors : List IssuerAnchor) → Keeps P (discover_downstream_bfs c depth anchors)
  unfolding discover_downstream_bfs
  Keeps-discover_downstream_bfs zero anchors = search keeps_rules
  Keeps-discover_downstream_bfs (suc n) [] = search keeps_rules
  Keeps-discover_downstream_bfs (suc n) (a ∷ anchors) = search (
    keeps_rules,
    Keeps-collect_level,
    λ (next : List IssuerAnchor). Keeps-discover_downstream_bfs n next,
  )

  pub Keeps-discover_downstream : (a : IssuerAnchor) → Keeps P (discover_downstream c a)
  unfolding discover_downstream
  Keeps-discover_downstream a = search Keeps-discover_downstream_bfs

  pub Keeps-retrigger : (cert : Certificate) → Keeps P (retrigger c cert)
  unfolding retrigger
  Keeps-retrigger cert = search (keeps_rules, Keeps-trigger_reissuance)

  Keeps-not_verified : (r : String) (m : Message) (n : Requeue) → Keeps P (not_verified c r m n)
  unfolding not_verified
  Keeps-not_verified r m n =
      search (keeps_rules, Keeps-set_condition, Keeps-update_condition_status)

  Keeps-not_verified_warning : (m : Message) (n : Requeue) → Keeps P (not_verified_warning c m n)
  unfolding not_verified_warning
  Keeps-not_verified_warning m n =
      search (keeps_rules, frame_rules, Keeps-set_condition, Keeps-update_condition_status)

  Keeps-secret_unreadable : (cert : Certificate) (e : Error) → Keeps P (secret_unreadable c cert e)
  unfolding secret_unreadable
  Keeps-secret_unreadable cert e =
      search (keeps_rules, Keeps-set_condition, Keeps-update_condition_status)

  pub Keeps-verify_tier1_chain : (certs : List Certificate) → Keeps P (verify_tier1_chain c certs)
  unfolding verify_tier1_chain
  Keeps-verify_tier1_chain [] = search keeps_rules
  Keeps-verify_tier1_chain (cert ∷ certs) =
      Keeps-handle _ _ _ (Keeps-certificate_akid cert)
        (λ akid. Keeps-bind _ _ Keeps-get_pkir (λ pkir.
          Keeps-if _ _ _ (Keeps-not_verified_warning _ _) (Keeps-verify_tier1_chain certs)))
        (Keeps-secret_unreadable cert)

  pub Keeps-verify_tier2_chain :
      (base : ℕ) (certs : List Certificate) → Keeps P (verify_tier2_chain c base certs)
  unfolding verify_tier2_chain
  Keeps-verify_tier2_chain base [] = search keeps_rules
  Keeps-verify_tier2_chain base (cert ∷ certs) =
      Keeps-if _ _ _ (Keeps-verify_tier2_chain base certs)
        (Keeps-bind _ _ (Keeps-retrigger cert) (λ _. Keeps-not_verified_warning _ _))

  pub Keeps-verify_leaf_chain :
      (base : ℕ) (tier2 certs : List Certificate) → Keeps P (verify_leaf_chain c base tier2 certs)
  unfolding verify_leaf_chain
  Keeps-verify_leaf_chain base tier2 [] = search keeps_rules
  Keeps-verify_leaf_chain base tier2 (cert ∷ certs) = Keeps-if _ _ _ (Keeps-not_verified _ _ _) (
      Keeps-if _ _ _ (Keeps-verify_leaf_chain base tier2 certs)
        (Keeps-bind _ _ (Keeps-retrigger cert) (λ _. Keeps-not_verified _ _ _)))
