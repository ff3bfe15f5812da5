-- ===== src/Controller/VerifyChain.antt =====
-- pkirotation_verifychain.go: the checks before the old root goes. `none` is the nil result of the
-- Go helpers, "keep going"; `some r` is a result that the caller returns.
pub mod Baseline
use private_pki_operator.Common.{
  ℕ, String, Bool, true, false, not, ◌&&◌, ◌||◌, Option, none, some, List, [], ◌∷◌, ◌==◌,
  if◌then◌else◌, ltb, leb,
}
use private_pki_operator.Action.{
  text, Message, Error, wrap, Action, pure, fail, handle, ◌>>=◌, ◌>>◌,
}
use private_pki_operator.Api.{chain_verified}
use private_pki_operator.Cluster.{Client, Certificate}
use private_pki_operator.Controller.State.{State, Requeue, get_pkir, record_event}
use private_pki_operator.Controller.Conditions.{set_condition, update_condition_status}
use private_pki_operator.Controller.Certificates.{
  is_certificate_resource_ready, is_certificate_issuing_true, trigger_reissuance, certificate_akid,
}

abbrev pub cert_text : Certificate → Message
cert_text cert = text cert.namespace ∷ text "/" ∷ text cert.name ∷ []

-- `NotBefore != nil && NotBefore.After(t)`.
abbrev pub is_after : ℕ → Option ℕ → Bool
is_after t none = false
is_after t (some n) = ltb t n

-- `NotBefore != nil && !NotBefore.Before(t)`.
abbrev pub is_not_before : ℕ → Option ℕ → Bool
is_not_before t none = false
is_not_before t (some n) = leb t n

-- What a namespace intermediate must be.
unfoldable pub tier2_is_fresh : ℕ → Certificate → Bool
tier2_is_fresh base cert = is_certificate_resource_ready cert && is_after base cert.not_before

-- `tier2NotBeforeByNS`, the last certificate of a namespace wins, with the base as the default.
unfoldable pub parent_not_before : ℕ → List Certificate → String → ℕ
parent_not_before base [] namespace = base
parent_not_before base (t ∷ ts) namespace = elim t.not_before [
  | none ↦ parent_not_before base ts namespace
  | some n ↦ parent_not_before (if t.namespace == namespace then n else base) ts namespace
]

module _ {W : Type 0} (c : Client W) where
  -- `_ = r.triggerReissuance(…)`, unless it is in flight.
  unfoldable pub retrigger : Certificate → Action (State W) Unit
  retrigger cert =
      if is_certificate_issuing_true cert
      then pure tt
      else handle (trigger_reissuance c cert) (λ _. pure tt) (λ _. pure tt)

  -- Write why the chain is not verified, and requeue.
  unfoldable pub not_verified : String → Message → Requeue → Action (State W) (Option Requeue)
  not_verified reason message requeue = do
    set_condition c chain_verified false reason message
    update_condition_status c
    pure (some requeue)

  unfoldable pub not_verified_warning : Message → Requeue → Action (State W) (Option Requeue)
  not_verified_warning message requeue = do
    set_condition c chain_verified false "AKIDMismatch" message
    record_event (record { warning = true; reason = "ChainVerificationFailed"; message = message })
    update_condition_status c
    pure (some requeue)

  unfoldable pub secret_unreadable : Certificate → Error → Action (State W) (Option Requeue)
  secret_unreadable cert e = do
    set_condition c chain_verified false "SecretReadFailed" e.message
    update_condition_status c
    fail (wrap (text "verifying chain for " ∷ cert_text cert) e)

  -- `verifyTier1Chain`.
  unfoldable pub verify_tier1_chain : List Certificate → Action (State W) (Option Requeue)
  verify_tier1_chain [] = pure none
  verify_tier1_chain (cert ∷ certs) =
      handle (certificate_akid c cert)
        (λ akid. do
          pkir ← get_pkir
          if akid == "" || not (akid == pkir.status.current_skid)
              then not_verified_warning
                  (text cert.namespace
                    ∷ text "/"
                    ∷ text cert.name
                    ∷ text ": AKID "
                    ∷ text akid
                    ∷ text " does not match new root SKID "
                    ∷ text pkir.status.current_skid
                    ∷ [])
                  30
              else verify_tier1_chain certs)
        (secret_unreadable cert)

  -- `verifyTier2Chain`.
  unfoldable pub verify_tier2_chain : ℕ → List Certificate → Action (State W) (Option Requeue)
  verify_tier2_chain base [] = pure none
  verify_tier2_chain base (cert ∷ certs) =
      let rest = verify_tier2_chain base certs in
      if tier2_is_fresh base cert then rest else do
        retrigger cert
        not_verified_warning
            (text cert.namespace
              ∷ text "/"
              ∷ text cert.name
              ∷ text ": namespace intermediate not yet reissued after cluster intermediate rotation"
              ∷ [])
            10

  -- `verifyLeafChain`.
  unfoldable pub verify_leaf_chain :
      ℕ → List Certificate → List Certificate → Action (State W) (Option Requeue)
  verify_leaf_chain base tier2 [] = pure none
  verify_leaf_chain base tier2 (cert ∷ certs) =
      let rest = verify_leaf_chain base tier2 certs in
      if not (is_certificate_resource_ready cert)
      then not_verified "LeafReissuancePending"
          (text cert.namespace
            ∷ text "/"
            ∷ text cert.name
            ∷ text ": leaf cert re-issuance in progress"
            ∷ [])
          30
      else if is_not_before (parent_not_before base tier2 cert.namespace) cert.not_before
      then rest
      else do
        retrigger cert
        not_verified "LeafReissuancePending"
            (text cert.namespace
              ∷ text "/"
              ∷ text cert.name
              ∷ text ": leaf cert not yet reissued after intermediate CA rotation"
              ∷ [])
            10
