-- ===== src/Controller/Chain.antt =====
-- When the checks of VerifyingChain let the old root go: the three of them against what they should
-- have found.
pub mod Tiers
pub mod Pending
pub mod Verified
pub mod Complete
pub mod Cascaded
pub mod Whole
pub mod Awaited
pub mod Tests
use private_pki_operator.Common.{
  ℕ, ◌<◌, ◌≤◌, String, Bool, true, false, not, ◌||◌, ◌≡◌, ◌≢◌, ◌↔◌, ◌⊎◌, inl, inr, refl, sym, ap,
  ◌∙◌, subst, List, [], ◌∷◌, none, some, Option, All, ◌==◌, eq_iff, arith, if◌then◌else◌, &&-true,
  Bool-cases, ltb, leb,
}
use private_pki_operator.Action.{
  text, Message, Error, Result, ok, err, panic, Action, pure, fail, handle, ◌>>=◌, gets,
}
use private_pki_operator.Action.Triple.{
  Triple, Outcome, outcome_ok, Triple-pure, Triple-fail, Triple-bind, Triple-handle, Ensures,
  Ensures-nothing,
}
use private_pki_operator.Action.Runs.{bind_ok, handle_ok, run_bind, run_handle}
use private_pki_operator.Cluster.{Client, Certificate}
use private_pki_operator.Controller.State.{State, Requeue, get_pkir}
use private_pki_operator.Controller.Certificates.{is_certificate_resource_ready, certificate_akid}
use private_pki_operator.Controller.VerifyChain.Baseline.{IsBaseline}
use private_pki_operator.Controller.VerifyChain.{
  is_after, is_not_before, tier2_is_fresh, parent_not_before, not_verified, not_verified_warning,
  secret_unreadable, retrigger, cert_text, verify_tier1_chain, verify_tier2_chain,
  verify_leaf_chain,
}

-- Each certificate's AKID, read one after the other, is the new root's SKID.
pub data Signed {W : Type 0} (c : Client W) : List Certificate → State W → State W → Type 0 where
  all_read : {s : State W} → Signed c [] s s
  read_one :
      {cert : Certificate} {certs : List Certificate} {s s1 s2 : State W} (akid : String)
      → certificate_akid c cert s ≡ (ok akid, s1)
      → akid ≢ ""
      → akid ≡ s1.pkir.status.current_skid
      → Signed c certs s1 s2
      → Signed c (cert ∷ certs) s s2

-- Ready, and issued after the base.
abbrev pub IsFresh : ℕ → Certificate → Type 0
IsFresh base cert =
    (is_certificate_resource_ready cert ≡ true) × (t : ℕ) × (cert.not_before ≡ some t) × (base < t)

-- Ready, and not issued before the last intermediate listed of its namespace that has an issue
-- time, or before the base if there is none.
abbrev pub IsRenewed : ℕ → List Certificate → Certificate → Type 0
IsRenewed base tier2 cert =
    (is_certificate_resource_ready cert ≡ true)
    × (t : ℕ) × (cert.not_before ≡ some t)
    × (b : ℕ) × IsBaseline base tier2 cert.namespace b
    × (b ≤ t)

-- What returns, returns a requeue.
abbrev Stops : {S : Type 0} → Action S (Option Requeue) → Type 0
Stops m = Ensures (λ _. Unit) m (λ a _. a ≢ none)

module _ {S A : Type 0} where
  Stops-bind :
      (m : Action S A) (f : A → Action S (Option Requeue))
      → ((a : A) → Stops (f a))
      → Stops (m >>= f)
  Stops-bind m f k = Triple-bind {Q = λ _ _. Unit} m f (Ensures-nothing m) k

stop_absurd :
    {S : Type 0} {m : Action S (Option Requeue)} → Stops m → (s s' : S) → m s ≢ (ok none, s')
stop_absurd {m} k s s' e =
    outcome_ok (λ a _. a ≢ none) (λ _. Unit) none (m s).0 (m s).1 (k.at s tt) (ap (λ x. x.0) e) refl

module _ {W : Type 0} (c : Client W) where
  Stops-not_verified : (r : String) (m : Message) (n : Requeue) → Stops (not_verified c r m n)
  unfolding not_verified
  Stops-not_verified r m n =
      Stops-bind _ _ (λ _. Stops-bind _ _ (λ _. Triple-pure (some n) (λ s h. cc)))

  Stops-not_verified_warning : (m : Message) (n : Requeue) → Stops (not_verified_warning c m n)
  unfolding not_verified_warning
  Stops-not_verified_warning m n =
      Stops-bind _ _
        (λ _. Stops-bind _ _ (λ _. Stops-bind _ _ (λ _. Triple-pure (some n) (λ s h. cc))))

  Stops-secret_unreadable : (cert : Certificate) (e : Error) → Stops (secret_unreadable c cert e)
  unfolding secret_unreadable
  Stops-secret_unreadable cert e =
      Stops-bind _ _ (λ _. Stops-bind _ _ (λ _. Triple-fail _ (λ s h. tt)))

-- The test of one certificate in `verifyTier1Chain`.
pub akid_accepted :
    (akid current : String)
    → (akid == "" || not (akid == current)) ≡ false
    → (akid ≢ "") × (akid ≡ current)
akid_accepted akid current h = (
  λ e. ground (arith, eq_iff akid "", h, e),
  ground (arith, eq_iff akid current, eq_iff akid "", h),
)

akid_accepts :
    (akid current : String)
    → akid ≢ ""
    → akid ≡ current
    → (akid == "" || not (akid == current)) ≡ false
akid_accepts akid current h e = ground (arith, eq_iff akid "", eq_iff akid current, h, e)

if_Stops :
    {S : Type 0} (b : Bool) (m n : Action S (Option Requeue)) (s s' : S)
    → Stops m
    → (if b then m else n) s ≡ (ok none, s')
    → (b ≡ false) × (n s ≡ (ok none, s'))
if_Stops true m n s s' stop e = absurd (stop_absurd stop s s' e)
if_Stops false m n s s' stop e = (refl, e)

module _ {W : Type 0} (c : Client W) where
  -- What `verifyTier1Chain` does with an AKID that it read.
  check_akid : Certificate → List Certificate → String → Action (State W) (Option Requeue)
  check_akid cert certs akid = do
    pkir ← get_pkir
    if akid == "" || not (akid == pkir.status.current_skid)
        then not_verified_warning c
            (text cert.namespace
              ∷ text "/"
              ∷ text cert.name
              ∷ text ": AKID "
              ∷ text akid
              ∷ text " does not match new root SKID "
              ∷ text pkir.status.current_skid
              ∷ [])
            30
        else verify_tier1_chain c certs

  verify_tier1_cons :
      (cert : Certificate) (certs : List Certificate)
      → verify_tier1_chain c (cert ∷ certs)
        ≡ handle (certificate_akid c cert) (check_akid cert certs) (secret_unreadable c cert)
  unfolding verify_tier1_chain check_akid
  verify_tier1_cons cert certs = refl

  akid_checked :
      (cert : Certificate) (certs : List Certificate) (akid : String) (s s' : State W)
      → check_akid cert certs akid s ≡ (ok none, s')
      → (akid ≢ "")
        × (akid ≡ s.pkir.status.current_skid)
        × (verify_tier1_chain c certs s ≡ (ok none, s'))
  unfolding check_akid get_pkir gets ◌>>=◌ handle
  akid_checked cert certs akid s s' e =
      let (accepted, more) = if_Stops _ _ _ s s' (Stops-not_verified_warning c _ _) e in
      let (known, same) = akid_accepted akid s.pkir.status.current_skid accepted in
      (known, same, more)

  akid_checks :
      (cert : Certificate) (certs : List Certificate) (akid : String) (s : State W)
      → akid ≢ ""
      → akid ≡ s.pkir.status.current_skid
      → check_akid cert certs akid s ≡ verify_tier1_chain c certs s
  unfolding check_akid get_pkir gets ◌>>=◌ handle
  akid_checks cert certs akid s known same =
      rw (akid_accepts akid s.pkir.status.current_skid known same) refl

  verify_tier1-Signed :
      (certs : List Certificate) (s s' : State W)
      → verify_tier1_chain c certs s ≡ (ok none, s')
      → Signed c certs s s'
  unfolding verify_tier1_chain pure
  verify_tier1-Signed [] s s' e = subst (Signed c [] s) (ap (λ x. x.1) e) all_read
  verify_tier1-Signed (cert ∷ certs) s s' e =
      elim (handle_ok (certificate_akid c cert) (check_akid cert certs) (secret_unreadable c cert) s
        none s' (sym (ap (λ m. m s) (verify_tier1_cons cert certs)) ∙ e)) [
          | inl (akid, s1, run, rest) ↦
              let (known, same, more) = akid_checked cert certs akid s1 s' rest in
              read_one akid run known same (verify_tier1-Signed certs s1 s' more)
          | inr (x, s1, run, rest) ↦
              absurd (stop_absurd (Stops-secret_unreadable c cert x) s1 s' rest)
        ]

  Signed-verify_tier1 :
      (certs : List Certificate) (s s' : State W)
      → Signed c certs s s'
      → verify_tier1_chain c certs s ≡ (ok none, s')
  unfolding verify_tier1_chain pure
  Signed-verify_tier1 _ s _ all_read = refl
  Signed-verify_tier1 _ s s' (read_one {cert} {certs} {s1 = s1} akid run known same rest) =
      ap (λ m. m s) (verify_tier1_cons cert certs)
      ∙ run_handle (certificate_akid c cert) (check_akid cert certs) (secret_unreadable c cert) s s1
          akid run
      ∙ akid_checks cert certs akid s1 known same
      ∙ Signed-verify_tier1 certs s1 s' rest

  -- `verifyTier1Chain` lets the reconcile go on just if every AKID is the new root's SKID.
  pub verify_tier1_chain-Signed :
      (certs : List Certificate) (s s' : State W)
      → (verify_tier1_chain c certs s ≡ (ok none, s')) ↔ Signed c certs s s'
  verify_tier1_chain-Signed certs s s' =
      (verify_tier1-Signed certs s s', Signed-verify_tier1 certs s s')
