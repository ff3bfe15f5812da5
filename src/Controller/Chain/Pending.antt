-- ===== src/Controller/Chain/Pending.antt =====
-- pendingDownstreamCerts: nothing is pending only if every certificate below the intermediate is
-- renewed.
use private_pki_operator.Common.{
  ℕ, ◌≤◌, Bool, true, false, not, ◌≡◌, ◌≢◌, refl, ap, ◌∙◌, List, [], ◌∷◌, ◌++◌, some, All, arith,
  if◌then◌else◌,
}
use private_pki_operator.Action.{Message, ok, Action, pure}
use private_pki_operator.Action.Triple.{
  Triple-pure, Triple-bind, outcome_ok, Ensures, Ensures-nothing,
}
use private_pki_operator.Action.Runs.{bind_ok}
use private_pki_operator.Cluster.{Client, Certificate}
use private_pki_operator.Controller.State.{State}
use private_pki_operator.Controller.Certificates.{is_certificate_resource_ready}
use private_pki_operator.Controller.VerifyChain.{is_not_before}
use private_pki_operator.Controller.Discovery.{IssuerAnchor}
use private_pki_operator.Controller.Intermediate.{pending_cert, pending_downstream_certs}
use private_pki_operator.Controller.Chain.Tiers.{not_before_iff}

-- Ready, and not issued before the intermediate.
abbrev pub IsReissued : ℕ → Certificate → Type 0
IsReissued base cert =
    (is_certificate_resource_ready cert ≡ true) × (t : ℕ) × (cert.not_before ≡ some t) × (base ≤ t)

-- What returns, returns something.
abbrev Fills : {S : Type 0} → Action S (List Message) → Type 0
Fills m = Ensures (λ _. Unit) m (λ a _. a ≢ [])

fill_absurd : {S : Type 0} {m : Action S (List Message)} → Fills m → (s s' : S) → m s ≢ (ok [], s')
fill_absurd {m = m} k s s' e =
    outcome_ok (λ a _. a ≢ []) (λ _. Unit) [] (m s).0 (m s).1 (k.at s tt) (ap (λ x. x.0) e) refl

if_empty :
    {S : Type 0} (b : Bool) (m n : Action S (List Message)) (s s' : S)
    → Fills m
    → (if b then m else n) s ≡ (ok [], s')
    → (b ≡ false) × (n s ≡ (ok [], s'))
if_empty true m n s s' fill e = absurd (fill_absurd fill s s' e)
if_empty false m n s s' fill e = (refl, e)

append_empty : (xs ys : List Message) → xs ++ ys ≡ [] → (xs ≡ []) × (ys ≡ [])
append_empty [] ys e = (refl, e)
append_empty (x ∷ xs) ys e = absurd cc

returned : {S : Type 0} (xs ys : List Message) (s s' : S) → pure xs s ≡ (ok ys, s') → xs ≡ ys
unfolding pure
returned xs ys s s' e = cc

module _ {W : Type 0} (c : Client W) (anchors : List IssuerAnchor) (base : ℕ) where
  pending_cert-IsReissued :
      (cert : Certificate) (s s' : State W)
      → pending_cert c anchors base cert s ≡ (ok [], s')
      → IsReissued base cert
  unfolding pending_cert
  pending_cert-IsReissued cert s s' e =
      let (ready, next) =
        if_empty (not (is_certificate_resource_ready cert)) _ _ s s' (Triple-pure _ (λ s h. cc))
          e in
      let (late, _) =
        if_empty (not (is_not_before base cert.not_before)) _ _ s s'
          (Triple-bind {Q = λ _ _. Unit} _ _ (Ensures-nothing _) (λ _. Triple-pure _ (λ s h. cc)))
          next in
      let (t, at, le) = (not_before_iff base cert.not_before).0 (ground (arith, late)) in
      (ground (arith, ready), t, at, le)

  -- If nothing below the intermediate is pending, every certificate below it is ready and was not
  -- issued before the intermediate's own.
  pub pending_downstream_certs-IsReissued :
      (certs : List Certificate) (s s' : State W)
      → pending_downstream_certs c anchors base certs s ≡ (ok [], s')
      → All (IsReissued base) certs
  unfolding pending_downstream_certs
  pending_downstream_certs-IsReissued [] s s' e = tt
  pending_downstream_certs-IsReissued (cert ∷ certs) s s' e =
      let (first, s1, run, more) = bind_ok (pending_cert c anchors base cert) _ s [] s' e in
      let (rest, s2, runs, done) =
        bind_ok (pending_downstream_certs c anchors base certs) _ s1 [] s' more in
      let (none_first, none_rest) =
        append_empty first rest (returned (first ++ rest) [] s2 s' done) in
      (
        pending_cert-IsReissued cert s s1 (run ∙ ap (λ x. (ok x, s1)) none_first),
        pending_downstream_certs-IsReissued certs s1 s2 (runs ∙ ap (λ x. (ok x, s2)) none_rest),
      )
