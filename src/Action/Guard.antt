-- ===== src/Action/Guard.antt =====
-- How a handler that may reach a result is followed: the state keeps a property up to there.
use private_pki_operator.Common.{◌≡◌, ◌⊎◌, inl, inr, sym, subst}
use private_pki_operator.Action.{ok, Action, pure}
use private_pki_operator.Action.Keeps.{Keeps}
use private_pki_operator.Action.Triple.{
  Triple, Triple-pure, Triple-weaken, Triple-run, Triple-Keeps,
}

-- `P` still holds, unless `G` was established.
abbrev pub Guarded : {S : Type 0} → (S → Type 0) → Type 0 → S → Type 0
Guarded P G s = P s ⊎ G

module _ {S : Type 0} {P : S → Type 0} {G : Type 0} where
  pub Guarded-run :
      {A : Type 0} (m : Action S A) (s : S)
      → Keeps P m
      → P s
      → Triple (λ x. x ≡ s) m (λ a s'. (m s ≡ (ok a, s')) × P s') (Guarded P G)
  Guarded-run m s k h = Triple-weaken m (λ x e. e) (Triple-run m s k h) (λ a x k. k) (λ x h. inl h)

  pub Guarded-pure :
      {A : Type 0} (a : A) (s : S)
      → P s
      → Triple (λ x. x ≡ s) (pure a) (λ _. Guarded P G) (Guarded P G)
  Guarded-pure a s h = Triple-pure a (λ x e. inl (subst P (sym e) h))

  pub Guarded-Keeps :
      {A : Type 0} (m : Action S A) (s : S)
      → Keeps P m
      → P s
      → Triple (λ x. x ≡ s) m (λ _. Guarded P G) (Guarded P G)
  Guarded-Keeps m s k h =
      Triple-weaken m (λ x e. subst P (sym e) h) (Triple-Keeps k) (λ a x h. inl h) (λ x h. inl h)

  pub Guarded-reached :
      {A : Type 0} (m : Action S A) (s : S)
      → G
      → Triple (λ x. x ≡ s) m (λ _. Guarded P G) (Guarded P G)
  Guarded-reached m s g =
      Triple-weaken {P' = λ _. Unit} m (λ x e. tt)
        (Triple-Keeps {P = λ _. Unit} (record { at = λ s h. tt })) (λ a x h. inr g) (λ x h. inr g)
