-- ===== src/Controller/Discovery/Exact.antt =====
-- What the search below an issuer finds, against the chains of certificates that lead there.
use private_pki_operator.Common.{
  ℕ, zero, suc, ◌≡◌, refl, sym, ap, ◌∙◌, subst, ◌⊎◌, inl, inr, ◌↔◌, Bool, true, Option, none, some,
  List, [], ◌∷◌, ◌++◌, Any, Any-append, Any-append_left, Any-append_right, Any-weaken, Member,
  Any-Member, Member-Any, Any-split, Any-pull,
}
use private_pki_operator.Cluster.{Certificate}
use private_pki_operator.Controller.State.{State}
use private_pki_operator.Controller.Discovery.{IssuerAnchor, Downstream, Level, nothing_found}
use private_pki_operator.Controller.Discovery.Levels.{
  Snapshot, backed, children, add_level, with_below, first_level, levels,
}
use private_pki_operator.Controller.Discovery.Gathered.{
  part, part-append, part-nothing, Fits, Leads, Part-level, Next-level,
}

-- The certificate was issued below the issuer: by it, or below an issuer that a CA certificate which
-- it issued backs.
pub data Below (snap : Snapshot) : IssuerAnchor → Certificate → Type 0 where
  child :
      {a : IssuerAnchor} {cert : Certificate} → Member cert (children snap a) → Below snap a cert
  deeper :
      {a : IssuerAnchor} {cert : Certificate} (ca : Certificate) (next : IssuerAnchor)
      → Member ca (children snap a)
      → ca.is_ca ≡ true
      → Member next (backed snap ca)
      → Below snap next cert
      → Below snap a cert

module _ (snap : Snapshot) where
  module _ (b : Bool) (cert : Certificate) where
    -- The certificate stands in this part of what was found.
    abbrev Found : Downstream → Type 0
    Found d = Member cert (part b d)

    abbrev IsBelow : List IssuerAnchor → Type 0
    IsBelow anchors = (cert.is_ca ≡ b) × Any (λ a. Below snap a cert) anchors

    not_at_first : Found nothing_found → ⊥
    not_at_first h = subst (Any (λ x. x ≡ cert)) (part-nothing b) h

    inverted :
        (l : Level) (o : Option Downstream) (found : Downstream)
        → with_below snap l o ≡ some found
        → (below : Downstream) × (o ≡ some below) × (Found found ↔ (Found l.found ⊎ Found below))
    inverted l none found e = absurd cc
    inverted l (some below) found e =
        let same : found
            ≡ record { cas = l.found.cas ++ below.cas; leaves = l.found.leaves ++ below.leaves } =
          cc in
        (
          below,
          refl,
          subst (λ d. Found d ↔ (Found l.found ⊎ Found below)) (sym same)
              (
                λ h.
                    Any-append _ (part b l.found) (part b below)
                      (subst (Any (λ x. x ≡ cert)) (part-append b l.found below) h),
                λ h. subst (Any (λ x. x ≡ cert)) (sym (part-append b l.found below)) (elim h [
                  | inl here ↦ Any-append_left _ (part b l.found) (part b below) here
                  | inr there ↦ Any-append_right _ (part b l.found) (part b below) there
                ]),
              ),
        )

    Fits-child :
        (a : IssuerAnchor)
        → Any (Fits snap b (λ x. x ≡ cert)) (children snap a)
        → (cert.is_ca ≡ b) × Below snap a cert
    Fits-child a h =
        let (is_ca, here) =
          Any-pull (Fits snap b (λ x. x ≡ cert)) (λ x. x ≡ cert) (cert.is_ca ≡ b)
            (λ x (k, same). (sym (ap (λ y. y.is_ca) same) ∙ k, same)) (children snap a) h in
        (is_ca, child here)

    Leads-deeper :
        (a : IssuerAnchor)
        → Any (Leads snap (λ next. Below snap next cert)) (children snap a)
        → Below snap a cert
    Leads-deeper a h =
        let (ca, here, (is_ca, leads)) = Any-Member _ (children snap a) h in
        let (next, there, below) = Any-Member _ (backed snap ca) leads in
        deeper ca next here is_ca there below

    below_cases :
        (a : IssuerAnchor)
        → cert.is_ca ≡ b
        → Below snap a cert
        → Any (Fits snap b (λ x. x ≡ cert)) (children snap a)
          ⊎ Any (Leads snap (λ next. Below snap next cert)) (children snap a)
    below_cases a e (child here) =
        inl (Any-weaken _ _ (λ x same. (ap (λ y. y.is_ca) same ∙ e, same)) (children snap a) here)
    below_cases a e (deeper ca next here is_ca there h) =
        inr (
          Member-Any _ ca (children snap a) here
            (is_ca, Member-Any _ next (backed snap ca) there h))

    pub levels-Below :
        (depth : ℕ) (anchors : List IssuerAnchor) (found : Downstream)
        → levels snap depth anchors ≡ some found
        → Found found ↔ IsBelow anchors
    levels-Below zero anchors found e = absurd cc
    levels-Below (suc depth) [] found e =
        let nothing : found ≡ nothing_found = cc in
        (λ h. absurd (not_at_first (subst Found nothing h)), λ h. absurd h.1)
    levels-Below (suc depth) (a ∷ anchors) found e =
        let next_level = add_level snap (first_level snap) (a ∷ anchors) in
        let (below, deep, split) =
          inverted next_level (levels snap depth next_level.next_anchors) found e in
        let (down, up) = levels-Below depth next_level.next_anchors below deep in
        let (here, from_here) =
          Part-level snap b (λ x. x ≡ cert) (a ∷ anchors) (first_level snap) in
        let (next, from_next) =
          Next-level snap (λ next. Below snap next cert) (a ∷ anchors) (first_level snap) in
        (
          λ h. elim (split.0 h) [
            | inl at_level ↦ elim (here at_level) [
              | inl at_first ↦ absurd (not_at_first at_first)
              | inr fits ↦ Any-pull _ _ (cert.is_ca ≡ b) Fits-child (a ∷ anchors) fits
            ]
            | inr later ↦
                let (is_ca, any) = down later in
                (
                  is_ca,
                  elim (next any) [
                    | inl none_first ↦ absurd none_first
                    | inr leads ↦ Any-weaken _ _ Leads-deeper (a ∷ anchors) leads
                  ],
                )
          ],
          λ (is_ca, any).
              elim (Any-split _ _ (a ∷ anchors)
                (Any-weaken _ _ (λ x h. below_cases x is_ca h) (a ∷ anchors) any)) [
                  | inl fits ↦ split.1 (inl (from_here (inr fits)))
                  | inr leads ↦ split.1 (inr (up (is_ca, from_next (inr leads))))
                ],
        )
