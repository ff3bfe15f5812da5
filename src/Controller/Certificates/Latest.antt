-- ===== src/Controller/Certificates/Latest.antt =====
-- latestNotBefore as the maximum of the issue times.
use private_pki_operator.Common.{
  ℕ, ◌≤◌, Bool, true, false, ◌≡◌, ◌⊎◌, inl, inr, refl, ap, ◌∙◌, Option, none, some, List, [], ◌∷◌,
  All, any, arith, num_eq, ◌||◌,
}
use private_pki_operator.Cluster.{Certificate}
use private_pki_operator.Controller.VerifyChain.{is_after}
use private_pki_operator.Controller.Certificates.{later, latest_not_before_from, latest_not_before}

-- Not issued after the time.
abbrev pub IssuedBy : ℕ → Certificate → Type 0
IssuedBy latest c = is_after latest c.not_before ≡ false

abbrev pub issued_at : ℕ → Option ℕ → Bool
issued_at t none = false
issued_at t (some n) = num_eq n t

later-bound : (at : Option ℕ) (latest : ℕ) → latest ≤ later at latest
later-bound none latest = omega arith
later-bound (some t) latest = ground arith

later-after : (at : Option ℕ) (latest most : ℕ) → later at latest ≤ most → is_after most at ≡ false
later-after none latest most h = refl
later-after (some n) latest most h = ground (arith, h)

from_grows : (latest : ℕ) (cs : List Certificate) → latest ≤ latest_not_before_from latest cs
unfolding latest_not_before_from
from_grows latest [] = omega arith
from_grows latest (c ∷ cs) =
    omega (arith, from_grows (later c.not_before latest) cs, later-bound c.not_before latest)

from_bounds :
    (latest : ℕ) (cs : List Certificate) → All (IssuedBy (latest_not_before_from latest cs)) cs
unfolding latest_not_before_from
from_bounds latest [] = tt
from_bounds latest (c ∷ cs) = (
  later-after c.not_before latest _ (from_grows (later c.not_before latest) cs),
  from_bounds (later c.not_before latest) cs,
)

later_cases :
    (at : Option ℕ) (latest : ℕ)
    → (later at latest ≡ latest) ⊎ (issued_at (later at latest) at ≡ true)
later_cases none latest = inl refl
later_cases (some t) latest = ground arith

or-right : (a b : Bool) → b ≡ true → (a || b) ≡ true
or-right true b h = refl
or-right false b h = h

or-left : (a b : Bool) → a ≡ true → (a || b) ≡ true
or-left true b h = refl
or-left false b h = absurd cc

from_attained :
    (latest : ℕ) (cs : List Certificate)
    → (latest_not_before_from latest cs ≡ latest)
      ⊎ (any (λ (c : Certificate). issued_at (latest_not_before_from latest cs) c.not_before) cs
          ≡ true)
unfolding latest_not_before_from
from_attained latest [] = inl refl
from_attained latest (c ∷ cs) = elim (from_attained (later c.not_before latest) cs) [
  | inr below ↦ inr (or-right _ _ below)
  | inl same ↦ elim (later_cases c.not_before latest) [
    | inl kept ↦ inl (same ∙ kept)
    | inr here ↦ inr (or-left _ _ (ap (λ t. issued_at t c.not_before) same ∙ here))
  ]
]

-- `latestNotBefore` is the greatest of the issue times: no certificate was issued after it, and one
-- was issued at it, unless it is the zero time.
pub latest_not_before-greatest :
    (cs : List Certificate)
    → All (IssuedBy (latest_not_before cs)) cs
      × ((latest_not_before cs ≡ 0)
          ⊎ (any (λ (c : Certificate). issued_at (latest_not_before cs) c.not_before) cs ≡ true))
unfolding latest_not_before
latest_not_before-greatest cs = (from_bounds 0 cs, from_attained 0 cs)
