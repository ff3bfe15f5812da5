-- ===== src/Common/Members.antt =====
-- Members of lists, and what a loop over a list gathers.
use mathlib.Core.Path.{◌≡◌, refl, subst, sym}
use mathlib.Core.Logic.{◌⊎◌, inl, inr, ◌↔◌}
use mathlib.Core.List.{List, [], ◌∷◌, ◌++◌}
use private_pki_operator.Common.Lists.{
  All, Any, Any-append, Any-append_left, Any-append_right, foldl,
}

abbrev pub Member : {A : Type 0} → A → List A → Type 0
Member x xs = Any (λ y. y ≡ x) xs

module _ {A : Type 0} (P : A → Type 0) where
  pub Any-Member : (xs : List A) → Any P xs → (x : A) × Member x xs × P x
  Any-Member [] h = absurd h
  Any-Member (x ∷ xs) (inl h) = (x, inl refl, h)
  Any-Member (x ∷ xs) (inr h) = let (y, there, hy) = Any-Member xs h in (y, inr there, hy)

  pub Member-Any : (x : A) (xs : List A) → Member x xs → P x → Any P xs
  Member-Any x [] there h = absurd there
  Member-Any x (y ∷ ys) (inl e) h = inl (subst P (sym e) h)
  Member-Any x (y ∷ ys) (inr there) h = inr (Member-Any x ys there h)

  pub All-Member : (x : A) (xs : List A) → All P xs → Member x xs → P x
  All-Member x [] h there = absurd there
  All-Member x (y ∷ ys) (h, hs) (inl e) = subst P e h
  All-Member x (y ∷ ys) (h, hs) (inr there) = All-Member x ys hs there

  pub Any-snoc : (xs : List A) (x : A) → Any P (xs ++ x ∷ []) ↔ (Any P xs ⊎ P x)
  Any-snoc xs x = (
    λ h. elim (Any-append P xs (x ∷ []) h) [
      | inl here ↦ inl here
      | inr (inl last) ↦ inr last
      | inr (inr none) ↦ absurd none
    ],
    elim [
      | inl here ↦ Any-append_left P xs (x ∷ []) here
      | inr last ↦ Any-append_right P xs (x ∷ []) (inl last)
    ],
  )

  module _ (Q : A → Type 0) where
    pub Any-split : (xs : List A) → Any (λ x. P x ⊎ Q x) xs → Any P xs ⊎ Any Q xs
    Any-split [] h = absurd h
    Any-split (x ∷ xs) (inl (inl h)) = inl (inl h)
    Any-split (x ∷ xs) (inl (inr h)) = inr (inl h)
    Any-split (x ∷ xs) (inr h) = elim (Any-split xs h) [
      | inl here ↦ inl (inr here)
      | inr there ↦ inr (inr there)
    ]

    -- What follows from each item alike.
    pub Any-pull :
        (E : Type 0) → ((x : A) → P x → E × Q x) → (xs : List A) → Any P xs → E × Any Q xs
    Any-pull E k [] h = absurd h
    Any-pull E k (x ∷ xs) (inl h) = let (e, q) = k x h in (e, inl q)
    Any-pull E k (x ∷ xs) (inr h) = let (e, q) = Any-pull E k xs h in (e, inr q)

-- If each round adds `R` of its item to what the state shows, the loop adds `R` of some item.
pub foldl-Any :
    {A B : Type 0} (f : B → A → B) (view : B → Type 0) (R : A → Type 0)
    → ((b : B) (x : A) → view (f b x) ↔ (view b ⊎ R x))
    → (xs : List A) (b : B) → view (foldl f b xs) ↔ (view b ⊎ Any R xs)
foldl-Any f view R k [] b = (λ h. inl h, elim [ inl h ↦ h | inr h ↦ absurd h ])
foldl-Any f view R k (x ∷ xs) b =
    let (there, back) = foldl-Any f view R k xs (f b x) in
    (
      λ h. elim (there h) [
        | inl here ↦ elim ((k b x).0 here) [ inl old ↦ inl old | inr new ↦ inr (inl new) ]
        | inr later ↦ inr (inr later)
      ],
      elim [
        | inl old ↦ back (inl ((k b x).1 (inl old)))
        | inr (inl new) ↦ back (inl ((k b x).1 (inr new)))
        | inr (inr later) ↦ back (inr later)
      ],
    )
