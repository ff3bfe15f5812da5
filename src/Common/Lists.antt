-- ===== src/Common/Lists.antt =====
-- Lists measured by native numbers, predicates over lists, and string-keyed maps as association
-- lists (Go maps that the program never ranges over in an order that matters).
use Prim.Native.Nat.{ℕ, suc, ◌+◌}
use Prim.Native.String.{String}
use mathlib.Core.Path.{◌≡◌, refl}
use mathlib.Core.Logic.{◌⊎◌, inl, inr}
use mathlib.Core.Bool.{Bool, true, false, ◌||◌}
use mathlib.Core.Option.{Option, none, some}
use mathlib.Core.List.{List, [], ◌∷◌, ◌++◌, map}
use native.Mathlib.Omega.{arith}
use text.Mathlib.Text.{◌==◌}
use text.Mathlib.TextEquality.{eq_iff}
use private_pki_operator.Common.Tests.{if◌then◌else◌, Bool-cases}

abbrev pub All {ℓ κ} : {A : Type ℓ} → (A → Type κ) → List A → Type κ
All P [] = Unit
All P (x ∷ xs) = P x × All P xs

abbrev pub Any : {A : Type 0} → (A → Type 0) → List A → Type 0
Any P [] = ⊥
Any P (x ∷ xs) = P x ⊎ Any P xs

module _ {ℓ} {A : Type ℓ} where
  abbrev pub length : List A → ℕ
  length [] = 0
  length (x ∷ xs) = suc (length xs)

  pub length-append : (xs ys : List A) → length (xs ++ ys) ≡ length xs + length ys
  length-append [] ys = omega arith
  length-append (x ∷ xs) ys = omega (arith, length-append xs ys)

  -- The loops of the source that keep the items which pass a test.
  abbrev pub keep : (A → Bool) → List A → List A
  keep p [] = []
  keep p (x ∷ xs) = let rest = keep p xs in if p x then x ∷ rest else rest

  abbrev pub foldl : {B : Type ℓ} → (B → A → B) → B → List A → B
  foldl f b [] = b
  foldl f b (x ∷ xs) = foldl f (f b x) xs

  abbrev pub count : (A → Bool) → List A → ℕ
  count p [] = 0
  count p (x ∷ xs) = (if p x then 1 else 0) + count p xs

  abbrev pub any : (A → Bool) → List A → Bool
  any p [] = false
  any p (x ∷ xs) = p x || any p xs

  -- The first item that passes a test.
  abbrev pub find? : (A → Bool) → List A → Option A
  find? p [] = none
  find? p (x ∷ xs) = let rest = find? p xs in if p x then some x else rest

module _ {ℓ κ} {A : Type ℓ} (P : A → Type κ) (p : A → Bool)
    (sound : (x : A) → p x ≡ true → P x) where
  All-if : (b : Bool) (x : A) (xs : List A) → p x ≡ b → All P xs → All P (if b then x ∷ xs else xs)
  All-if true x xs e h = (sound x e, h)
  All-if false x xs e h = h

  -- What is kept has the property that the test stands for.
  pub All-keep : (xs : List A) → All P (keep p xs)
  All-keep [] = tt
  All-keep (x ∷ xs) = All-if (p x) x (keep p xs) refl (All-keep xs)

module _ {A : Type 0} (P : A → Type 0) where
  module _ (p : A → Bool) where
    All-kept_if :
        (b : Bool) (x : A) (xs : List A)
        → (b ≡ true → P x)
        → All P xs
        → All P (if b then x ∷ xs else xs)
    All-kept_if true x xs h hs = (h refl, hs)
    All-kept_if false x xs h hs = hs

    -- What is kept has a property, if each item that passes the test has it.
    pub All-kept : (xs : List A) → All (λ x. p x ≡ true → P x) xs → All P (keep p xs)
    All-kept [] h = tt
    All-kept (x ∷ xs) (h, hs) = All-kept_if (p x) x (keep p xs) h (All-kept xs hs)

    -- An item that passes the test is kept.
    pub Any-kept : (xs : List A) → Any (λ x. (p x ≡ true) × P x) xs → Any P (keep p xs)
    Any-kept [] h = h
    Any-kept (x ∷ xs) (inl (e, h)) = rw e (inl h)
    Any-kept (x ∷ xs) (inr h) = elim (Bool-cases (p x)) [
      | inl e ↦ rw e (inr (Any-kept xs h))
      | inr e ↦ rw e (Any-kept xs h)
    ]

  pub All-append : (xs ys : List A) → All P xs → All P ys → All P (xs ++ ys)
  All-append [] ys hx hy = hy
  All-append (x ∷ xs) ys (h, hs) hy = (h, All-append xs ys hs hy)

  pub Any-append : (xs ys : List A) → Any P (xs ++ ys) → Any P xs ⊎ Any P ys
  Any-append [] ys h = inr h
  Any-append (x ∷ xs) ys (inl h) = inl (inl h)
  Any-append (x ∷ xs) ys (inr h) = elim (Any-append xs ys h) [
    | inl here ↦ inl (inr here)
    | inr there ↦ inr there
  ]

  pub Any-append_left : (xs ys : List A) → Any P xs → Any P (xs ++ ys)
  Any-append_left [] ys h = absurd h
  Any-append_left (x ∷ xs) ys (inl h) = inl h
  Any-append_left (x ∷ xs) ys (inr h) = inr (Any-append_left xs ys h)

  pub Any-append_right : (xs ys : List A) → Any P ys → Any P (xs ++ ys)
  Any-append_right [] ys h = h
  Any-append_right (x ∷ xs) ys h = inr (Any-append_right xs ys h)

module _ {A B : Type 0} (P : B → Type 0) (f : A → B) where
  pub All-map : (xs : List A) → All (λ x. P (f x)) xs → All P (map f xs)
  All-map [] h = tt
  All-map (x ∷ xs) (h, hs) = (h, All-map xs hs)

  pub Any-map : (xs : List A) → Any (λ x. P (f x)) xs → Any P (map f xs)
  Any-map [] h = h
  Any-map (x ∷ xs) (inl h) = inl h
  Any-map (x ∷ xs) (inr h) = inr (Any-map xs h)

module _ {A : Type 0} (P Q : A → Type 0) (k : (x : A) → P x → Q x) where
  pub All-weaken : (xs : List A) → All P xs → All Q xs
  All-weaken [] h = tt
  All-weaken (x ∷ xs) (h, hs) = (k x h, All-weaken xs hs)

  pub Any-weaken : (xs : List A) → Any P xs → Any Q xs
  Any-weaken [] h = h
  Any-weaken (x ∷ xs) (inl h) = inl (k x h)
  Any-weaken (x ∷ xs) (inr h) = inr (Any-weaken xs h)

-- Membership of a name in a set of names, `set[name]` of a `map[string]bool`.
abbrev pub has_name : String → List String → Bool
has_name n ns = any (λ m. m == n) ns

module _ {ℓ} {V : Type ℓ} where
  abbrev pub lookup : String → List (String × V) → Option V
  lookup key [] = none
  lookup key ((name, value) ∷ entries) =
      let rest = lookup key entries in if name == key then some value else rest

  -- `m[k] = v`.
  abbrev pub insert : String → V → List (String × V) → List (String × V)
  insert key new [] = (key, new) ∷ []
  insert key new ((name, value) ∷ entries) =
      let rest = insert key new entries in
      if name == key then (name, new) ∷ entries else (name, value) ∷ rest

  pub lookup-insert :
      (entries : List (String × V)) (key : String) (new : V) (other : String)
      → lookup other (insert key new entries)
        ≡ (if key == other then some new else lookup other entries)
  lookup-insert [] key new other = refl
  lookup-insert ((name, value) ∷ entries) key new other = ground (
    arith,
    lookup-insert entries key new other,
    eq_iff key other,
    eq_iff name key,
    eq_iff name other,
  )
