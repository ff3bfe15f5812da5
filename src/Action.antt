-- ===== src/Action.antt =====
-- Go functions that return `(value, error)` and mutate what they are given: an action is a function
-- of a state. What was written before an error stays written, so the state comes back beside it.
pub mod Keeps
pub mod Runs
pub mod Guard
pub mod Total
pub mod Triple
use private_pki_operator.Common.{String, Bool, false, Option, none, some, List, [], ◌∷◌, ◌++◌, ℕ}

-- A formatted message, with the texts and numbers that stand in it. Its rendering is `fmt`'s.
pub data Part : Type 0 where
  text : String → Part
  num : ℕ → Part

abbrev pub Message : Type 0
Message = List Part

-- An `error`: its text, and what `apierrors.IsNotFound` says of it, which looks through `%w`.
pub record Error : Type 0 where
  pub is_not_found : Bool
  pub message : Message

-- `panic` is a runtime panic of the Go code, which no handler of the program recovers.
pub data Result {ℓ} (A : Type ℓ) : Type ℓ where
  ok : A → Result A
  err : Error → Result A
  panic : String → Result A

-- `fmt.Errorf(format)`.
abbrev pub errorf : Message → Error
errorf m = record { is_not_found = false; message = m }

-- `fmt.Errorf("context: %w", e)`.
abbrev pub wrap : Message → Error → Error
wrap m e = record e { message = m ++ text ": " ∷ e.message }

abbrev pub Action : Type 0 → Type 0 → Type 0
Action S A = S → Result A × S

abbrev pub wrap_result : {A : Type 0} → Message → Result A → Result A
wrap_result m (ok a) = ok a
wrap_result m (err e) = err (wrap m e)
wrap_result m (panic t) = panic t

module _ {S A : Type 0} where
  unfoldable pub pure : A → Action S A
  pure a s = (ok a, s)

  unfoldable pub fail : Error → Action S A
  fail e s = (err e, s)

  unfoldable pub crash : String → Action S A
  crash m s = (panic m, s)

  unfoldable pub lift : Result A → Action S A
  lift r s = (r, s)

  unfoldable pub gets : (S → A) → Action S A
  gets f s = (ok (f s), s)

  -- `if err := m; err != nil { return fmt.Errorf("context: %w", err) }`.
  unfoldable pub within : Message → Action S A → Action S A
  within m act s = let (r, s') = act s in (wrap_result m r, s')

unfoldable pub modify : {S : Type 0} → (S → S) → Action S Unit
modify f s = (ok tt, f s)

module _ {S A B : Type 0} where
  abbrev pub proceed : Result A → (A → Action S B) → (Error → Action S B) → Action S B
  proceed (ok a) f g s = f a s
  proceed (err e) f g s = g e s
  proceed (panic m) f g s = (panic m, s)

  -- A call whose error the caller handles by itself.
  unfoldable pub handle : Action S A → (A → Action S B) → (Error → Action S B) → Action S B
  unfolding pure fail crash lift gets within modify
  handle m f g s = let (r, s') = m s in proceed r f g s'

  infixl 10 ◌>>=◌ ◌>>◌
  unfoldable pub ◌>>=◌ : Action S A → (A → Action S B) → Action S B
  unfolding handle
  m >>= f = handle m f fail

  abbrev pub ◌>>◌ : Action S A → Action S B → Action S B
  m >> n = m >>= λ _. n

  -- `if x != nil { … f x … } else { … m … }`.
  abbrev pub on_option : Option A → Action S B → (A → Action S B) → Action S B
  on_option none m f = m
  on_option (some a) m f = f a

-- A loop over a slice whose body may return an error, with what each round gave.
module _ {S A B : Type 0} where
  unfoldable pub each : (A → Action S B) → List A → Action S (List B)
  each body [] = pure []
  each body (x ∷ xs) = do y ← body x; ys ← each body xs; pure (y ∷ ys)
