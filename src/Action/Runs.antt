-- ===== src/Action/Runs.antt =====
-- How a call that returned went: the runs of its parts.
use private_pki_operator.Common.{◌≡◌, refl, ◌⊎◌, inl, inr}
use private_pki_operator.Action.{
  Message, Error, Result, ok, err, panic, Action, pure, fail, within, wrap_result, proceed, handle,
  ◌>>=◌,
}

pub pure_ok : {S A : Type 0} (a b : A) (s s' : S) → pure a s ≡ (ok b, s') → (a ≡ b) × (s ≡ s')
unfolding pure
pure_ok a b s s' e = (cc, cc)

module _ {S A : Type 0} where
  wrapped :
      (t : Message) (r : Result A) (s s' : S) (a : A)
      → ◌≡◌ {A = Result A × S} (wrap_result t r, s) (ok a, s')
      → ◌≡◌ {A = Result A × S} (r, s) (ok a, s')
  wrapped t (ok x) s s' a e = e
  wrapped t (err x) s s' a e = absurd cc
  wrapped t (panic m) s s' a e = absurd cc

  pub within_ok :
      (t : Message) (m : Action S A) (s s' : S) (a : A)
      → within t m s ≡ (ok a, s')
      → m s ≡ (ok a, s')
  unfolding within
  within_ok t m s s' a e = let (r, s1) = m s in wrapped t r s1 s' a e

module _ {S A B : Type 0} where
  -- A call that returned, or one whose error was handled.
  abbrev Handled : Action S A → (A → Action S B) → (Error → Action S B) → S → B → S → Type 0
  Handled m f g s b s' =
      ((a : A) × (s1 : S) × (m s ≡ (ok a, s1)) × (f a s1 ≡ (ok b, s')))
      ⊎ ((e : Error) × (s1 : S) × (m s ≡ (err e, s1)) × (g e s1 ≡ (ok b, s')))

  proceeded :
      (m : Action S A) (f : A → Action S B) (g : Error → Action S B) (s : S) (b : B) (s' : S)
      (r : Result A) (s1 : S)
      → m s ≡ (r, s1)
      → proceed r f g s1 ≡ (ok b, s')
      → Handled m f g s b s'
  proceeded m f g s b s' (ok a) s1 h e = inl (a, s1, h, e)
  proceeded m f g s b s' (err x) s1 h e = inr (x, s1, h, e)
  proceeded m f g s b s' (panic t) s1 h e = absurd cc

  pub handle_ok :
      (m : Action S A) (f : A → Action S B) (g : Error → Action S B) (s : S) (b : B) (s' : S)
      → handle m f g s ≡ (ok b, s')
      → Handled m f g s b s'
  unfolding handle
  handle_ok m f g s b s' e = let (r, s1) = m s in proceeded m f g s b s' r s1 refl e

  bound :
      (m : Action S A) (f : A → Action S B) (s : S) (b : B) (s' : S)
      → Handled m f fail s b s'
      → (a : A) × (s1 : S) × (m s ≡ (ok a, s1)) × (f a s1 ≡ (ok b, s'))
  unfolding fail
  bound m f s b s' (inl h) = h
  bound m f s b s' (inr (x, s1, h, e)) = absurd cc

  pub bind_ok :
      (m : Action S A) (f : A → Action S B) (s : S) (b : B) (s' : S)
      → (m >>= f) s ≡ (ok b, s')
      → (a : A) × (s1 : S) × (m s ≡ (ok a, s1)) × (f a s1 ≡ (ok b, s'))
  unfolding ◌>>=◌
  bind_ok m f s b s' e = bound m f s b s' (handle_ok m f fail s b s' e)

  pub run_handle_err :
      (m : Action S A) (f : A → Action S B) (g : Error → Action S B) (s s1 : S) (e : Error)
      → m s ≡ (err e, s1)
      → handle m f g s ≡ g e s1
  unfolding handle
  run_handle_err m f g s s1 e h = rw h refl

  -- Forwards: a part that returned is gone through.
  pub run_handle :
      (m : Action S A) (f : A → Action S B) (g : Error → Action S B) (s s1 : S) (a : A)
      → m s ≡ (ok a, s1)
      → handle m f g s ≡ f a s1
  unfolding handle
  run_handle m f g s s1 a e = rw e refl

  pub run_bind :
      (m : Action S A) (f : A → Action S B) (s s1 : S) (a : A)
      → m s ≡ (ok a, s1)
      → (m >>= f) s ≡ f a s1
  unfolding ◌>>=◌
  run_bind m f s s1 a e = run_handle m f fail s s1 a e

pub run_within :
    {S A : Type 0} (t : Message) (m : Action S A) (s s1 : S) (a : A)
    → m s ≡ (ok a, s1)
    → within t m s ≡ (ok a, s1)
unfolding within
run_within t m s s1 a e = rw e refl
