-- ===== src/Action/Triple.antt =====
-- Hoare triples of actions: what holds of the result and the state after a call that returned, and
-- of the state after one that failed.
use private_pki_operator.Common.{
  Bool, true, false, ◌≡◌, refl, sym, subst, if◌then◌else◌, Option, none, some,
}
use private_pki_operator.Action.{
  Message, Error, Result, ok, err, panic, Action, pure, fail, lift, gets, within, wrap_result,
  proceed, handle, ◌>>=◌, on_option,
}
use private_pki_operator.Action.Keeps.{Keeps}

module _ {S A : Type 0} where
  abbrev pub Outcome : (A → S → Type 0) → (S → Type 0) → Result A → S → Type 0
  Outcome Q E (ok a) s = Q a s
  Outcome Q E (err e) s = E s
  Outcome Q E (panic t) s = E s

  pub record Triple (P : S → Type 0) (m : Action S A) (Q : A → S → Type 0) (E : S → Type 0)
      : Type 0 where
    pub at : (s : S) → P s → Outcome Q E (m s).0 (m s).1

module _ {S A : Type 0} (Q : A → S → Type 0) (E : S → Type 0) where
  pub outcome_ok : (a : A) (r : Result A) (s : S) → Outcome Q E r s → r ≡ ok a → Q a s
  outcome_ok a r s h e = subst (λ x. Outcome Q E x s) e h

  Outcome-within :
      (t : Message) (r : Result A) (s : S) → Outcome Q E r s → Outcome Q E (wrap_result t r) s
  Outcome-within t (ok a) s h = h
  Outcome-within t (err e) s h = h
  Outcome-within t (panic m) s h = h

  Outcome-weaken :
      (Q' : A → S → Type 0) (E' : S → Type 0)
      → ((a : A) (s : S) → Q' a s → Q a s)
      → ((s : S) → E' s → E s)
      → (r : Result A) (s : S) → Outcome Q' E' r s
      → Outcome Q E r s
  Outcome-weaken Q' E' q e (ok a) s h = q a s h
  Outcome-weaken Q' E' q e (err x) s h = e s h
  Outcome-weaken Q' E' q e (panic t) s h = e s h

module _ {S A : Type 0} (P : S → Type 0) where
  keeps-Outcome : (r : Result A) (s : S) → P s → Outcome (λ _. P) P r s
  keeps-Outcome (ok a) s h = h
  keeps-Outcome (err e) s h = h
  keeps-Outcome (panic t) s h = h

  outcome_keeps : (r : Result A) (s : S) → Outcome (λ _. P) P r s → P s
  outcome_keeps (ok a) s h = h
  outcome_keeps (err e) s h = h
  outcome_keeps (panic t) s h = h

module _ {S A B : Type 0} (E : S → Type 0) (Q : A → S → Type 0) (R : B → S → Type 0) where
  Outcome-proceed :
      (f : A → Action S B) (g : Error → Action S B)
      → ((a : A) → Triple (Q a) (f a) R E)
      → ((e : Error) → Triple E (g e) R E)
      → (r : Result A) (s : S) → Outcome Q E r s
      → Outcome R E (proceed r f g s).0 (proceed r f g s).1
  Outcome-proceed f g kf kg (ok a) s h = (kf a).at s h
  Outcome-proceed f g kf kg (err e) s h = (kg e).at s h
  Outcome-proceed f g kf kg (panic t) s h = h

module _ {S A : Type 0} {P E : S → Type 0} {Q : A → S → Type 0} where
  pub Triple-pure : (a : A) → ((s : S) → P s → Q a s) → Triple P (pure a) Q E
  unfolding pure
  Triple-pure a k = record { at = k }

  pub Triple-fail : (e : Error) → ((s : S) → P s → E s) → Triple P (fail e) Q E
  unfolding fail
  Triple-fail e k = record { at = k }

  Outcome-lift :
      (r : Result A)
      → ((a : A) → r ≡ ok a → (s : S) → P s → Q a s)
      → ((s : S) → P s → E s)
      → (s : S) → P s
      → Outcome Q E r s
  Outcome-lift (ok a) q e s h = q a refl s h
  Outcome-lift (err x) q e s h = e s h
  Outcome-lift (panic t) q e s h = e s h

  pub Triple-lift :
      (r : Result A)
      → ((a : A) → r ≡ ok a → (s : S) → P s → Q a s)
      → ((s : S) → P s → E s)
      → Triple P (lift r) Q E
  unfolding lift
  Triple-lift r q e = record { at = Outcome-lift r q e }

  pub Triple-gets : (f : S → A) → ((s : S) → P s → Q (f s) s) → Triple P (gets f) Q E
  unfolding gets
  Triple-gets f k = record { at = k }

  pub Triple-if :
      (b : Bool) (m n : Action S A)
      → (b ≡ true → Triple P m Q E)
      → (b ≡ false → Triple P n Q E)
      → Triple P (if b then m else n) Q E
  Triple-if true m n km kn = km refl
  Triple-if false m n km kn = kn refl

  pub Triple-within : (t : Message) (m : Action S A) → Triple P m Q E → Triple P (within t m) Q E
  unfolding within
  Triple-within t m k = record {
    at = λ s h. let (r, s') = m s in Outcome-within Q E t r s' (k.at s h);
  }

  -- The rule of consequence.
  pub Triple-weaken :
      {P' : S → Type 0} {Q' : A → S → Type 0} {E' : S → Type 0} (m : Action S A)
      → ((s : S) → P s → P' s)
      → Triple P' m Q' E'
      → ((a : A) (s : S) → Q' a s → Q a s)
      → ((s : S) → E' s → E s)
      → Triple P m Q E
  Triple-weaken {Q' = Q'} {E' = E'} m p k q e = record {
    at = λ s h. let (r, s') = m s in Outcome-weaken Q E Q' E' q e r s' (k.at s (p s h));
  }

module _ {S A : Type 0} {P : S → Type 0} where
  -- What holds after the call, however it ended.
  pub Triple-after :
      {Q : S → Type 0} {m : Action S A} → Triple Q m (λ _. P) P → (s : S) → Q s → P (m s).1
  Triple-after {m = m} k s h = let (r, s') = m s in outcome_keeps P r s' (k.at s h)

  pub Triple-Keeps : {m : Action S A} → Keeps P m → Triple P m (λ _. P) P
  Triple-Keeps {m} k = record { at = λ s h. let (r, s') = m s in keeps-Outcome P r s' (k.at s h) }

  pub Keeps-Triple : {m : Action S A} → Triple P m (λ _. P) P → Keeps P m
  Keeps-Triple {m} k = record { at = λ s h. let (r, s') = m s in outcome_keeps P r s' (k.at s h) }

module _ {S A B : Type 0} {P E : S → Type 0} {Q : A → S → Type 0} {R : B → S → Type 0} where
  pub Triple-handle :
      (m : Action S A) (f : A → Action S B) (g : Error → Action S B)
      → Triple P m Q E
      → ((a : A) → Triple (Q a) (f a) R E)
      → ((e : Error) → Triple E (g e) R E)
      → Triple P (handle m f g) R E
  unfolding handle
  Triple-handle m f g km kf kg = record {
    at = λ s h. let (r, s') = m s in Outcome-proceed E Q R f g kf kg r s' (km.at s h);
  }

  pub Triple-bind :
      (m : Action S A) (f : A → Action S B)
      → Triple P m Q E
      → ((a : A) → Triple (Q a) (f a) R E)
      → Triple P (m >>= f) R E
  unfolding ◌>>=◌
  Triple-bind m f km kf = Triple-handle m f fail km kf (λ e. Triple-fail e (λ s h. h))

module _ {S A B : Type 0} {P E : S → Type 0} {R : B → S → Type 0} where
  pub Triple-option :
      (o : Option A) (m : Action S B) (f : A → Action S B)
      → (o ≡ none → Triple P m R E)
      → ((a : A) → o ≡ some a → Triple P (f a) R E)
      → Triple P (on_option o m f) R E
  Triple-option none m f km kf = km refl
  Triple-option (some a) m f km kf = kf a refl

-- Triples that say nothing of a call that failed.
abbrev pub Ensures : {S A : Type 0} → (S → Type 0) → Action S A → (A → S → Type 0) → Type 0
Ensures P m Q = Triple P m Q (λ _. Unit)

module _ {S A : Type 0} where
  any-Outcome : (r : Result A) (s : S) → Outcome (λ _ _. Unit) (λ _. Unit) r s
  any-Outcome (ok a) s = tt
  any-Outcome (err e) s = tt
  any-Outcome (panic t) s = tt

  pub Ensures-nothing : (m : Action S A) → Ensures (λ _. Unit) m (λ _ _. Unit)
  Ensures-nothing m = record { at = λ s h. any-Outcome (m s).0 (m s).1 }

module _ {S A : Type 0} {P : S → Type 0} where
  pub Ensures-Keeps : {m : Action S A} → Keeps P m → Ensures P m (λ _. P)
  Ensures-Keeps {m} k = Triple-weaken m (λ s h. h) (Triple-Keeps k) (λ a s h. h) (λ s h. tt)

-- A call from a known state, with what it gave.
module _ {S A : Type 0} (P : S → Type 0) where
  run-Outcome :
      (m : Action S A) (s0 : S) (r : Result A) (s : S)
      → m s0 ≡ (r, s)
      → P s
      → Outcome (λ a s. (m s0 ≡ (ok a, s)) × P s) P r s
  run-Outcome m s0 (ok a) s e h = (e, h)
  run-Outcome m s0 (err x) s e h = h
  run-Outcome m s0 (panic t) s e h = h

module _ {S A : Type 0} {P : S → Type 0} where
  pub Triple-run :
      (m : Action S A) (s0 : S)
      → Keeps P m
      → P s0
      → Triple (λ s. s ≡ s0) m (λ a s. (m s0 ≡ (ok a, s)) × P s) P
  Triple-run m s0 k h = record {
    at = λ s e.
        subst (λ s. Outcome (λ a s. (m s0 ≡ (ok a, s)) × P s) P (m s).0 (m s).1) (sym e)
          (let (r, s') = m s0 in run-Outcome P m s0 r s' refl (k.at s0 h));
  }

-- Name the state that a call begins in.
pub Triple-from :
    {S A : Type 0} {P E : S → Type 0} {Q : A → S → Type 0} {m : Action S A}
    → ((s0 : S) → P s0 → Triple (λ s. s ≡ s0) m Q E)
    → Triple P m Q E
Triple-from k = record { at = λ s h. (k s h).at s refl }
