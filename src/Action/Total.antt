-- ===== src/Action/Total.antt =====
-- Calls that do not panic, with what holds of the values that they return and of a failure.
use private_pki_operator.Common.{String, ◌≡◌, ◌≢◌, refl, Bool, true, false, if◌then◌else◌}
use private_pki_operator.Action.{
  Message, Result, ok, err, panic, Action, pure, fail, within, wrap_result, proceed, handle, ◌>>=◌,
}

module _ {A : Type 0} where
  -- `E` is what a failure needs: `Unit` where a call may fail and `⊥` where it may not.
  abbrev pub Fine : Type 0 → (A → Type 0) → Result A → Type 0
  Fine E Q (ok a) = Q a
  Fine E Q (err e) = E
  Fine E Q (panic t) = ⊥

  pub Fine-weaken :
      (E : Type 0) (Q R : A → Type 0)
      → ((a : A) → Q a → R a)
      → (r : Result A) → Fine E Q r
      → Fine E R r
  Fine-weaken E Q R k (ok a) h = k a h
  Fine-weaken E Q R k (err e) h = h
  Fine-weaken E Q R k (panic t) h = h

  Fine-not_panic :
      (E : Type 0) (Q : A → Type 0) (r : Result A) (t : String) → Fine E Q r → r ≢ panic t
  Fine-not_panic E Q (ok a) t h = λ e. cc
  Fine-not_panic E Q (err x) t h = λ e. cc
  Fine-not_panic E Q (panic x) t h = absurd h

  Fine-wrapped :
      (E : Type 0) (Q : A → Type 0) (t : Message) (r : Result A)
      → Fine E Q r
      → Fine E Q (wrap_result t r)
  Fine-wrapped E Q t (ok a) h = h
  Fine-wrapped E Q t (err e) h = h
  Fine-wrapped E Q t (panic x) h = h

-- From every state the call returns a value with `Q`, or fails as `E` allows.
pub record Total {S A : Type 0} (E : Type 0) (m : Action S A) (Q : A → Type 0) : Type 0 where
  pub at : (s : S) → Fine E Q (m s).0

-- From every state the call panics.
abbrev pub Crashes : {S A : Type 0} → Action S A → String → Type 0
Crashes {S} m t = (s : S) → (m s).0 ≡ panic t

module _ {S A : Type 0} {E : Type 0} {Q : A → Type 0} where
  pub Total-pure : (a : A) → Q a → Total E (pure {S = S} a) Q
  unfolding pure
  Total-pure a h = record { at = λ s. h }

  pub Total-within : (t : Message) (m : Action S A) → Total E m Q → Total E (within t m) Q
  unfolding within
  Total-within t m k = record { at = λ s. let (r, s') = m s in Fine-wrapped E Q t r (k.at s) }

  pub Total-if :
      (b : Bool) (m n : Action S A)
      → (b ≡ true → Total E m Q)
      → (b ≡ false → Total E n Q)
      → Total E (if b then m else n) Q
  Total-if true m n km kn = km refl
  Total-if false m n km kn = kn refl

  pub Total-weaken :
      {R : A → Type 0} (m : Action S A) → Total E m Q → ((a : A) → Q a → R a) → Total E m R
  Total-weaken {R} m t k = record { at = λ s. Fine-weaken E Q R k (m s).0 (t.at s) }

  pub not_panic : {m : Action S A} → Total E m Q → (s : S) (t : String) → (m s).0 ≢ panic t
  not_panic {m} k s t = Fine-not_panic E Q (m s).0 t (k.at s)

module _ {S A B : Type 0} {E : Type 0} {Q : A → Type 0} where
  Fine-proceed :
      (R : B → Type 0) (f : A → Action S B) (r : Result A) (s : S)
      → Fine E Q r
      → ((a : A) → Q a → Total E (f a) R)
      → Fine E R (proceed r f fail s).0
  unfolding fail
  Fine-proceed R f (ok a) s h k = (k a h).at s
  Fine-proceed R f (err e) s h k = h
  Fine-proceed R f (panic t) s h k = h

  pub Total-bind :
      {R : B → Type 0} (m : Action S A) (f : A → Action S B)
      → Total E m Q
      → ((a : A) → Q a → Total E (f a) R)
      → Total E (m >>= f) R
  unfolding ◌>>=◌ handle
  Total-bind {R} m f km kf = record {
    at = λ s. let (r, s') = m s in Fine-proceed R f r s' (km.at s) kf;
  }

module _ {S A B : Type 0} {Q : A → Type 0} where
  crash_proceed :
      (f : A → Action S B) (t : String) (r : Result A) (s : S)
      → Fine ⊥ Q r
      → ((a : A) → Q a → Crashes (f a) t)
      → (proceed r f fail s).0 ≡ panic t
  crash_proceed f t (ok a) s h k = k a h s
  crash_proceed f t (err e) s h k = absurd h
  crash_proceed f t (panic x) s h k = absurd h

  -- A call that does not fail comes to the panic of what follows it.
  pub Crashes-after :
      (m : Action S A) (f : A → Action S B) (t : String)
      → Total ⊥ m Q
      → ((a : A) → Q a → Crashes (f a) t)
      → Crashes (m >>= f) t
  unfolding ◌>>=◌ handle
  Crashes-after m f t km kf = λ s. let (r, s') = m s in crash_proceed f t r s' (km.at s) kf

module _ {S A B : Type 0} where
  crashed :
      (f : A → Action S B) (t : String) (r : Result A) (s : S)
      → r ≡ panic t
      → (proceed r f fail s).0 ≡ panic t
  crashed f t (ok a) s e = absurd cc
  crashed f t (err x) s e = absurd cc
  crashed f t (panic x) s e = cc

  pub Crashes-bind :
      (m : Action S A) (f : A → Action S B) (t : String) → Crashes m t → Crashes (m >>= f) t
  unfolding ◌>>=◌ handle
  Crashes-bind m f t k = λ s. let (r, s') = m s in crashed f t r s' (k s)
