-- ===== src/Action/Keeps.antt =====
-- Invariants of actions, with one rule for each way in which the handlers are put together.
use private_pki_operator.Common.{
  String, Bool, true, false, Option, none, some, List, [], ◌∷◌, if◌then◌else◌,
}
use private_pki_operator.Action.{
  Message, Error, Result, ok, err, panic, Action, pure, fail, crash, lift, gets, within, modify,
  proceed, handle, ◌>>=◌, on_option, each,
}

-- Whatever the outcome of `m`, it leaves a state with `P` if it began in one.
pub record Keeps {S A : Type 0} (P : S → Type 0) (m : Action S A) : Type 0 where
  pub at : (s : S) → P s → P (m s).1

module _ {S A : Type 0} {P : S → Type 0} where
  pub Keeps-if :
      (b : Bool) (m n : Action S A) → Keeps P m → Keeps P n → Keeps P (if b then m else n)
  Keeps-if true m n km kn = km
  Keeps-if false m n km kn = kn

  pub Keeps-within : (t : Message) (m : Action S A) → Keeps P m → Keeps P (within t m)
  unfolding within
  Keeps-within t m km = record { at = km.at }

  pub Keeps-lift : (res : Result A) → Keeps P (lift res)
  unfolding lift
  Keeps-lift res = record { at = λ st kept. kept }

  pub Keeps-pure : (value : A) → Keeps P (pure value)
  unfolding pure
  Keeps-pure value = record { at = λ st kept. kept }

  pub Keeps-gets : (read : S → A) → Keeps P (gets read)
  unfolding gets
  Keeps-gets read = record { at = λ st kept. kept }

  pub Keeps-crash : (why : String) → Keeps P (crash {A = A} why)
  unfolding crash
  Keeps-crash why = record { at = λ st kept. kept }

  pub Keeps-fail : (error : Error) → Keeps P (fail {A = A} error)
  unfolding fail
  Keeps-fail error = record { at = λ st kept. kept }

pub Keeps-modify :
    {S : Type 0} {P : S → Type 0} (f : S → S) → ((s : S) → P s → P (f s)) → Keeps P (modify f)
unfolding modify
Keeps-modify f k = record { at = k }

module _ {S A B : Type 0} {P : S → Type 0} where
  proceed-keeps :
      (r : Result A) (f : A → Action S B) (g : Error → Action S B)
      → ((a : A) → Keeps P (f a))
      → ((e : Error) → Keeps P (g e))
      → (s : S) → P s
      → P (proceed r f g s).1
  proceed-keeps (ok a) f g kf kg s h = (kf a).at s h
  proceed-keeps (err e) f g kf kg s h = (kg e).at s h
  proceed-keeps (panic m) f g kf kg s h = h

  pub Keeps-handle :
      (m : Action S A) (next : A → Action S B) (recover : Error → Action S B)
      → Keeps P m
      → ((a : A) → Keeps P (next a))
      → ((e : Error) → Keeps P (recover e))
      → Keeps P (handle m next recover)
  unfolding handle
  Keeps-handle m next recover km on_ok on_err = record {
    at = λ st kept.
        let (res, after) = m st in
        proceed-keeps res next recover on_ok on_err after (km.at st kept);
  }

  pub Keeps-bind :
      (m : Action S A) (next : A → Action S B)
      → Keeps P m
      → ((a : A) → Keeps P (next a))
      → Keeps P (m >>= next)
  unfolding ◌>>=◌
  Keeps-bind m next km on_ok = Keeps-handle m next fail km on_ok Keeps-fail

  -- `if x != nil { … }`.
  pub Keeps-option :
      (o : Option A) (m : Action S B) (f : A → Action S B)
      → Keeps P m
      → ((a : A) → Keeps P (f a))
      → Keeps P (on_option o m f)
  Keeps-option none m f km kf = km
  Keeps-option (some a) m f km kf = kf a

module _ {S A B : Type 0} {P : S → Type 0} where
  pub Keeps-each :
      (body : A → Action S B) (xs : List A) → ((a : A) → Keeps P (body a)) → Keeps P (each body xs)
  unfolding each
  Keeps-each body [] k = Keeps-pure []
  Keeps-each body (x ∷ xs) k =
      Keeps-bind (body x) (λ y. each body xs >>= λ ys. pure (y ∷ ys)) (k x)
        (λ y.
          Keeps-bind (each body xs) (λ ys. pure (y ∷ ys)) (Keeps-each body xs k)
            (λ ys. Keeps-pure (y ∷ ys)))

pub ruleset keeps_rules = (
  Keeps-pure, Keeps-fail, Keeps-crash, Keeps-lift, Keeps-gets, Keeps-within, Keeps-if, Keeps-handle,
  Keeps-bind, Keeps-option,
)
