-- ===== src/Controller/State.antt =====
-- What a reconcile reads and writes: the cluster, the PKIRotation in memory that the handlers are
-- given by pointer, the metrics of the process, and the events given to the recorder.
use private_pki_operator.Common.{ℕ, String, none, some, List, [], ◌∷◌, ◌++◌, Bool}
use private_pki_operator.Action.{Message, Result, ok, Action, modify, gets, ◌>>=◌}
use private_pki_operator.Api.{PkiRotation, Status}
use private_pki_operator.Cluster.{Client, Secret}
use private_pki_operator.Metrics.{Metrics}

-- An event of the recorder: is it a warning, its reason and its message.
pub record Event : Type 0 where
  pub warning : Bool
  pub reason : String
  pub message : Message

pub record State (W : Type 0) : Type 0 where
  pub world : W
  pub pkir : PkiRotation
  pub metrics : Metrics
  pub events : List Event

-- `ctrl.Result`, by `RequeueAfter` in seconds; 0 is the empty result.
abbrev pub Requeue : Type 0
Requeue = ℕ

module _ {W : Type 0} where
  -- A call to the outside.
  unfoldable pub call : {A : Type 0} → (W → Result A × W) → Action (State W) A
  call m s = let (r, w) = m s.world in (r, record s { world = w })

  -- `metav1.Now()`.
  unfoldable pub now : Client W → Action (State W) ℕ
  unfolding call
  now c = call (λ w. let (t, w') = c.now w in (ok t, w'))

  unfoldable pub set_pkir : (PkiRotation → PkiRotation) → Action (State W) Unit
  unfolding modify
  set_pkir f = modify (λ s. record s { pkir = f s.pkir })

  unfoldable pub set_status : (Status → Status) → Action (State W) Unit
  unfolding set_pkir
  set_status f = set_pkir (λ p. record p { status = f p.status })

  unfoldable pub set_metrics : (PkiRotation → Metrics → Metrics) → Action (State W) Unit
  unfolding modify
  set_metrics f = modify (λ s. record s { metrics = f s.pkir s.metrics })

  unfoldable pub get_pkir : Action (State W) PkiRotation
  unfolding gets
  get_pkir = gets (λ s. s.pkir)

  -- `r.Recorder.Event`, `r.Recorder.Eventf`.
  unfoldable pub record_event : Event → Action (State W) Unit
  unfolding modify
  record_event e = modify (λ s. record s { events = s.events ++ e ∷ [] })

  -- `getReader()`: the uncached reader if there is one, else the cached client.
  unfoldable pub get_reader : Client W → String → String → W → Result Secret × W
  get_reader c = elim c.reader_get_secret [ none ↦ c.get_secret | some get ↦ get ]

  -- `r.Status().Update(ctx, pkir)`: what was stored comes back into the object.
  unfoldable pub update_status : Client W → Action (State W) Unit
  unfolding ◌>>=◌ call set_pkir
  update_status c s = (call (c.update_status s.pkir) >>= λ stored. set_pkir (λ _. stored)) s
