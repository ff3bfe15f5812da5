-- ===== src/Controller/History.antt =====
-- The reconciles of a root's rotation one after the other, as a step relation between phases, and
-- what a run that reaches Complete has behind it.
pub mod Steps
pub mod Complete
pub mod Tests
use private_pki_operator.Common.{String, ◌≡◌, false}
use private_pki_operator.Action.{ok}
use private_pki_operator.Api.{
  Phase, unset, idle, preserving_old_root, dual_trust_active, awaiting_reissuance, verifying_chain,
  complete, is_intermediate_ca, PkiRotation,
}
use private_pki_operator.Cluster.{Client}
use private_pki_operator.Metrics.{record_phase}
use private_pki_operator.Controller.State.{State}
use private_pki_operator.Controller.Reconcile.{reconcile}
use private_pki_operator.Controller.Renewal.{RenewalSeen}
use private_pki_operator.Controller.Renewal.NewRoot.{NewRootSeen}
use private_pki_operator.Controller.Retention.BothRoots.{BothStaged}
use private_pki_operator.Controller.Chain.Awaited.{Awaited}
use private_pki_operator.Controller.Chain.Verified.{Verified}

module _ {W : Type 0} (c : Client W) where
  -- A reconcile that read a root's rotation in the phase `p` and left it in the phase `q`.
  pub record Reconciles (p q : Phase) : Type 0 where
    pub name : String
    pub before : State W
    pub pkir : PkiRotation
    pub world : W
    pub read : c.get_pki_rotation name before.world ≡ (ok pkir, world)
    pub role : is_intermediate_ca pkir.spec.role ≡ false
    pub found : pkir.status.phase ≡ p
    pub left : (reconcile c name before).1.pkir.status.phase ≡ q

  -- The state of the reconcile after its read.
  abbrev pub state_read : {p q : Phase} → Reconciles p q → State W
  state_read r = record r.before {
    world = r.world;
    pkir = r.pkir;
    metrics = record_phase r.pkir r.before.metrics;
  }

  -- The runs of a rotation that come to a phase. A new object has the empty phase, and each
  -- reconcile reads the phase that the one before left; between them the rest of the cluster is
  -- free. A reconcile whose status write was refused is no step: the next one reads the phase again.
  pub data Run : Phase → Type 0 where
    begins : Run unset
    reconciled : {p q : Phase} → Run p → Reconciles p q → Run q

  -- The second run is the first one, and reconciles after it that left its phase as it was.
  pub data Stays {p : Phase} (first : Run p) : Run p → Type 0 where
    at_once : Stays first first
    later :
        {run : Run p}
        → Stays first run
        → (step : Reconciles p p) → Stays first (reconciled run step)

  -- The run left the rest in a reconcile that saw a reason to start a rotation.
  pub record Started (run : Run preserving_old_root) : Type 0 where
    pub before : Run idle
    pub step : Reconciles idle preserving_old_root
    pub seen : RenewalSeen c (state_read step)
    pub since : Stays (reconciled before step) run

  -- After that, in the same run, it opened the dual-trust window: the new root was there.
  pub record Opened (run : Run dual_trust_active) : Type 0 where
    pub before : Run preserving_old_root
    pub started : Started before
    pub step : Reconciles preserving_old_root dual_trust_active
    pub new_root : NewRootSeen c (state_read step)
    pub since : Stays (reconciled before step) run

  -- After that it went on to the re-issuance: the root was appended to the staging ConfigMap.
  pub record Staged (run : Run awaiting_reissuance) : Type 0 where
    pub before : Run dual_trust_active
    pub opened : Opened before
    pub step : Reconciles dual_trust_active awaiting_reissuance
    pub both : BothStaged c (state_read step)
    pub since : Stays (reconciled before step) run

  -- After that it went on to verify: the two tiers of intermediates were re-issued.
  pub record Reissued (run : Run verifying_chain) : Type 0 where
    pub before : Run awaiting_reissuance
    pub staged : Staged before
    pub step : Reconciles awaiting_reissuance verifying_chain
    pub awaited : Awaited c (state_read step)
    pub since : Stays (reconciled before step) run

  -- After that it went on to Complete: the chain was verified.
  pub record Rotated (run : Run complete) : Type 0 where
    pub before : Run verifying_chain
    pub reissued : Reissued before
    pub step : Reconciles verifying_chain complete
    pub verified : Verified c (state_read step)
    pub since : Stays (reconciled before step) run

  -- What a run that came to the phase has behind it.
  abbrev pub Past : (p : Phase) → Run p → Type 0
  Past preserving_old_root run = Started run
  Past dual_trust_active run = Opened run
  Past awaiting_reissuance run = Staged run
  Past verifying_chain run = Reissued run
  Past complete run = Rotated run
  Past _ run = Unit
