-- ===== src/Metrics.antt =====
-- ci/private-pki-operator/internal/controller/metrics.go: the operator's Prometheus series, as
-- functions of their labels. A series that was never written, or was deleted, is none.
pub mod Series
pub mod Tests
use private_pki_operator.Common.{
  ℕ, zero, suc, has_name, ◌+◌, String, ◌&&◌, Option, none, some, List, [], ◌∷◌, ◌==◌, if◌then◌else◌,
}
use private_pki_operator.Api.{
  Phase, unset, idle, preserving_old_root, dual_trust_active, awaiting_reissuance, verifying_chain,
  complete, other_phase, phase_string, role_string, PkiRotation,
}

pub record Metrics : Type 0 where
  -- name, role, phase
  pub phase : String → String → String → Option ℕ
  -- role, from, to
  pub transitions_total : String → String → String → Option ℕ
  -- role, kind
  pub downstream_reissued_total : String → String → Option ℕ
  -- role
  pub skid_drift_total : String → Option ℕ
  pub reissuance_timeouts_total : String → Option ℕ
  pub stale_downstream_reissued_total : String → Option ℕ

-- `phaseUnset`.
abbrev pub phase_unset : String
phase_unset = "Unset"

-- `allPhases`.
abbrev pub all_phases : List String
all_phases =
    phase_unset ∷ "Idle" ∷ "PreservingOldRoot" ∷ "DualTrustActive" ∷ "AwaitingReissuance"
    ∷ "VerifyingChain" ∷ "Complete" ∷ []

-- `active == "" → phaseUnset`.
abbrev pub phase_label : Phase → String
phase_label unset = phase_unset
phase_label idle = "Idle"
phase_label preserving_old_root = "PreservingOldRoot"
phase_label dual_trust_active = "DualTrustActive"
phase_label awaiting_reissuance = "AwaitingReissuance"
phase_label verifying_chain = "VerifyingChain"
phase_label complete = "Complete"
phase_label (other_phase s) = if s == "" then phase_unset else s

-- `WithLabelValues(name, role, phase)` as the place of a write.
abbrev pub set_series :
    String
    → String
    → String
    → Option ℕ
    → (String → String → String → Option ℕ)
    → String
    → String
    → String
    → Option ℕ
set_series name role phase v g n r p = if n == name && r == role && p == phase then v else g n r p

-- The loop of `recordPhase`.
pub record_phases : String → String → String → List String → Metrics → Metrics
record_phases name role active [] m = m
record_phases name role active (phase ∷ phases) m =
    record_phases name role active phases (record m {
      phase = set_series name role phase (some (if phase == active then 1 else 0)) m.phase;
    })

-- `recordPhase`.
unfoldable pub record_phase : PkiRotation → Metrics → Metrics
unfolding record_phases role_string
record_phase pkir m =
    record_phases pkir.name (role_string pkir.spec.role) (phase_label pkir.status.phase) all_phases
      m

-- The inner loop of `forgetPhase`.
pub forget_phases : String → String → List String → Metrics → Metrics
forget_phases name role [] m = m
forget_phases name role (phase ∷ phases) m =
    forget_phases name role phases (record m { phase = set_series name role phase none m.phase })

-- `forgetPhase`.
unfoldable pub forget_phase : String → Metrics → Metrics
unfolding forget_phases
forget_phase name m =
    if name == ""
    then m
    else forget_phases name "" all_phases
        (forget_phases name "IntermediateCA" all_phases (forget_phases name "RootCA" all_phases m))

-- The two roles of the enumeration, and `downstreamKindCA` and `downstreamKindLeaf`.
abbrev pub all_roles : List String
all_roles = "RootCA" ∷ "IntermediateCA" ∷ []

abbrev pub all_kinds : List String
all_kinds = "ca" ∷ "leaf" ∷ []

-- A counter that `init` makes for each role.
abbrev pub zero_by_role : String → Option ℕ
zero_by_role r = if has_name r all_roles then some 0 else none

-- `init`: the counters by role are there from the start, the others are not.
abbrev pub initial_metrics : Metrics
initial_metrics = record {
  phase = λ n r p. none;
  transitions_total = λ r f t. none;
  downstream_reissued_total =
      λ r k. if has_name r all_roles && has_name k all_kinds then some 0 else none;
  skid_drift_total = zero_by_role;
  reissuance_timeouts_total = zero_by_role;
  stale_downstream_reissued_total = zero_by_role;
}

-- `Add(n)` on a series, which makes it if it is not there.
abbrev pub add : ℕ → Option ℕ → Option ℕ
add n none = some n
add n (some m) = some (m + n)

-- `if n > 0 { … Add(n) }`.
abbrev pub add_positive : ℕ → Option ℕ → Option ℕ
add_positive zero series = series
add_positive (suc n) series = add (suc n) series

abbrev pub at_role : String → (Option ℕ → Option ℕ) → (String → Option ℕ) → String → Option ℕ
at_role role change f r = if r == role then change (f r) else f r

-- `recordTransition`.
unfoldable pub record_transition : PkiRotation → Phase → Phase → Metrics → Metrics
unfolding role_string phase_string
record_transition pkir from to m = record m {
  transitions_total = λ r f t.
      if r == role_string pkir.spec.role && f == phase_label from && t == phase_string to
      then add 1 (m.transitions_total r f t)
      else m.transitions_total r f t;
}

-- `recordDownstreamReissued`.
unfoldable pub record_downstream_reissued : PkiRotation → ℕ → ℕ → Metrics → Metrics
unfolding role_string
record_downstream_reissued pkir ca_count leaf_count m = record m {
  downstream_reissued_total = λ r k.
      if r == role_string pkir.spec.role && k == "ca"
      then add_positive ca_count (m.downstream_reissued_total r k)
      else if r == role_string pkir.spec.role && k == "leaf"
      then add_positive leaf_count (m.downstream_reissued_total r k)
      else m.downstream_reissued_total r k;
}

-- `recordSKIDDrift`.
unfoldable pub record_skid_drift : PkiRotation → Metrics → Metrics
unfolding role_string
record_skid_drift pkir m = record m {
  skid_drift_total = at_role (role_string pkir.spec.role) (add 1) m.skid_drift_total;
}

-- `recordReissuanceTimeout`.
unfoldable pub record_reissuance_timeout : PkiRotation → Metrics → Metrics
unfolding role_string
record_reissuance_timeout pkir m = record m {
  reissuance_timeouts_total =
      at_role (role_string pkir.spec.role) (add 1) m.reissuance_timeouts_total;
}

-- `recordStaleDownstreamReissued`.
unfoldable pub record_stale_downstream_reissued : PkiRotation → ℕ → Metrics → Metrics
unfolding role_string
record_stale_downstream_reissued pkir count m = record m {
  stale_downstream_reissued_total =
      at_role (role_string pkir.spec.role) (add_positive count) m.stale_downstream_reissued_total;
}
