-- ===== src/Controller/History/Complete.antt =====
-- The induction on the runs of a root.
use private_pki_operator.Common.{inl, inr, sym, subst, false}
use private_pki_operator.Api.{
  Phase, unset, idle, preserving_old_root, dual_trust_active, awaiting_reissuance, verifying_chain,
  complete, other_phase,
}
use private_pki_operator.Cluster.{Client}
use private_pki_operator.Controller.Frame.Build.{StoresStatus}
use private_pki_operator.Controller.Graph.{
  Edge, renewal_seen, renewal_over, new_root_seen, both_roots_staged, reissued, verified, finished,
  started, recovered,
}
use private_pki_operator.Controller.History.{
  Reconciles, Run, begins, reconciled, at_once, later, Past, Rotated,
}
use private_pki_operator.Controller.History.Steps.{
  Reconciles-Follows, step-RenewalSeen, step-NewRootSeen, step-BothStaged, step-Awaited,
  step-Verified,
}

module _ {W : Type 0} (c : Client W) (law : StoresStatus c) where
  along :
      (p q : Phase)
      → Edge false p q
      → (run : Run c p) (r : Reconciles c p q) → Past c p run
      → Past c q (reconciled run r)
  along p q renewal_seen run r past = record {
    before = run;
    step = r;
    seen = step-RenewalSeen c law r;
    since = at_once;
  }
  along p q renewal_over run r past = tt
  along p q new_root_seen run r past = record {
    before = run;
    started = past;
    step = r;
    new_root = step-NewRootSeen c law r;
    since = at_once;
  }
  along p q both_roots_staged run r past = record {
    before = run;
    opened = past;
    step = r;
    both = step-BothStaged c law r;
    since = at_once;
  }
  along p q (reissued b) run r past = record {
    before = run;
    staged = past;
    step = r;
    awaited = step-Awaited c law r;
    since = at_once;
  }
  along p q (verified b) run r past = record {
    before = run;
    reissued = past;
    step = r;
    verified = step-Verified c law r;
    since = at_once;
  }
  along p q (finished b) run r past = tt
  along p q (started b) run r past = tt
  along p q (recovered b s) run r past = tt

  -- A reconcile that leaves the phase as it was leaves the past behind it.
  stay :
      (p : Phase) (run : Run c p) (r : Reconciles c p p)
      → Past c p run
      → Past c p (reconciled run r)
  stay preserving_old_root run r past = record {
    before = past.before;
    step = past.step;
    seen = past.seen;
    since = later past.since r;
  }
  stay dual_trust_active run r past = record {
    before = past.before;
    started = past.started;
    step = past.step;
    new_root = past.new_root;
    since = later past.since r;
  }
  stay awaiting_reissuance run r past = record {
    before = past.before;
    opened = past.opened;
    step = past.step;
    both = past.both;
    since = later past.since r;
  }
  stay verifying_chain run r past = record {
    before = past.before;
    staged = past.staged;
    step = past.step;
    awaited = past.awaited;
    since = later past.since r;
  }
  stay complete run r past = record {
    before = past.before;
    reissued = past.reissued;
    step = past.step;
    verified = past.verified;
    since = later past.since r;
  }
  stay unset run r past = tt
  stay idle run r past = tt
  stay (other_phase s) run r past = tt

  Run-Past : {p : Phase} (run : Run c p) → Past c p run
  Run-Past begins = tt
  Run-Past (reconciled {p} {q} run r) = elim (Reconciles-Follows c law r) [
    | inl same ↦
        subst (λ x. (y : Reconciles c p x) → Past c x (reconciled run y)) (sym same)
          (λ y. stay p run y (Run-Past run)) r
    | inr edge ↦ along p q edge run r (Run-Past run)
  ]

  -- If a status update gives back what was sent, then in a run that comes to Complete, in which the
  -- old root is taken from the trust bundle, there are, in this order, and with none between them
  -- but reconciles that left the phase as it was: a reconcile that saw a reason to start a
  -- rotation, one that saw a root with another key, one in which the API server took the staging
  -- ConfigMap with the root's certificate appended to what was read of it, one that saw both tiers
  -- of intermediates re-issued, and one that verified the chain; since that one the phase is
  -- Complete.
  pub Run-Rotated : (run : Run c complete) → Rotated c run
  Run-Rotated run = Run-Past run
