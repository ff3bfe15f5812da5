-- ===== src/Controller/Retention/BothRoots.antt =====
-- reconcileDualTrustActive: the new root is staged beside what was there before anything is
-- re-issued.
use private_pki_operator.Common.{◌≡◌, ◌≢◌, refl, inl, inr, [], ◌∷◌, some, none}
use private_pki_operator.Action.{ok, text, within}
use private_pki_operator.Action.Triple.{Triple, Triple-handle, Triple-from, Triple-after}
use private_pki_operator.Action.Runs.{within_ok, bind_ok}
use private_pki_operator.Action.Guard.{Guarded, Guarded-run, Guarded-Keeps, Guarded-reached}
use private_pki_operator.Api.{awaiting_reissuance}
use private_pki_operator.Cluster.{Client, ConfigMap}
use private_pki_operator.Pki.Codec.{Bytes}
use private_pki_operator.Pki.Pem.{append_pem}
use private_pki_operator.Controller.State.{State, call}
use private_pki_operator.Controller.Certificates.{get_root_pem}
use private_pki_operator.Controller.TrustBundle.{
  staged, stage, stage_or_make, get_staging_config_map, extend_staging_config_map,
}
use private_pki_operator.Controller.Phases.{reconcile_dual_trust_active}
use private_pki_operator.Controller.Frame.Build.{StoresStatus}
use private_pki_operator.Controller.Frame.Object.{OfObject}
use private_pki_operator.Controller.Frame.Phases.{IsNot, IsNot-frame}
use private_pki_operator.Controller.Frame.Handlers.{Keeps-staging_failed}
use private_pki_operator.Controller.Retention.Staging.{staged-stage}

-- The API server took a ConfigMap whose text is the one that was read, with the root's certificate
-- appended.
pub record BothStaged {W : Type 0} (c : Client W) (s : State W) : Type 0 where
  pub new_root : Bytes
  pub s1 : State W
  pub root_read : get_root_pem c s ≡ (ok new_root, s1)
  pub cm : ConfigMap
  pub s2 : State W
  pub map_read : get_staging_config_map c s1 ≡ (ok cm, s2)
  pub written : ConfigMap
  pub stored : ConfigMap
  pub s3 : State W
  pub accepted : call (c.patch_config_map written cm) s2 ≡ (ok stored, s3)
  pub text_is : staged written ≡ append_pem c.codec (staged cm) new_root

staged-stage_or_make : (pem : Bytes) (cm : ConfigMap) → staged (stage_or_make pem cm) ≡ pem
unfolding stage_or_make
staged-stage_or_make pem cm =
    elim cm.entries
      as (λ o.
        staged (elim o [ none ↦ stage pem [] cm | some entries ↦ stage pem entries cm ]) ≡ pem) [
          | none ↦ staged-stage pem [] cm
          | some entries ↦ staged-stage pem entries cm
        ]

module _ {W : Type 0} (c : Client W) where
  extend-BothStaged :
      (s s' : State W) → extend_staging_config_map c s ≡ (ok tt, s') → BothStaged c s
  unfolding extend_staging_config_map
  extend-BothStaged s s' e =
      let (new_root, s1, root_read, next) = bind_ok (get_root_pem c) _ s tt s' e in
      let (cm, s2, map_read, last) =
        bind_ok (within (text "getting staging ConfigMap" ∷ []) (get_staging_config_map c)) _ s1 tt
          s' next in
      let written = stage_or_make (append_pem c.codec (staged cm) new_root) cm in
      let (stored, s3, accepted, _) =
        bind_ok (call (c.patch_config_map written cm)) _ s2 tt s' last in
      record {
        new_root = new_root;
        s1 = s1;
        root_read = root_read;
        cm = cm;
        s2 = s2;
        map_read = within_ok _ _ s1 s2 cm map_read;
        written = written;
        stored = stored;
        s3 = s3;
        accepted = accepted;
        text_is = staged-stage_or_make (append_pem c.codec (staged cm) new_root) cm;
      }

module _ {W : Type 0} (c : Client W) (law : StoresStatus c) (s0 : State W) where
  abbrev Watched : State W → Type 0
  Watched = Guarded (OfObject c (IsNot awaiting_reissuance)) (BothStaged c s0)

  guard_dual_trust :
      OfObject c (IsNot awaiting_reissuance) s0
      → Triple (λ x. x ≡ s0) (reconcile_dual_trust_active c) (λ _. Watched) Watched
  unfolding reconcile_dual_trust_active
  guard_dual_trust h0 =
      let F = IsNot-frame c law awaiting_reissuance in
      Triple-handle _ _ _ (Guarded-run _ s0 F.keeps_extend h0)
        (λ _. Triple-from (λ s1 (run, h1). Guarded-reached _ s1 (extend-BothStaged c s0 s1 run)))
        (λ e. Triple-from (λ s1 h. elim h [
          | inl still ↦ Guarded-Keeps _ s1 (Keeps-staging_failed F e) still
          | inr v ↦ Guarded-reached _ s1 v
        ]))

  -- A root goes on from the dual-trust window to the re-issuance only if the API server took the
  -- staging ConfigMap that has what was read of it with the root's certificate appended.
  pub reconcile_dual_trust_active-BothStaged :
      s0.pkir.status.phase ≢ awaiting_reissuance
      → (reconcile_dual_trust_active c s0).1.pkir.status.phase ≡ awaiting_reissuance
      → BothStaged c s0
  reconcile_dual_trust_active-BothStaged h e =
      elim (Triple-after (guard_dual_trust (h, tt)) s0 refl) [
        | inl (still, _) ↦ absurd (still e)
        | inr v ↦ v
      ]
