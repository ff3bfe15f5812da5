-- ===== src/Controller/Frame/Build.antt =====
-- Frames from a predicate of the PKIRotation in memory and one of the outside.
use private_pki_operator.Common.{String, ◌≡◌, refl, Option, List, ℕ}
use private_pki_operator.Action.{Result, ok, err, panic, ◌>>=◌, handle, proceed, fail, modify}
use private_pki_operator.Action.Keeps.{Keeps, Keeps-bind, Keeps-gets, Keeps-pure}
use private_pki_operator.Api.{Phase, Condition, PkiRotation}
use private_pki_operator.Cluster.{Client, Certificate, Bundle}
use private_pki_operator.Metrics.{Metrics, record_phase}
use private_pki_operator.Controller.State.{
  State, Event, call, now, get_pkir, get_reader, set_pkir, set_status, set_metrics, record_event,
  update_status,
}
use private_pki_operator.Controller.Conditions.{transition_to, enter_phase}
use private_pki_operator.Controller.TrustBundle.{extend_staging_config_map, seed_staging_config_map}
use private_pki_operator.Controller.Frame.{Frame}

-- The call leaves the outside with `J`, if it had it.
pub record Preserves {W A : Type 0} (J : W → Type 0) (m : W → Result A × W) : Type 0 where
  pub at : (w : W) → J w → J (m w).1

-- The calls of the operator leave `J` alone, except perhaps its writes of ConfigMaps.
pub record Outside {W : Type 0} (c : Client W) (J : W → Type 0) : Type 0 where
  pub get_certificate_at : (ns n : String) → Preserves J (c.get_certificate ns n)
  pub get_secret_at : (ns n : String) → Preserves J (c.get_secret ns n)
  pub reader_at : (ns n : String) → Preserves J (get_reader c ns n)
  pub get_config_map_at : (ns n : String) → Preserves J (c.get_config_map ns n)
  pub get_bundle_at : (n : String) → Preserves J (c.get_bundle n)
  pub get_pki_rotation_at : (n : String) → Preserves J (c.get_pki_rotation n)
  pub list_cluster_issuers_at : Preserves J c.list_cluster_issuers
  pub list_issuers_at : Preserves J c.list_issuers
  pub list_certificates_at : (ns : Option String) → Preserves J (c.list_certificates ns)
  pub list_certificate_requests_at : (ns : String) → Preserves J (c.list_certificate_requests ns)
  pub list_pki_rotations_at : (l : Option (String × String)) → Preserves J (c.list_pki_rotations l)
  pub create_or_patch_at :
      (n : String) (f : PkiRotation → PkiRotation) → Preserves J (c.create_or_patch n f)
  pub update_status_at : (p : PkiRotation) → Preserves J (c.update_status p)
  pub patch_certificate_status_at :
      (cert base : Certificate) → Preserves J (c.patch_certificate_status cert base)
  pub patch_bundle_at : (b base : Bundle) → Preserves J (c.patch_bundle b base)
  pub create_bundle_at : (b : Bundle) → Preserves J (c.create_bundle b)
  pub now_at : (w : W) → J w → J (c.now w).1

-- What the API server stores comes back from a status update unchanged, and the rest of the object
-- is the one that was sent, since another one is refused as a conflict.
pub record StoresStatus {W : Type 0} (c : Client W) : Type 0 where
  pub stored :
      (p q : PkiRotation) (w w' : W)
      → c.update_status p w ≡ (ok q, w')
      → (q.status ≡ p.status) × (q.spec ≡ p.spec)

module _ {W : Type 0} (R : PkiRotation → Type 0) (J : W → Type 0) where
  abbrev pub Both : State W → Type 0
  Both s = R s.pkir × J s.world

  pub Keeps-call : {A : Type 0} (m : W → Result A × W) → Preserves J m → Keeps Both (call m)
  unfolding call
  Keeps-call m k = record { at = λ s h. (h.0, k.at s.world h.1) }

  pub Keeps-set_pkir :
      (f : PkiRotation → PkiRotation)
      → ((p : PkiRotation) → R p → R (f p))
      → Keeps Both (set_pkir f)
  unfolding set_pkir modify
  Keeps-set_pkir f k = record { at = λ s h. (k s.pkir h.0, h.1) }

  module _ {c : Client W} (law : StoresStatus c) (out : Outside c J)
      (closed : (p q : PkiRotation) → q.status ≡ p.status → q.spec ≡ p.spec → R p → R q) where
    after_update :
        (s : State W) (r : Result PkiRotation) (w : W)
        → c.update_status s.pkir s.world ≡ (r, w)
        → R s.pkir
        → J w
        → Both (proceed r (λ stored. set_pkir (λ _. stored)) fail (record s { world = w })).1
    unfolding set_pkir modify fail
    after_update s (ok q) w e h j =
        let (same_status, same_spec) = law.stored s.pkir q s.world w e in
        (closed s.pkir q same_status same_spec h, j)
    after_update s (err x) w e h j = (h, j)
    after_update s (panic t) w e h j = (h, j)

    pub Keeps-update_status : Keeps Both (update_status c)
    unfolding update_status ◌>>=◌ handle call
    Keeps-update_status = record {
      at = λ s h.
          let (r, w) = c.update_status s.pkir s.world in
          after_update s r w refl h.0 ((out.update_status_at s.pkir).at s.world h.1);
    }

    Keeps-now : Keeps Both (now c)
    unfolding now
    Keeps-now = Keeps-call (λ w. let (t, w') = c.now w in (ok t, w')) (record { at = out.now_at })

    Keeps-record_event : (e : Event) → Keeps Both (record_event e)
    unfolding record_event modify
    Keeps-record_event e = record { at = λ s h. h }

    Keeps-set_metrics : (f : PkiRotation → Metrics → Metrics) → Keeps Both (set_metrics f)
    unfolding set_metrics modify
    Keeps-set_metrics f = record { at = λ s h. h }

    Keeps-transition_to :
        (p : Phase)
        → ((t : ℕ) (x : PkiRotation) → R x → R (enter_phase p t x))
        → Keeps Both (transition_to c p)
    unfolding transition_to get_pkir
    Keeps-transition_to p k = Keeps-bind _ _ Keeps-now (λ t. Keeps-bind _ _ (Keeps-gets _) (λ x.
        Keeps-bind _ _ (Keeps-set_pkir _ (k t)) (λ _. Keeps-bind _ _ Keeps-update_status (λ _.
          Keeps-bind _ _ (Keeps-set_metrics _)
            (λ _. Keeps-bind _ _ (Keeps-set_metrics record_phase) (λ _. Keeps-pure 0))))))

    -- The frame: the phases that `R` lets be entered, and the changes of the status that keep `R`.
    pub frame :
        ((p : PkiRotation) (g : List Condition → List Condition)
          → R p
          → R (record p { status = record p.status { conditions = g p.status.conditions } }))
        → Keeps Both (seed_staging_config_map c)
        → Keeps Both (extend_staging_config_map c)
        → Frame c
            (λ p. (t : ℕ) (x : PkiRotation) → R x → R (enter_phase p t x))
            (λ f. (x : PkiRotation) → R x → R (record x { status = f x.status }))
            Both
    unfolding set_status
    frame conditions_at seed extend = record {
      keeps_get_certificate = λ ns n. Keeps-call _ (out.get_certificate_at ns n);
      keeps_get_secret = λ ns n. Keeps-call _ (out.get_secret_at ns n);
      keeps_reader_get_secret = λ ns n. Keeps-call _ (out.reader_at ns n);
      keeps_get_config_map = λ ns n. Keeps-call _ (out.get_config_map_at ns n);
      keeps_get_bundle = λ n. Keeps-call _ (out.get_bundle_at n);
      keeps_get_pki_rotation = λ n. Keeps-call _ (out.get_pki_rotation_at n);
      keeps_list_cluster_issuers = Keeps-call _ out.list_cluster_issuers_at;
      keeps_list_issuers = Keeps-call _ out.list_issuers_at;
      keeps_list_certificates = λ ns. Keeps-call _ (out.list_certificates_at ns);
      keeps_list_certificate_requests = λ ns. Keeps-call _ (out.list_certificate_requests_at ns);
      keeps_list_pki_rotations = λ l. Keeps-call _ (out.list_pki_rotations_at l);
      keeps_create_or_patch = λ n f. Keeps-call _ (out.create_or_patch_at n f);
      keeps_update_other = λ p. Keeps-call _ (out.update_status_at p);
      keeps_patch_certificate_status =
          λ cert base. Keeps-call _ (out.patch_certificate_status_at cert base);
      keeps_patch_bundle = λ b base. Keeps-call _ (out.patch_bundle_at b base);
      keeps_create_bundle = λ b. Keeps-call _ (out.create_bundle_at b);
      keeps_seed = seed;
      keeps_extend = extend;
      keeps_now = Keeps-now;
      keeps_update_status = Keeps-update_status;
      keeps_set_metrics = Keeps-set_metrics;
      keeps_record_event = Keeps-record_event;
      keeps_set_status = λ f k. Keeps-set_pkir _ k;
      allows_conditions = λ g x h. conditions_at x g h;
      keeps_transition_to = Keeps-transition_to;
    }
