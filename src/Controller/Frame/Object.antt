-- ===== src/Controller/Frame/Object.antt =====
-- Frames that speak of the PKIRotation alone, and how the staging ConfigMap's writes keep a frame's
-- predicate of the outside.
use private_pki_operator.Common.{String, ◌≡◌, List, ℕ}
use private_pki_operator.Action.{Message, Result}
use private_pki_operator.Action.Keeps.{Keeps, keeps_rules}
use private_pki_operator.Api.{Condition, PkiRotation}
use private_pki_operator.Cluster.{Client, Secret, ConfigMap}
use private_pki_operator.Pki.Codec.{Bytes}
use private_pki_operator.Controller.State.{State, call, get_pkir}
use private_pki_operator.Controller.Conditions.{enter_phase}
use private_pki_operator.Controller.Certificates.{get_root_certificate, get_root_pem, tls_crt}
use private_pki_operator.Controller.TrustBundle.{
  get_staging_config_map, extend_staging_config_map, patch_trimmed, trim_staging_config_map,
  seed_staging_config_map,
}
use private_pki_operator.Controller.Frame.{Frame}
use private_pki_operator.Controller.Frame.Build.{
  Preserves, Outside, StoresStatus, Both, Keeps-call, frame,
}

module _ {W : Type 0} (R : PkiRotation → Type 0) (J : W → Type 0) where
  Keeps-tls_crt :
      (m : Message) (secret : Secret) → Keeps {S = State W} (Both R J) (tls_crt m secret)
  unfolding tls_crt
  Keeps-tls_crt m secret = search keeps_rules

  module _ {c : Client W} (out : Outside c J) where
    get_certificate_rule : (ns n : String) → Keeps (Both R J) (call (c.get_certificate ns n))
    get_certificate_rule ns n = Keeps-call R J _ (out.get_certificate_at ns n)

    get_secret_rule : (ns n : String) → Keeps (Both R J) (call (c.get_secret ns n))
    get_secret_rule ns n = Keeps-call R J _ (out.get_secret_at ns n)

    pub Keeps-get_root_pem : Keeps (Both R J) (get_root_pem c)
    unfolding get_root_pem get_root_certificate get_pkir
    Keeps-get_root_pem =
        let certs = get_certificate_rule in
        let secrets = get_secret_rule in search (keeps_rules, Keeps-tls_crt) depth 12

    pub Keeps-seed :
        ((cm : ConfigMap) → Preserves J (c.create_config_map cm))
        → Keeps (Both R J) (seed_staging_config_map c)
    unfolding seed_staging_config_map get_pkir
    Keeps-seed k =
        let pem = Keeps-get_root_pem in
        let create = λ (cm : ConfigMap). Keeps-call R J _ (k cm) in search (keeps_rules)

    pub Keeps-get_staging_config_map : Keeps (Both R J) (get_staging_config_map c)
    unfolding get_staging_config_map get_pkir
    Keeps-get_staging_config_map =
        let get = λ (ns n : String). Keeps-call R J _ (out.get_config_map_at ns n) in
        search keeps_rules

    pub Keeps-extend :
        ((cm base : ConfigMap) → Preserves J (c.patch_config_map cm base))
        → Keeps (Both R J) (extend_staging_config_map c)
    unfolding extend_staging_config_map
    Keeps-extend k =
        let pem = Keeps-get_root_pem in
        let get = Keeps-get_staging_config_map in
        let patch = λ (cm base : ConfigMap). Keeps-call R J _ (k cm base) in search (keeps_rules)

-- Nothing is asked of the outside.
abbrev pub Anything : {W : Type 0} → W → Type 0
Anything _ = Unit

module _ {W : Type 0} (c : Client W) where
  pub Anything-at : {A : Type 0} (m : W → Result A × W) → Preserves Anything m
  Anything-at m = record { at = λ w h. tt }

  anything : Outside c Anything
  anything = record {
    get_certificate_at = λ ns n. Anything-at _;
    get_secret_at = λ ns n. Anything-at _;
    reader_at = λ ns n. Anything-at _;
    get_config_map_at = λ ns n. Anything-at _;
    get_bundle_at = λ n. Anything-at _;
    get_pki_rotation_at = λ n. Anything-at _;
    list_cluster_issuers_at = Anything-at _;
    list_issuers_at = Anything-at _;
    list_certificates_at = λ ns. Anything-at _;
    list_certificate_requests_at = λ ns. Anything-at _;
    list_pki_rotations_at = λ l. Anything-at _;
    create_or_patch_at = λ n f. Anything-at _;
    update_status_at = λ p. Anything-at _;
    patch_certificate_status_at = λ cert base. Anything-at _;
    patch_bundle_at = λ b base. Anything-at _;
    create_bundle_at = λ b. Anything-at _;
    now_at = λ w h. tt;
  }

  -- What a frame of the PKIRotation alone says of a state.
  abbrev pub OfObject : (PkiRotation → Type 0) → State W → Type 0
  OfObject R = Both R Anything

  pub object_frame :
      StoresStatus c
      → (R : PkiRotation → Type 0)
      → ((p q : PkiRotation) → q.status ≡ p.status → q.spec ≡ p.spec → R p → R q)
      → ((p : PkiRotation) (g : List Condition → List Condition)
          → R p
          → R (record p { status = record p.status { conditions = g p.status.conditions } }))
      → Frame c
          (λ p. (t : ℕ) (x : PkiRotation) → R x → R (enter_phase p t x))
          (λ f. (x : PkiRotation) → R x → R (record x { status = f x.status }))
          (OfObject R)
  object_frame law R closed conditions_at =
      frame R Anything law anything closed conditions_at
        (Keeps-seed R Anything anything (λ cm. Anything-at _))
        (Keeps-extend R Anything anything (λ cm base. Anything-at _))

  Keeps-patch_trimmed :
      (R : PkiRotation → Type 0) (trimmed : Bytes) (cm : ConfigMap)
      → Keeps (OfObject R) (patch_trimmed c trimmed cm)
  unfolding patch_trimmed
  Keeps-patch_trimmed R trimmed cm =
      let patch = λ (cm base : ConfigMap).
        Keeps-call R Anything _ (Anything-at (c.patch_config_map cm base)) in
      search keeps_rules

  pub Keeps-trim : (R : PkiRotation → Type 0) → Keeps (OfObject R) (trim_staging_config_map c)
  unfolding trim_staging_config_map get_pkir
  Keeps-trim R =
      let get = Keeps-get_staging_config_map R Anything anything in
      let patch = Keeps-patch_trimmed R in search keeps_rules depth 9
