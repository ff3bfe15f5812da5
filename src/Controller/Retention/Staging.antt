-- ===== src/Controller/Retention/Staging.antt =====
-- extendStagingConfigMap, ensureStagingConfigMap and trimStagingConfigMap leave a certificate in the
-- staging ConfigMap.
use private_pki_operator.Common.{
  String, false, ◌≡◌, refl, sym, ◌⊎◌, inl, inr, subst, List, [], ◌∷◌, ◌==◌, eq_iff, some, none,
  arith, lookup-insert, if◌then◌else◌,
}
use private_pki_operator.Action.{text, Result, ok, err, panic, Action, pure, lift, within, ◌>>=◌}
use private_pki_operator.Action.Keeps.{
  Keeps, Keeps-pure, Keeps-crash, Keeps-bind, Keeps-if, Keeps-option,
}
use private_pki_operator.Action.Triple.{
  Outcome, Triple, Triple-gets, Triple-lift, Triple-within, Triple-Keeps, Keeps-Triple, Triple-bind,
}
use private_pki_operator.Api.{PkiRotation}
use private_pki_operator.Cluster.{Client, ConfigMap}
use private_pki_operator.Pki.Codec.{Bytes, IsLawful}
use private_pki_operator.Pki.Pem.{is_target, remove_pem_by_skid}
use private_pki_operator.Pki.Pem.Anchors.{
  IsAnchor, append_pem-IsAnchor, remove_pem_by_skid-IsAnchor,
}
use private_pki_operator.Controller.State.{State, call, get_pkir}
use private_pki_operator.Controller.TrustBundle.{
  trust_bundle_key, staged, stage, stage_or_make, get_staging_config_map, extend_staging_config_map,
  patch_trimmed, trim_staging_config_map,
}
use private_pki_operator.Controller.Frame.Build.{Preserves, Outside, Both, Keeps-call}
use private_pki_operator.Controller.Frame.Object.{Keeps-get_root_pem}

-- The rotation's staging ConfigMap is the one of this namespace and name.
abbrev pub AtStaging : String → String → PkiRotation → Type 0
AtStaging ns n x =
    (x.spec.trust_bundle.staging_config_map.namespace ≡ ns)
    × (x.spec.trust_bundle.staging_config_map.name ≡ n)

-- `J` says of the outside that the certificate `der` is in the ConfigMap: who reads the ConfigMap
-- sees it, and nobody takes it out but by writing a text without it.
pub record Guards {W : Type 0} (c : Client W) (der : Bytes) (ns n : String) (J : W → Type 0)
    : Type 0 where
  pub outside : Outside c J
  pub read :
      (w w' : W) (cm : ConfigMap)
      → J w
      → c.get_config_map ns n w ≡ (ok cm, w')
      → (cm.namespace ≡ ns) × (cm.name ≡ n) × IsAnchor c.codec der (staged cm)
  -- The API server refuses to create what exists.
  pub created : (cm : ConfigMap) → Preserves J (c.create_config_map cm)
  pub patched :
      (cm base : ConfigMap)
      → cm.namespace ≡ ns
      → cm.name ≡ n
      → IsAnchor c.codec der (staged cm)
      → Preserves J (c.patch_config_map cm base)

pub staged-stage :
    (pem : Bytes) (entries : List (String × Bytes)) (cm : ConfigMap)
    → staged (stage pem entries cm) ≡ pem
unfolding staged
staged-stage pem entries cm = ground (
  arith,
  lookup-insert entries trust_bundle_key pem trust_bundle_key,
  eq_iff trust_bundle_key trust_bundle_key,
)

module _ {W : Type 0} {c : Client W} {der : Bytes} {ns n : String} {J : W → Type 0}
    (guard : Guards c der ns n J) (R : PkiRotation → Type 0)
    (here : (x : PkiRotation) → R x → AtStaging ns n x) where
  -- A copy of the ConfigMap that has the certificate.
  abbrev HasAnchor : ConfigMap → Type 0
  HasAnchor cm = (cm.namespace ≡ ns) × (cm.name ≡ n) × IsAnchor c.codec der (staged cm)

  abbrev WasRead : ConfigMap → State W → Type 0
  WasRead cm s = HasAnchor cm × Both R J s

  read-Outcome :
      (s : State W) (r : Result ConfigMap) (w : W)
      → c.get_config_map ns n s.world ≡ (r, w)
      → Both R J s
      → J w
      → Outcome WasRead (Both R J) r (record s { world = w })
  read-Outcome s (ok cm) w e h j = (guard.read s.world w cm h.1 e, (h.0, j))
  read-Outcome s (err x) w e h j = (h.0, j)
  read-Outcome s (panic t) w e h j = (h.0, j)

  reads_staging :
      (x y : String)
      → x ≡ ns
      → y ≡ n
      → Triple (Both R J) (call (c.get_config_map x y)) WasRead (Both R J)
  unfolding call
  reads_staging x y e f = record {
    at = λ s h.
        rw (e, f)
          (let (r, w) = c.get_config_map ns n s.world in
            read-Outcome s r w refl h ((guard.outside.get_config_map_at ns n).at s.world h.1));
  }

  get_staging_triple : Triple (Both R J) (get_staging_config_map c) WasRead (Both R J)
  unfolding get_staging_config_map get_pkir
  get_staging_triple =
      Triple-bind {Q = λ x s. AtStaging ns n x × Both R J s} _ _
        (Triple-gets _ (λ s h. (here s.pkir h.0, h)))
        (λ x. record { at = λ s h. (reads_staging _ _ h.0.0 h.0.1).at s h.1 })

  Keeps-patch :
      (pem : Bytes) (entries : List (String × Bytes)) (cm : ConfigMap)
      → cm.namespace ≡ ns
      → cm.name ≡ n
      → IsAnchor c.codec der pem
      → Keeps (Both R J) (call (c.patch_config_map (stage pem entries cm) cm))
  Keeps-patch pem entries cm e f a = Keeps-call R J _ (
      guard.patched (stage pem entries cm) cm e f
        (subst (IsAnchor c.codec der) (sym (staged-stage pem entries cm)) a))

  Keeps-patch_extended :
      (pem : Bytes) (cm : ConfigMap)
      → HasAnchor cm
      → IsAnchor c.codec der pem
      → Keeps (Both R J) (call (c.patch_config_map (stage_or_make pem cm) cm))
  unfolding stage_or_make
  Keeps-patch_extended pem cm (e, f, _) a =
      elim cm.entries
        as (λ o. Keeps (Both R J) (
          call (
            c.patch_config_map
              (elim o [ none ↦ stage pem [] cm | some entries ↦ stage pem entries cm ]) cm))) [
                | none ↦ Keeps-patch pem [] cm e f a
                | some entries ↦ Keeps-patch pem entries cm e f a
              ]

  Keeps-tt : Keeps {S = State W} (Both R J) (pure tt)
  Keeps-tt = Keeps-pure tt

  -- A triple that begins with the ConfigMap having been read.
  read_triple :
      {A : Type 0} {m : ConfigMap → Action (State W) A}
      → ((cm : ConfigMap) → HasAnchor cm → Keeps (Both R J) (m cm))
      → (cm : ConfigMap) → Triple (WasRead cm) (m cm) (λ _. Both R J) (Both R J)
  read_triple k cm = record { at = λ s h. (Triple-Keeps (k cm h.0)).at s h.1 }

  -- `extendStagingConfigMap` leaves the certificate there.
  pub Keeps-extend : Keeps (Both R J) (extend_staging_config_map c)
  unfolding extend_staging_config_map
  Keeps-extend = Keeps-bind _ _ (Keeps-get_root_pem R J guard.outside) (λ new_root. Keeps-Triple (
      Triple-bind {Q = WasRead} _ _ (Triple-within _ _ get_staging_triple) (
        read_triple (λ cm h.
          Keeps-bind _ _
            (Keeps-patch_extended _ cm h (append_pem-IsAnchor c.codec der (staged cm) new_root h.2))
            (λ _. Keeps-tt)))))

  -- `trimStagingConfigMap` leaves it there, if its key identifier is not the old root's.
  module _ (law : IsLawful c.codec) (old : String)
      (spared : is_target c.codec old (record { header = []; bytes = der }) ≡ false)
      (settled : (x : PkiRotation)
        → R x
        → (x.status.previous_skid ≡ old) ⊎ (x.status.previous_skid ≡ "")) where
    Keeps-patch_trimmed :
        (trimmed : Bytes) (cm : ConfigMap)
        → HasAnchor cm
        → remove_pem_by_skid c.codec (staged cm) old ≡ ok trimmed
        → Keeps (Both R J) (patch_trimmed c trimmed cm)
    unfolding patch_trimmed
    Keeps-patch_trimmed trimmed cm (e, f, a) done =
        Keeps-option cm.entries _ _ (Keeps-crash _) (λ entries.
          Keeps-bind _ _
            (Keeps-patch trimmed entries cm e f
              (remove_pem_by_skid-IsAnchor c.codec law der (staged cm) trimmed old a spared done))
            (λ _. Keeps-tt))

    Keeps-trim_old :
        (cm : ConfigMap)
        → HasAnchor cm
        → Keeps (Both R J) (
            within
              (text "removing old root PEM" ∷ [])
              (lift (remove_pem_by_skid c.codec (staged cm) old))
            >>= λ trimmed. patch_trimmed c trimmed cm)
    Keeps-trim_old cm h = Keeps-Triple (
        Triple-bind
          {Q = λ trimmed s. (remove_pem_by_skid c.codec (staged cm) old ≡ ok trimmed) × Both R J s}
          _ _ (Triple-within _ _ (Triple-lift _ (λ trimmed e s k. (e, k)) (λ s k. k)))
          (λ trimmed. record {
            at = λ s k. (Triple-Keeps (Keeps-patch_trimmed trimmed cm h k.0)).at s k.1;
          }))

    Keeps-trim_from :
        (skid : String)
        → (skid ≡ old) ⊎ (skid ≡ "")
        → Keeps (Both R J) (
            if skid == ""
            then pure tt
            else (within (text "getting staging ConfigMap" ∷ []) (get_staging_config_map c)
                >>= λ cm.
                    within
                      (text "removing old root PEM" ∷ [])
                      (lift (remove_pem_by_skid c.codec (staged cm) skid))
                    >>= λ trimmed. patch_trimmed c trimmed cm))
    Keeps-trim_from skid (inl e) = rw e (
        Keeps-if (old == "") _ _ Keeps-tt (
          Keeps-Triple (
            Triple-bind {Q = WasRead} _ _ (Triple-within _ _ get_staging_triple)
              (read_triple Keeps-trim_old))))
    Keeps-trim_from skid (inr e) = rw e Keeps-tt

    pub Keeps-trim : Keeps (Both R J) (trim_staging_config_map c)
    unfolding trim_staging_config_map get_pkir
    Keeps-trim = Keeps-Triple (
        Triple-bind {Q = λ x s. R x × Both R J s} _ _ (Triple-gets _ (λ s h. (h.0, h)))
          (λ x. record { at = λ s k. (Triple-Keeps (Keeps-trim_from _ (settled x k.0))).at s k.1 }))
