-- ===== src/Controller/Example.antt =====
-- A root's rotation in a cluster in memory, for the examples.
use private_pki_operator.Common.{
  ℕ, String, Bool, true, false, ◌≡◌, refl, sym, ap, subst, none, some, Option, [], ◌∷◌, ◌++◌, ◌==◌,
  ◌&&◌, if◌then◌else◌,
}
use private_pki_operator.Action.{Error, ok, err}
use private_pki_operator.Api.{Phase, unset, default_role, PkiRotation, empty_status}
use private_pki_operator.Cluster.{Certificate, ConfigMap, Secret}
use private_pki_operator.Cluster.Memory.{World, memory, found_map, created_map}
use private_pki_operator.Metrics.{initial_metrics}
use private_pki_operator.Pki.Codec.{Bytes}
use private_pki_operator.Pki.Toy.{toy_codec}
use private_pki_operator.Pki.Pem.Anchors.{IsAnchor}
use private_pki_operator.Controller.State.{State, get_reader}
use private_pki_operator.Controller.TrustBundle.{staged}
use private_pki_operator.Controller.Frame.Build.{StoresStatus, Outside}
use private_pki_operator.Controller.Retention.Staging.{Guards}

-- A certificate in memory, by its key identifier and its signer's.
abbrev pub der_of : ℕ → ℕ → Bytes
der_of skid akid = skid ∷ akid ∷ []

abbrev pub pem_of : ℕ → ℕ → Bytes
pem_of skid akid = toy_codec.encode_to_memory (record { header = []; bytes = der_of skid akid })

abbrev pub secret_of : ℕ → ℕ → Secret
secret_of skid akid = record { entries = ("tls.crt", pem_of skid akid) ∷ [] }

abbrev pub certificate : String → String → Bool → ℕ → Certificate
certificate name issuer is_ca issued = record {
  namespace = "pki";
  name = name;
  secret_name = name;
  issuer_ref = record { name = issuer; kind = "ClusterIssuer" };
  is_ca = is_ca;
  conditions = record { type = "Ready"; status = "True" } ∷ [];
  not_before = some issued;
}

abbrev pub rotation : Phase → PkiRotation
rotation phase = record {
  name = "rotation";
  uid = "1";
  labels = [];
  owner_references = [];
  spec = record {
    root_ca_ref = record { certificate_name = "root"; certificate_namespace = "pki" };
    trust_bundle = record {
      name = "bundle";
      staging_config_map = record { name = "staging"; namespace = "trust" };
    };
    reissuance_timeout = 0;
    role = default_role;
    intermediate_ca_ref = none;
  };
  status = record empty_status { phase = phase; current_skid = "02"; previous_skid = "01" };
}

abbrev pub staging : ConfigMap
staging = record {
  namespace = "trust";
  name = "staging";
  labels = [];
  entries = some (("ca.crt", pem_of 1 1 ++ pem_of 2 2) ∷ []);
}

-- The old root 01, the new root 02, the intermediate 03 and a leaf 04, all renewed.
abbrev pub world : Phase → World
world phase = record {
  rotation = rotation phase;
  certificates =
      certificate "root" "self-signed" true 5
      ∷ certificate "intermediate" "root-issuer" true 6
      ∷ certificate "leaf" "intermediate-issuer" false 7
      ∷ [];
  cluster_issuers =
      record { namespace = ""; name = "root-issuer"; ca = some "root" }
      ∷ record { namespace = ""; name = "intermediate-issuer"; ca = some "intermediate" }
      ∷ [];
  issuers = [];
  secrets =
      ("root", secret_of 2 2) ∷ ("intermediate", secret_of 3 2) ∷ ("leaf", secret_of 4 3) ∷ [];
  requests = [];
  config_map = some staging;
  bundle = none;
  clock = 9;
}

abbrev pub start : Phase → State World
start phase = record {
  world = world phase;
  pkir = rotation unset;
  metrics = initial_metrics;
  events = [];
}

pub memory-StoresStatus : StoresStatus memory
memory-StoresStatus = record { stored = λ p q w w' e. (cc, cc) }

-- The ConfigMap in memory has the certificate.
abbrev pub InMap : Bytes → Option ConfigMap → Type 0
InMap der none = ⊥
InMap der (some cm) =
    (cm.namespace ≡ "trust") × (cm.name ≡ "staging") × IsAnchor toy_codec der (staged cm)

picked :
    (b : Bool) (old cm : ConfigMap) (e : Error) → (if b then ok old else err e) ≡ ok cm → old ≡ cm
picked true old cm e h = cc
picked false old cm e h = absurd cc

module _ (der : Bytes) where
  abbrev pub InWorld : World → Type 0
  InWorld w = InMap der w.config_map

  memory-Outside : Outside memory InWorld
  unfolding get_reader
  memory-Outside = record {
    get_certificate_at = λ ns n. record { at = λ w h. h };
    get_secret_at = λ ns n. record { at = λ w h. h };
    reader_at = λ ns n. record { at = λ w h. h };
    get_config_map_at = λ ns n. record { at = λ w h. h };
    get_bundle_at = λ n. record { at = λ w h. h };
    get_pki_rotation_at = λ n. record { at = λ w h. h };
    list_cluster_issuers_at = record { at = λ w h. h };
    list_issuers_at = record { at = λ w h. h };
    list_certificates_at = λ ns. record { at = λ w h. h };
    list_certificate_requests_at = λ ns. record { at = λ w h. h };
    list_pki_rotations_at = λ l. record { at = λ w h. h };
    create_or_patch_at = λ n f. record { at = λ w h. h };
    update_status_at = λ p. record { at = λ w h. h };
    patch_certificate_status_at = λ cert base. record { at = λ w h. h };
    patch_bundle_at = λ b base. record { at = λ w h. h };
    create_bundle_at = λ b. record { at = λ w h. h };
    now_at = λ w h. h;
  }

  read_map :
      (o : Option ConfigMap) (cm : ConfigMap)
      → InMap der o
      → found_map "trust" "staging" o ≡ ok cm
      → InMap der (some cm)
  read_map none cm h e = absurd h
  read_map (some old) cm h e =
      subst (λ x. InMap der (some x))
        (picked (old.namespace == "trust" && old.name == "staging") old cm _ e) h

  create_keeps :
      (cm : ConfigMap) (w : World) (o : Option ConfigMap)
      → w.config_map ≡ o
      → InMap der o
      → InWorld (created_map cm w o).1
  create_keeps cm w none e h = absurd h
  create_keeps cm w (some old) e h = subst (InMap der) (sym e) h

  pub memory-Guards : Guards memory der "trust" "staging" InWorld
  memory-Guards = record {
    outside = memory-Outside;
    read = λ w w' cm h e. read_map w.config_map cm h (ap (λ x. x.0) e);
    created = λ cm. record { at = λ w h. create_keeps cm w w.config_map refl h };
    patched = λ cm base same_ns same_n a. record { at = λ w h. (same_ns, same_n, a) };
  }
