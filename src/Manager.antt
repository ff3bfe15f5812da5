-- ===== src/Manager.antt =====
-- ci/private-pki-operator/cmd/main.go: the flags, the options that are made of them, and the start of
-- the manager. The flag package, controller-runtime and zap are not code of the repository: what is
-- called of them is the parameter `Platform`.
pub mod Servers
pub mod Launch
pub mod Tests
use private_pki_operator.Common.{
  ℕ, String, Bool, true, false, Option, none, some, List, [], ◌∷◌, if◌then◌else◌, ◌==◌, not,
}
use private_pki_operator.Action.{Result, Action, pure, crash, handle}

-- `operatorFlags`, less the options of zap.
pub record OperatorFlags : Type 0 where
  pub metrics_addr : String
  pub probe_addr : String
  pub metrics_cert_path : String
  pub metrics_cert_name : String
  pub metrics_cert_key : String
  pub webhook_cert_path : String
  pub webhook_cert_name : String
  pub webhook_cert_key : String
  pub enable_leader_election : Bool
  pub secure_metrics : Bool
  pub enable_http2 : Bool

-- `registerFlags`: the values before the command line is read.
abbrev pub default_flags : OperatorFlags
default_flags = record {
  metrics_addr = "0";
  probe_addr = ":8081";
  metrics_cert_path = "";
  metrics_cert_name = "tls.crt";
  metrics_cert_key = "tls.key";
  webhook_cert_path = "";
  webhook_cert_name = "tls.crt";
  webhook_cert_key = "tls.key";
  enable_leader_election = false;
  secure_metrics = true;
  enable_http2 = false;
}

-- `tls.Config`, by the protocols that are offered; none is the library's choice.
pub record TlsConfig : Type 0 where
  pub next_protos : Option (List String)

abbrev pub TlsOption : Type 0
TlsOption = TlsConfig → TlsConfig

-- `tlsOptions`.
unfoldable pub tls_options : OperatorFlags → List TlsOption
tls_options f =
    if f.enable_http2 then [] else (λ c. record c { next_protos = some ("http/1.1" ∷ []) }) ∷ []

-- The certificate that a server watches: its directory, name and key; none if no path was given.
pub record CertFiles : Type 0 where
  pub dir : String
  pub name : String
  pub key : String

-- `len(path) > 0`.
unfoldable pub cert_files : String → String → String → Option CertFiles
cert_files path name key =
    if path == "" then none else some (record { dir = path; name = name; key = key })

-- `webhook.Options`.
pub record WebhookOptions : Type 0 where
  pub tls_opts : List TlsOption
  pub files : Option CertFiles

-- `webhookServer`.
unfoldable pub webhook_server : OperatorFlags → List TlsOption → WebhookOptions
unfolding cert_files
webhook_server f tls_opts = record {
  tls_opts = tls_opts;
  files = cert_files f.webhook_cert_path f.webhook_cert_name f.webhook_cert_key;
}

-- `metricsserver.Options`; is a filter with authentication and authorization set?
pub record MetricsOptions : Type 0 where
  pub bind_address : String
  pub secure_serving : Bool
  pub tls_opts : List TlsOption
  pub has_filter : Bool
  pub files : Option CertFiles

-- `metricsOptions`.
unfoldable pub metrics_options : OperatorFlags → List TlsOption → MetricsOptions
unfolding cert_files
metrics_options f tls_opts = record {
  bind_address = f.metrics_addr;
  secure_serving = f.secure_metrics;
  tls_opts = tls_opts;
  has_filter = f.secure_metrics;
  files = cert_files f.metrics_cert_path f.metrics_cert_name f.metrics_cert_key;
}

-- `ctrl.Options`; `cached_namespaces` has the kinds whose cache is restricted.
pub record ManagerOptions : Type 0 where
  pub metrics : MetricsOptions
  pub cached_namespaces : List (String × List String)
  pub webhook : WebhookOptions
  pub probe_address : String
  pub leader_election : Bool
  pub leader_election_id : String

-- `managerOptions`.
unfoldable pub manager_options : OperatorFlags → List TlsOption → ManagerOptions
unfolding webhook_server metrics_options
manager_options f tls_opts = record {
  metrics = metrics_options f tls_opts;
  cached_namespaces =
      ("ConfigMap", "cert-manager" ∷ []) ∷ ("CertificateRequest", "cert-manager" ∷ []) ∷ [];
  webhook = webhook_server f tls_opts;
  probe_address = f.probe_addr;
  leader_election = f.enable_leader_election;
  leader_election_id = "8f0676ae.adaptive-enforcement-lab.com";
}

-- What `flag.Parse` does: it sets the flags, or ends the process, with 0 when it was asked for help
-- and with 2 on a flag that it does not know.
pub data Parsed : Type 0 where
  parsed : OperatorFlags → Parsed
  exits : ℕ → Parsed

-- What `main` calls, over the state of the process.
pub record Platform (P : Type 0) : Type 0 where
  -- `flag.Parse`, from the values of `registerFlags`, and the logger.
  pub parse_flags : OperatorFlags → P → Parsed × P
  -- `ctrl.NewManager(ctrl.GetConfigOrDie(), …)`; the two end the process alike.
  pub new_manager : ManagerOptions → P → Result (Unit {0}) × P
  -- `SetupWithManager`.
  pub set_up_controller : P → Result (Unit {0}) × P
  -- `metrics.Registry.Register` of the fleet collector.
  pub register_fleet_collector : P → Result (Unit {0}) × P
  -- `AddHealthzCheck` and `AddReadyzCheck`.
  pub add_healthz_check : P → Result (Unit {0}) × P
  pub add_readyz_check : P → Result (Unit {0}) × P
  -- `mgr.Start`, which returns when the process is told to stop.
  pub start_manager : P → Result (Unit {0}) × P

module _ {P : Type 0} where
  -- `if err := …; err != nil { …; os.Exit(1) }`, and what follows. The result is the exit code.
  unfoldable pub or_exit : Action P Unit → Action P ℕ → Action P ℕ
  or_exit m next = handle m (λ _. next) (λ _. pure 1)

  -- `MustRegister`, which panics on an error, and what follows.
  unfoldable pub must : Action P Unit → Action P ℕ → Action P ℕ
  must m next = handle m (λ _. next) (λ _. crash "MustRegister")

module _ {P : Type 0} (p : Platform P) where
  -- `main` after the flags.
  unfoldable pub run_manager : OperatorFlags → Action P ℕ
  unfolding tls_options manager_options
  run_manager flags = or_exit (p.new_manager (manager_options flags (tls_options flags))) (
      or_exit p.set_up_controller (
        must p.register_fleet_collector (
          or_exit p.add_healthz_check
            (or_exit p.add_readyz_check (or_exit p.start_manager (pure 0))))))

  -- What `main` does with what `flag.Parse` did.
  abbrev pub run_parsed : Parsed → Action P ℕ
  run_parsed (parsed flags) = run_manager flags
  run_parsed (exits code) = pure code

  -- `main`, with the exit code.
  unfoldable pub main : Action P ℕ
  main s = let (r, s1) = p.parse_flags default_flags s in run_parsed r s1
