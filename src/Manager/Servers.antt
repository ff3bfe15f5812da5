-- ===== src/Manager/Servers.antt =====
-- cmd/main.go: the options of the manager, against the flags that they are made of.
use private_pki_operator.Common.{
  ◌≡◌, ◌≢◌, ◌⊎◌, inl, inr, Bool-cases, refl, String, Option, none, some, List, [], ◌∷◌,
  if◌then◌else◌, eq_iff, ◌==◌, arith,
}
use private_pki_operator.Manager.{
  OperatorFlags, CertFiles, TlsConfig, TlsOption, tls_options, cert_files, manager_options,
  ManagerOptions, webhook_server, metrics_options,
}

-- The server's configuration once the options were applied in turn.
abbrev pub configured : List TlsOption → TlsConfig → TlsConfig
configured [] c = c
configured (o ∷ os) c = configured os (o c)

-- What a server offers: HTTP/1.1 alone, unless HTTP/2 was asked for.
abbrev pub offered : OperatorFlags → TlsConfig → Option (List String)
offered f c = if f.enable_http2 then c.next_protos else some ("http/1.1" ∷ [])

-- The files that a server watches: none if no path was given, and otherwise the ones named.
abbrev pub Watches : Option CertFiles → String → String → String → Type 0
Watches files path name key =
    ((path ≡ "") × (files ≡ none))
    ⊎ ((path ≢ "") × (files ≡ some (record { dir = path; name = name; key = key })))

-- Both servers of the manager offer HTTP/1.1 alone unless HTTP/2 was enabled; metrics are served by
-- TLS, and behind the filter, exactly when the flag for that is set; a server watches certificate
-- files exactly when their path was given, and then the ones that the flags name; and the addresses
-- are the ones of the flags.
pub record IsGuarded (f : OperatorFlags) (o : ManagerOptions) : Type 0 where
  pub metrics_protocols :
      (c : TlsConfig) → (configured o.metrics.tls_opts c).next_protos ≡ offered f c
  pub webhook_protocols :
      (c : TlsConfig) → (configured o.webhook.tls_opts c).next_protos ≡ offered f c
  pub secure : o.metrics.secure_serving ≡ f.secure_metrics
  pub filtered : o.metrics.has_filter ≡ f.secure_metrics
  pub metrics_files :
      Watches o.metrics.files f.metrics_cert_path f.metrics_cert_name f.metrics_cert_key
  pub webhook_files :
      Watches o.webhook.files f.webhook_cert_path f.webhook_cert_name f.webhook_cert_key
  pub metrics_address : o.metrics.bind_address ≡ f.metrics_addr
  pub probe_address : o.probe_address ≡ f.probe_addr

configured-tls_options :
    (f : OperatorFlags) (c : TlsConfig) → (configured (tls_options f) c).next_protos ≡ offered f c
unfolding tls_options
configured-tls_options f c = ground arith

cert_files-Watches : (path name key : String) → Watches (cert_files path name key) path name key
unfolding cert_files
cert_files-Watches path name key = elim (Bool-cases (path == "")) [
  | inl empty ↦ inl ((eq_iff path "").0 empty, rw empty refl)
  | inr given ↦ inr (λ e. absurd (cc (given, (eq_iff path "").1 e)), rw given refl)
]

pub manager_options-IsGuarded :
    (f : OperatorFlags) → IsGuarded f (manager_options f (tls_options f))
unfolding manager_options webhook_server metrics_options
manager_options-IsGuarded f = record {
  metrics_protocols = configured-tls_options f;
  webhook_protocols = configured-tls_options f;
  secure = refl;
  filtered = refl;
  metrics_files = cert_files-Watches f.metrics_cert_path f.metrics_cert_name f.metrics_cert_key;
  webhook_files = cert_files-Watches f.webhook_cert_path f.webhook_cert_name f.webhook_cert_key;
  metrics_address = refl;
  probe_address = refl;
}
