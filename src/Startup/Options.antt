-- ===== src/Startup/Options.antt =====
-- cmd/main.go: the flags, and the options of the manager that they give. The scheme, the webhook
-- server and the filter are calls of controller-runtime; what the flags decide of them is kept.
use policy_operator.Base.{Bool, true, false, String, List, [], ◌∷◌, if◌then◌else◌}

pub record Flags : Type 0 where
  pub metrics_addr : String
  pub probe_addr : String
  pub enable_leader_election : Bool
  pub secure_metrics : Bool
  pub enable_http2 : Bool

-- The values of the flags that the command line does not set.
abbrev pub default_flags : Flags
default_flags = record {
  metrics_addr = "0";
  probe_addr = ":8081";
  enable_leader_election = false;
  secure_metrics = true;
  enable_http2 = false;
}

-- tls.Config, as far as the options change it
pub record TlsConfig : Type 0 where
  pub next_protos : List String

unfoldable pub disable_http2 : TlsConfig → TlsConfig
disable_http2 config = record config { next_protos = "http/1.1" ∷ [] }

abbrev pub tls_opts : Flags → List (TlsConfig → TlsConfig)
tls_opts flags = if flags.enable_http2 then [] else disable_http2 ∷ []

-- metricsserver.Options; `has_filter` says that the FilterProvider is set
pub record MetricsOptions : Type 0 where
  pub bind_address : String
  pub secure_serving : Bool
  pub tls_opts : List (TlsConfig → TlsConfig)
  pub has_filter : Bool

-- ctrl.Options; the webhook server is known by its TLS options
pub record ManagerOptions : Type 0 where
  pub metrics : MetricsOptions
  pub webhook_tls_opts : List (TlsConfig → TlsConfig)
  pub health_probe_bind_address : String
  pub leader_election : Bool
  pub leader_election_id : String

unfoldable pub manager_options : Flags → ManagerOptions
manager_options flags = record {
  metrics = record {
    bind_address = flags.metrics_addr;
    secure_serving = flags.secure_metrics;
    tls_opts = tls_opts flags;
    has_filter = flags.secure_metrics;
  };
  webhook_tls_opts = tls_opts flags;
  health_probe_bind_address = flags.probe_addr;
  leader_election = flags.enable_leader_election;
  leader_election_id = "76c3f13a.platform.io";
}
