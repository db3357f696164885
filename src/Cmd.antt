-- ===== src/Cmd.antt =====
-- The start of the operator: `main` of cmd/main.go. The command line is parsed by the library, so
-- the flags are given; log lines are left out.
pub mod Start
use magma_operator.Base.{
  String, Bool, true, false, Option, none, some, List, [], ◌∷◌, ◌++◌, ℕ, not, is_empty,
  if◌then◌else◌,
}
use magma_operator.Kube.Prog.{Error}

-- The variables that the flags set.
pub record Flags : Type 0 where
  pub metrics_addr : String
  pub metrics_cert_path : String
  pub metrics_cert_name : String
  pub metrics_cert_key : String
  pub webhook_cert_path : String
  pub webhook_cert_name : String
  pub webhook_cert_key : String
  pub enable_leader_election : Bool
  pub probe_addr : String
  pub secure_metrics : Bool
  pub enable_http2 : Bool

-- Their values where no flag is given.
abbrev pub default_flags : Flags
default_flags = record {
  metrics_addr = "0";
  metrics_cert_path = "";
  metrics_cert_name = "tls.crt";
  metrics_cert_key = "tls.key";
  webhook_cert_path = "";
  webhook_cert_name = "tls.crt";
  webhook_cert_key = "tls.key";
  enable_leader_election = false;
  probe_addr = ":8081";
  secure_metrics = true;
  enable_http2 = false;
}

-- The field of a `tls.Config` that the operator sets.
pub record TlsConfig : Type 0 where
  pub next_protos : List String

-- `disableHTTP2`
unfoldable pub disable_http2 : TlsConfig → TlsConfig
disable_http2 c = record c { next_protos = "http/1.1" ∷ [] }

-- `tlsOpts`
unfoldable pub initial_tls_opts : Flags → List (TlsConfig → TlsConfig)
initial_tls_opts flags = if not flags.enable_http2 then disable_http2 ∷ [] else []

-- `webhook.Options`
pub record WebhookOptions : Type 0 where
  pub cert_dir : String
  pub cert_name : String
  pub key_name : String
  pub tls_opts : List (TlsConfig → TlsConfig)

-- `metricsserver.Options`; `has_filter` is whether `FilterProvider` is set.
pub record MetricsOptions : Type 0 where
  pub bind_address : String
  pub secure_serving : Bool
  pub has_filter : Bool
  pub cert_dir : String
  pub cert_name : String
  pub key_name : String
  pub tls_opts : List (TlsConfig → TlsConfig)

-- `ctrl.Options`
pub record ManagerOptions : Type 0 where
  pub metrics : MetricsOptions
  pub webhook_server : WebhookOptions
  pub health_probe_bind_address : String
  pub leader_election : Bool
  pub leader_election_id : String

-- `webhookServerOptions`
unfoldable pub webhook_server_options : Flags → WebhookOptions
webhook_server_options flags =
    let options : WebhookOptions = record {
      cert_dir = "";
      cert_name = "";
      key_name = "";
      tls_opts = initial_tls_opts flags;
    } in
    if not (is_empty flags.webhook_cert_path)
    then record options {
      cert_dir = flags.webhook_cert_path;
      cert_name = flags.webhook_cert_name;
      key_name = flags.webhook_cert_key;
    }
    else options

-- `metricsServerOptions`
unfoldable pub metrics_server_options : Flags → MetricsOptions
metrics_server_options flags =
    let options : MetricsOptions = record {
      bind_address = flags.metrics_addr;
      secure_serving = flags.secure_metrics;
      has_filter = false;
      cert_dir = "";
      cert_name = "";
      key_name = "";
      tls_opts = initial_tls_opts flags;
    } in
    let filtered : MetricsOptions =
      if flags.secure_metrics then record options { has_filter = true } else options in
    if not (is_empty flags.metrics_cert_path)
    then record filtered {
      cert_dir = flags.metrics_cert_path;
      cert_name = flags.metrics_cert_name;
      key_name = flags.metrics_cert_key;
    }
    else filtered

unfoldable pub manager_options : Flags → ManagerOptions
manager_options flags = record {
  metrics = metrics_server_options flags;
  webhook_server = webhook_server_options flags;
  health_probe_bind_address = flags.probe_addr;
  leader_election = flags.enable_leader_election;
  leader_election_id = "5405d404.infra.don";
}

-- The calls of `main` that can fail: `ctrl.NewManager`, `SetupWithManager` of the two reconcilers,
-- `AddHealthzCheck`, `AddReadyzCheck` and `mgr.Start`.
pub data SetupStep : Type 0 where
  new_manager : ManagerOptions → SetupStep
  set_up_orc8r set_up_agw add_healthz_check add_readyz_check start : SetupStep

-- What was called, and the exit code.
pub record Exit : Type 0 where
  pub called : List SetupStep
  pub code : ℕ

-- One call after the other, where an error exits with the code 1.
unfoldable pub run_steps : List SetupStep → (SetupStep → Option Error) → Exit
run_steps [] answers = record { called = []; code = 0 }
run_steps (s ∷ ss) answers =
    let rest = run_steps ss answers in
    elim (answers s) [
      | none ↦ record { called = s ∷ rest.called; code = rest.code }
      | some _ ↦ record { called = s ∷ []; code = 1 }
    ]

abbrev pub setup_steps : Flags → List SetupStep
setup_steps flags =
    new_manager (manager_options flags)
    ∷ set_up_orc8r
    ∷ set_up_agw
    ∷ add_healthz_check
    ∷ add_readyz_check
    ∷ start
    ∷ []

-- `main`, given the flags and what each call answers.
unfoldable pub main : Flags → (SetupStep → Option Error) → Exit
main flags = run_steps (setup_steps flags)
