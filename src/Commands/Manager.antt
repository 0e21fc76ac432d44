-- ===== src/Commands/Manager.antt =====
-- cmd/main.go, which starts the operator, and SetupWithManager of the two controllers.
pub mod Order
use edge_fleet_operator_demo.Base.{
  ℕ, String, Bool, true, false, Option, none, some, List, [], ◌∷◌, ◌++◌, str_eq, if◌then◌else◌,
}

-- tls.Config: the protocols that it offers; the program sets no other field of it.
pub record TlsConfig : Type 0 where
  pub next_protos : List String

-- webhook.Options
pub record WebhookOptions : Type 0 where
  pub tls_opts : List (TlsConfig → TlsConfig)
  pub cert_dir : String
  pub cert_name : String
  pub key_name : String

-- filters.WithAuthenticationAndAuthorization, the one filter that the program uses.
pub data Filter : Type 0 where
  with_authentication_and_authorization : Filter

-- metricsserver.Options
pub record MetricsOptions : Type 0 where
  pub bind_address : String
  pub secure_serving : Bool
  pub tls_opts : List (TlsConfig → TlsConfig)
  pub filter_provider : Option Filter
  pub cert_dir : String
  pub cert_name : String
  pub key_name : String

-- ctrl.Options, with the options of the webhook server for the server.
pub record ManagerOptions : Type 0 where
  pub metrics : MetricsOptions
  pub webhook : WebhookOptions
  pub health_probe_bind_address : String
  pub leader_election : Bool
  pub leader_election_id : String

pub record Flags : Type 0 where
  pub heartbeat_timeout : ℕ
  pub metrics_addr : String
  pub probe_addr : String
  pub enable_leader_election : Bool
  pub secure_metrics : Bool
  pub webhook_cert_path : String
  pub webhook_cert_name : String
  pub webhook_cert_key : String
  pub metrics_cert_path : String
  pub metrics_cert_name : String
  pub metrics_cert_key : String
  pub enable_http2 : Bool

-- The flags that are not given; a duration is in nanoseconds.
abbrev pub default_flags : Flags
default_flags = record {
  heartbeat_timeout = 30000000000;
  metrics_addr = "0";
  probe_addr = ":8081";
  enable_leader_election = false;
  secure_metrics = true;
  webhook_cert_path = "";
  webhook_cert_name = "tls.crt";
  webhook_cert_key = "tls.key";
  metrics_cert_path = "";
  metrics_cert_name = "tls.crt";
  metrics_cert_key = "tls.key";
  enable_http2 = false;
}

pub disable_http2 : TlsConfig → TlsConfig
disable_http2 c = record c { next_protos = "http/1.1" ∷ [] }

pub tls_opts : Flags → List (TlsConfig → TlsConfig)
tls_opts flags = if flags.enable_http2 then [] else disable_http2 ∷ []

pub webhook_server_options : Flags → WebhookOptions
unfolding tls_opts
webhook_server_options flags =
    let plain : WebhookOptions = record {
      tls_opts = tls_opts flags;
      cert_dir = "";
      cert_name = "";
      key_name = "";
    } in
    if str_eq flags.webhook_cert_path "" then plain else record plain {
      cert_dir = flags.webhook_cert_path;
      cert_name = flags.webhook_cert_name;
      key_name = flags.webhook_cert_key;
    }

pub metrics_server_options : Flags → MetricsOptions
unfolding tls_opts
metrics_server_options flags =
    let plain : MetricsOptions = record {
      bind_address = flags.metrics_addr;
      secure_serving = flags.secure_metrics;
      tls_opts = tls_opts flags;
      filter_provider = none;
      cert_dir = "";
      cert_name = "";
      key_name = "";
    } in
    let filtered : MetricsOptions =
      if flags.secure_metrics
      then record plain { filter_provider = some with_authentication_and_authorization }
      else plain in
    if str_eq flags.metrics_cert_path "" then filtered else record filtered {
      cert_dir = flags.metrics_cert_path;
      cert_name = flags.metrics_cert_name;
      key_name = flags.metrics_cert_key;
    }

pub manager_options : Flags → ManagerOptions
unfolding webhook_server_options metrics_server_options
manager_options flags = record {
  metrics = metrics_server_options flags;
  webhook = webhook_server_options flags;
  health_probe_bind_address = flags.probe_addr;
  leader_election = flags.enable_leader_election;
  leader_election_id = "08f1c462.example.com";
}

pub data Kind : Type 0 where
  edge_device fleet_rollout : Kind

-- The reconcilers, with the field that a flag sets.
pub data Reconciler : Type 0 where
  edge_device_reconciler : ℕ → Reconciler
  fleet_rollout_reconciler : Reconciler

-- The functions that give the requests for a watched object.
pub data MapFunc : Type 0 where
  rollouts_for_device : MapFunc

-- What ctrl.NewControllerManagedBy builds; a kind is watched with the function of its requests.
pub record Registration : Type 0 where
  pub for_kind : Kind
  pub watches : List (Kind × MapFunc)
  pub named : String
  pub reconciler : Reconciler

-- SetupWithManager of EdgeDeviceReconciler
pub edge_device_registration : ℕ → Registration
edge_device_registration heartbeat_timeout = record {
  for_kind = edge_device;
  watches = [];
  named = "edgedevice";
  reconciler = edge_device_reconciler heartbeat_timeout;
}

-- SetupWithManager of FleetRolloutReconciler
pub fleet_rollout_registration : Registration
fleet_rollout_registration = record {
  for_kind = fleet_rollout;
  watches = (edge_device, rollouts_for_device) ∷ [];
  named = "fleetrollout";
  reconciler = fleet_rollout_reconciler;
}

-- The groups of types that init adds to the scheme.
pub data Group : Type 0 where
  client_go edge_v1alpha1 : Group

-- The calls of controller-runtime and of apimachinery that can fail, `none` for an error.
pub record Runtime : Type 1 where
  pub World : Type 0
  pub RestConfig : Type 0
  pub Manager : Type 0
  pub add_to_scheme : Group → World → Option (Unit {0}) × World
  pub get_config : World → Option RestConfig × World
  pub new_manager : RestConfig → ManagerOptions → World → Option Manager × World
  pub complete : Manager → Registration → World → Option (Unit {0}) × World
  pub add_healthz_check : Manager → String → World → Option (Unit {0}) × World
  pub add_readyz_check : Manager → String → World → Option (Unit {0}) × World
  pub start : Manager → World → Option (Unit {0}) × World

-- The program goes on with a value, or exits with a code.
pub data Main (A : Type 0) : Type 0 where
  goes : A → Main A
  exits : ℕ → Main A

module _ {W : Type 0} where
  abbrev pub main_then : {A B : Type 0} → Main A × W → (A → W → Main B × W) → Main B × W
  main_then (goes a, w) k = k a w
  main_then (exits n, w) k = (exits n, w)

  infixl 5 ◌>>=◌ ◌>>◌
  abbrev pub ◌>>=◌ : {A B : Type 0} → (W → Main A × W) → (A → W → Main B × W) → W → Main B × W
  ◌>>=◌ m k w = main_then (m w) k

  abbrev pub ◌>>◌ : {A B : Type 0} → (W → Main A × W) → (W → Main B × W) → W → Main B × W
  m >> k = m >>= λ _. k

  abbrev pub or_code : {A : Type 0} → ℕ → Option A × W → Main A × W
  or_code n (none, w) = (exits n, w)
  or_code n (some a, w) = (goes a, w)

  -- A call with whose error the program exits.
  abbrev pub or_exit : {A : Type 0} → ℕ → (W → Option A × W) → W → Main A × W
  or_exit n f w = or_code n (f w)

module _ (R : Runtime) where
  open R use {
    World, add_to_scheme, get_config, new_manager, complete, add_healthz_check, add_readyz_check,
    start,
  }

  -- init, in which an error panics, and main.
  pub manager_main : Flags → World → Main (Unit {0}) × World
  unfolding manager_options edge_device_registration fleet_rollout_registration
  manager_main flags = do
    or_exit 2 (add_to_scheme client_go)
    or_exit 2 (add_to_scheme edge_v1alpha1)
    config ← or_exit 1 get_config
    mgr ← or_exit 1 (new_manager config (manager_options flags))
    or_exit 1 (complete mgr (edge_device_registration flags.heartbeat_timeout))
    or_exit 1 (complete mgr fleet_rollout_registration)
    or_exit 1 (add_healthz_check mgr "healthz")
    or_exit 1 (add_readyz_check mgr "readyz")
    or_exit 1 (start mgr)
