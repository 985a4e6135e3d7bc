-- ===== src/Api.antt =====
-- cmd/api/main.go: what the process is made of, by what it can reach when it starts; internal/cache/redis.go and
-- internal/mongo/client.go are each one answer of the environment. What is logged, and the time limits of the
-- attempts, are left out.
pub mod Degraded
pub mod Limits
use gearshare.Prelude.{
  ℕ, String, Bool, true, false, not, ◌&&◌, Option, none, some, List, [], ◌∷◌, ◌++◌, if◌then◌else◌,
}
use gearshare.Prelude.Int.{ℤ}
use gearshare.Prelude.Text.{codes, str_eq}
use gearshare.Config.{Config, or_default, load}
use gearshare.Store.Pools.{
  Pool, Pools, Db, Connected, primary_failed, replica_failed, connected, connect,
}
use gearshare.Search.Remote.{Credential}
use gearshare.Booking.Service.{Service}
use gearshare.Routes.{Route, new_router}

-- What answers when the process starts: the pings of Redis and MongoDB, the connection and the channel of
-- RabbitMQ, the two gRPC clients, OIDC discovery, the making of a certificate and SAML's metadata.
pub record Services : Type 0 where
  pub tracing : Bool
  pub redis : Bool
  pub mongo : Bool
  pub rabbitmq : Bool
  pub publisher : Bool
  pub notification_client : Bool
  pub search_client : Bool
  pub oidc : Bool
  pub certificate : Bool
  pub saml : Bool

-- A rate limit for each minute, counted in Redis or in the process.
pub record Limit : Type 0 where
  pub in_redis : Bool
  pub requests : ℕ

-- What `defer` closes, by the order of the statements.
pub data Resource : Type 0 where
  tracing_exporter database kafka_producer rabbit_connection rabbit_publisher notifier : Resource

pub record App : Type 0 where
  pub config : Config
  pub database : Db
  pub internal : Credential  -- of the gRPC server and of both clients
  pub has_listing_cache : Bool
  pub auth_rate_limit : Limit
  pub api_rate_limit : Limit
  pub has_reports : Bool
  pub booking : Service
  pub search_client : Option Credential
  pub secure_cookies : Bool
  pub has_oauth : Bool
  pub has_saml : Bool
  pub routes : List Route
  pub deferred : List Resource

-- The process stops with a message, or serves.
pub data Boot : Type 0 where
  stopped : String → Boot
  started : App → Boot

abbrev pub filled : String → Bool
filled v = not (str_eq v "")

-- The clients and the providers are set up only where they are configured.
abbrev pub notifies : Config → Services → Bool
notifies cfg up = if filled cfg.grpc.notification_addr then up.notification_client else false

abbrev pub caches : Services → Bool
caches up = up.redis

abbrev pub reports : Services → Bool
reports up = up.mongo

abbrev pub is_secure : Config → Bool
is_secure cfg = str_eq cfg.env "production"

abbrev pub queues : Services → Bool
queues up = up.rabbitmq && up.publisher

abbrev pub booking_service : Config → Services → Service
booking_service cfg up = record {
  has_publisher = true;
  has_cache = caches up;
  has_notifier = queues up;
  has_sync = notifies cfg up;
}

abbrev pub searches : Config → Services → Credential → Option Credential
searches cfg up internal =
    if filled cfg.grpc.search_indexer_addr && up.search_client then some internal else none

abbrev pub with_oauth : Config → Services → Bool
with_oauth cfg up = if filled cfg.auth.oauth_google_client_id then up.oidc else false

abbrev pub with_saml : Config → Services → Bool
with_saml cfg up = filled cfg.auth.saml_idp_metadata_url && (up.certificate && up.saml)

abbrev opened : Bool → Resource → List Resource
opened c r = if c then r ∷ [] else []

abbrev pub deferred_by : Config → Services → List Resource
deferred_by cfg up =
    opened up.tracing tracing_exporter
    ++ (database ∷ kafka_producer ∷ opened up.rabbitmq rabbit_connection
        ++ (opened (queues up) rabbit_publisher ++ opened (notifies cfg up) notifier))

abbrev pub limit_of : Services → ℕ → Limit
limit_of up requests = record { in_redis = up.redis; requests = requests }

abbrev pub auth_limit : Services → Limit
auth_limit up = limit_of up 20

abbrev pub api_limit : Services → Limit
api_limit up = limit_of up 300

module _ (env : String → Option String) (parse_duration : String → Option ℤ) where
  -- os.Getenv is the empty text where the key is not set.
  unfoldable pub env_or_default : String → String → String
  env_or_default key fallback = let v = or_default (env key) "" in if filled v then v else fallback

  abbrev pub internal_credential : Credential
  internal_credential = record {
    username = codes (env_or_default "INTERNAL_BASIC_USER" "admin");
    password = codes (env_or_default "INTERNAL_BASIC_PASS" "dev-only-change-me");
  }

  abbrev pub assemble : Config → Db → Services → App
  assemble cfg db up = record {
    config = cfg;
    database = db;
    internal = internal_credential;
    has_listing_cache = caches up;
    auth_rate_limit = auth_limit up;
    api_rate_limit = api_limit up;
    has_reports = reports up;
    booking = booking_service cfg up;
    search_client = searches cfg up internal_credential;
    secure_cookies = is_secure cfg;
    has_oauth = with_oauth cfg up;
    has_saml = with_saml cfg up;
    routes = new_router (with_oauth cfg up) (with_saml cfg up);
    deferred = deferred_by cfg up;
  }

  module _ (connects : ℕ → String → Bool) (close_fails : Pool → Bool) where
    abbrev pub with_database : Config → Services → Connected × Pools → Boot × Pools
    with_database cfg up (primary_failed, s) = (stopped "db", s)
    with_database cfg up (replica_failed, s) = (stopped "db", s)
    with_database cfg up (connected db, s) = (started (assemble cfg db up), s)

    unfoldable pub boot : Services → Pools → Boot × Pools
    boot up s = elim (load env parse_duration) [
      | none ↦ (stopped "config", s)
      | some cfg ↦ with_database cfg up (connect connects close_fails cfg.mysql s)
    ]
