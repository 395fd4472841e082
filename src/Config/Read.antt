-- ===== src/Config/Read.antt =====
-- `read_server_config`, and `load`.
pub mod Usable
pub mod Defaults
use cordn_rs.Common.{
  ℕ, Bool, true, false, Option, none, some, List, [], ◌∷◌, map, retain, not, is_empty, Outcome, ok,
  err, ◌>>=◌, Str, str_eq, str_discrete, codes, if◌then◌else◌,
}
use cordn_rs.Common.Int.{ℤ, pos, pos_part, leb_ℤ, mul_i64}
use cordn_rs.Common.Assoc.{lookup}
use cordn_rs.Common.Strings.{trim, split, parse_i64}
use cordn_rs.Sqlite.{Synchronous, normal, from_config}
use cordn_rs.Config.{
  StorageBackend, memory, sqlite, StorageConfig, RateLimitConfig, KeyPackageQuotaConfig,
  AbuseProtectionConfig, ServerConfig, ConfigError, invalid_boolean, invalid_integer,
  invalid_storage_backend, invalid_sqlite_synchronous,
}
use cordn_rs.Config.Env.{Env, load_env_files}

abbrev pub ConfigResult : Type 0 → Type 0
ConfigResult A = Outcome ConfigError A

unfoldable pub default_relay_urls : List Str
default_relay_urls = codes "wss://relay.contextvm.org" ∷ []

abbrev pub non_empty : Str → Option Str
non_empty s = if is_empty s then none else some s

unfoldable pub opt_string : Env → Str → Option Str
opt_string env name = elim (lookup str_discrete name env) [
  | none ↦ none
  | some s ↦ non_empty (trim s)
]

abbrev pub bool_of : Str → Str → ConfigResult (Option Bool)
bool_of name raw =
    if str_eq raw (codes "true")
    then ok (some true)
    else if str_eq raw (codes "1")
    then ok (some true)
    else if str_eq raw (codes "false")
    then ok (some false)
    else if str_eq raw (codes "0")
    then ok (some false)
    else err (invalid_boolean name)

unfoldable pub opt_bool : Env → Str → ConfigResult (Option Bool)
opt_bool env name = elim (opt_string env name) [ none ↦ ok none | some raw ↦ bool_of name raw ]

abbrev pub int_of : Str → Str → ConfigResult ℤ
int_of name raw = elim (parse_i64 raw) [
  | none ↦ err (invalid_integer name)
  | some v ↦ if leb_ℤ (pos 0) v then ok v else err (invalid_integer name)
]

unfoldable pub pos_int : Env → Str → ℤ → ConfigResult ℤ
pos_int env name default = elim (opt_string env name) [
  | none ↦ ok default
  | some raw ↦ int_of name raw
]

-- `unwrap_or`
abbrev pub or_value : {A : Type 0} → A → Option A → A
or_value default none = default
or_value default (some a) = a

abbrev pub or_default_urls : List Str → List Str
or_default_urls [] = default_relay_urls
or_default_urls (url ∷ urls) = url ∷ urls

unfoldable pub read_relay_urls : Env → List Str
read_relay_urls env = elim (opt_string env (codes "CORDN_RELAY_URLS")) [
  | none ↦ default_relay_urls
  | some raw ↦ or_default_urls (retain (λ s. not (is_empty s)) (map trim (split b',' raw)))
]

abbrev pub synchronous_of : Option Str → ConfigResult Synchronous
synchronous_of none = ok normal
synchronous_of (some raw) = elim (from_config raw) [
  | none ↦ err invalid_sqlite_synchronous
  | some synchronous ↦ ok synchronous
]

abbrev pub memory_config : StorageConfig
memory_config = record { backend = memory; sqlite_path = none; sqlite_synchronous = normal }

abbrev pub sqlite_config : Env → ConfigResult StorageConfig
sqlite_config env = do
  synchronous ← synchronous_of (opt_string env (codes "CORDN_SQLITE_SYNCHRONOUS"))
  ok (record {
    backend = sqlite;
    sqlite_path =
        some (or_value (codes "./cordn.sqlite") (opt_string env (codes "CORDN_SQLITE_PATH")));
    sqlite_synchronous = synchronous;
  })

unfoldable pub read_storage : Env → ConfigResult StorageConfig
read_storage env =
    let backend = or_value (codes "memory") (opt_string env (codes "CORDN_STORAGE_BACKEND")) in
    if str_eq backend (codes "memory")
    then ok memory_config
    else if str_eq backend (codes "sqlite")
    then sqlite_config env
    else err invalid_storage_backend

unfoldable pub read_rate_limit : Env → ConfigResult RateLimitConfig
read_rate_limit env = do
  enabled ← opt_bool env (codes "CORDN_RATE_LIMIT_ENABLED")
  refill_per_minute ← pos_int env (codes "CORDN_RATE_LIMIT_REFILL_PER_MINUTE") (pos 500)
  burst ← pos_int env (codes "CORDN_RATE_LIMIT_BURST") (pos 160)
  idle_ttl_seconds ← pos_int env (codes "CORDN_RATE_LIMIT_IDLE_TTL_SECONDS") (pos 3600)
  ok (record {
    enabled = or_value true enabled;
    refill_per_minute = refill_per_minute;
    burst = burst;
    idle_ttl_ms = mul_i64 idle_ttl_seconds (pos 1000);
  })

-- `as usize`, of numbers that are not negative
unfoldable pub read_quota : Env → ConfigResult KeyPackageQuotaConfig
read_quota env = do
  max_per_identity ← pos_int env (codes "CORDN_MAX_KEY_PACKAGES_PER_IDENTITY") (pos 50)
  max_last_resort ← pos_int env (codes "CORDN_MAX_LAST_RESORT_KEY_PACKAGES_PER_IDENTITY") (pos 1)
  ok (record {
    max_per_identity = pos_part max_per_identity;
    max_last_resort_per_identity = pos_part max_last_resort;
  })

unfoldable pub read_server_config : Env → ConfigResult ServerConfig
read_server_config env = do
  is_announced ← opt_bool env (codes "CORDN_ANNOUNCED")
  storage ← read_storage env
  rate_limit ← read_rate_limit env
  key_package_quota ← read_quota env
  log_rejections ← opt_bool env (codes "CORDN_LOG_ABUSE_REJECTIONS")
  max_age_days ← pos_int env (codes "CORDN_MAX_AGE_DAYS") (pos 30)
  ok (record {
    private_key_hex = opt_string env (codes "CORDN_SERVER_PRIVATE_KEY");
    relay_urls = read_relay_urls env;
    server_name = or_value (codes "cordn-server") (opt_string env (codes "CORDN_SERVER_NAME"));
    server_about = opt_string env (codes "CORDN_SERVER_ABOUT");
    server_website = opt_string env (codes "CORDN_SERVER_WEBSITE");
    is_announced = or_value false is_announced;
    storage = storage;
    abuse_protection = record {
      rate_limit = rate_limit;
      key_package_quota = key_package_quota;
      log_rejections = or_value true log_rejections;
    };
    max_age_ms = mul_i64 max_age_days (pos 86_400_000);
  })

-- The files, then the environment that they leave.
unfoldable pub load : Option Str → Option Str → Env → ConfigResult ServerConfig
load dot_env dot_env_local env = do
  env' ← load_env_files dot_env dot_env_local env
  read_server_config env'
