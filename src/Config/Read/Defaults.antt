-- ===== src/Config/Read/Defaults.antt =====
-- `ServerConfig::default()`, and a read without any of the variables.
use cordn_rs.Common.{◌≡◌, refl, none, true, false, ok, Str, codes, ◌*◌, str_discrete, ℕ_discrete}
use cordn_rs.Common.Int.{ℤ, pos, mul_i64, wrap_i64}
use cordn_rs.Sqlite.{normal}
use cordn_rs.Config.{memory, ServerConfig}
use cordn_rs.Config.Env.{Env}
use cordn_rs.Config.Read.{
  default_relay_urls, opt_string, opt_bool, pos_int, read_relay_urls, read_storage, read_rate_limit,
  read_quota, read_server_config, memory_config,
}

unfoldable pub default_config : ServerConfig
default_config = record {
  private_key_hex = none;
  relay_urls = default_relay_urls;
  server_name = codes "cordn-server";
  server_about = none;
  server_website = none;
  is_announced = false;
  storage = record { backend = memory; sqlite_path = none; sqlite_synchronous = normal };
  abuse_protection = record {
    rate_limit = record {
      enabled = true;
      refill_per_minute = pos 500;
      burst = pos 160;
      idle_ttl_ms = pos 3_600_000;
    };
    key_package_quota = record { max_per_identity = 50; max_last_resort_per_identity = 1 };
    log_rejections = true;
  };
  max_age_ms = pos (30 * 86_400_000);
}

-- No variable is set, or all of them are blank.
abbrev pub IsBlank : Env → Type 0
IsBlank env = (name : Str) → opt_string env name ≡ none

no_bool : (env : Env) (name : Str) → IsBlank env → opt_bool env name ≡ ok none
unfolding opt_bool
no_bool env name h = rw (opt_bool, h name) refl

no_int :
    (env : Env) (name : Str) (default : ℤ) → IsBlank env → pos_int env name default ≡ ok default
unfolding pos_int
no_int env name default h = rw (pos_int, h name) refl

no_urls : (env : Env) → IsBlank env → read_relay_urls env ≡ default_relay_urls
unfolding read_relay_urls
no_urls env h = rw (read_relay_urls, h (codes "CORDN_RELAY_URLS")) refl

no_storage : (env : Env) → IsBlank env → read_storage env ≡ ok memory_config
unfolding read_storage str_discrete ℕ_discrete
no_storage env h = rw (h (codes "CORDN_STORAGE_BACKEND")) refl

no_rate_limit :
    (env : Env) → IsBlank env → read_rate_limit env ≡ ok default_config.abuse_protection.rate_limit
unfolding read_rate_limit default_config mul_i64 wrap_i64
no_rate_limit env h =
    rw
      (
        no_bool env (codes "CORDN_RATE_LIMIT_ENABLED") h,
        no_int env (codes "CORDN_RATE_LIMIT_REFILL_PER_MINUTE") (pos 500) h,
        no_int env (codes "CORDN_RATE_LIMIT_BURST") (pos 160) h,
        no_int env (codes "CORDN_RATE_LIMIT_IDLE_TTL_SECONDS") (pos 3600) h,
      )
      refl

no_quota :
    (env : Env)
    → IsBlank env
    → read_quota env ≡ ok default_config.abuse_protection.key_package_quota
unfolding read_quota default_config
no_quota env h =
    rw
      (
        no_int env (codes "CORDN_MAX_KEY_PACKAGES_PER_IDENTITY") (pos 50) h,
        no_int env (codes "CORDN_MAX_LAST_RESORT_KEY_PACKAGES_PER_IDENTITY") (pos 1) h,
      )
      refl

-- An environment in which every variable is missing or blank is read as `ServerConfig::default()`.
pub read_server_config-default :
    (env : Env)
    → ((name : Str) → opt_string env name ≡ none)
    → read_server_config env ≡ ok default_config
unfolding read_server_config default_config mul_i64 wrap_i64
read_server_config-default env h =
    rw
      (
        no_bool env (codes "CORDN_ANNOUNCED") h,
        no_storage env h,
        no_rate_limit env h,
        no_quota env h,
        no_bool env (codes "CORDN_LOG_ABUSE_REJECTIONS") h,
        no_int env (codes "CORDN_MAX_AGE_DAYS") (pos 30) h,
        no_urls env h,
        h (codes "CORDN_SERVER_PRIVATE_KEY"),
        h (codes "CORDN_SERVER_NAME"),
        h (codes "CORDN_SERVER_ABOUT"),
        h (codes "CORDN_SERVER_WEBSITE"),
      )
      refl
