-- ===== src/Config.antt =====
-- The server's configuration, crates/cordn-server/src/config.rs.
pub mod Env
pub mod Read
use cordn_rs.Common.{ℕ, Bool, Option, List, Str}
use cordn_rs.Common.Int.{ℤ}
use cordn_rs.Sqlite.{Synchronous}

pub data StorageBackend : Type 0 where
  memory : StorageBackend
  sqlite : StorageBackend

pub record StorageConfig : Type 0 where
  pub backend : StorageBackend
  pub sqlite_path : Option Str
  pub sqlite_synchronous : Synchronous

pub record RateLimitConfig : Type 0 where
  pub enabled : Bool
  pub refill_per_minute : ℤ
  pub burst : ℤ
  pub idle_ttl_ms : ℤ

pub record KeyPackageQuotaConfig : Type 0 where
  pub max_per_identity : ℕ
  pub max_last_resort_per_identity : ℕ

pub record AbuseProtectionConfig : Type 0 where
  pub rate_limit : RateLimitConfig
  pub key_package_quota : KeyPackageQuotaConfig
  pub log_rejections : Bool

pub record ServerConfig : Type 0 where
  pub private_key_hex : Option Str
  pub relay_urls : List Str
  pub server_name : Str
  pub server_about : Option Str
  pub server_website : Option Str
  pub is_announced : Bool
  pub storage : StorageConfig
  pub abuse_protection : AbuseProtectionConfig
  pub max_age_ms : ℤ

pub data ConfigError : Type 0 where
  invalid_boolean : Str → ConfigError
  invalid_integer : Str → ConfigError
  invalid_storage_backend : ConfigError
  invalid_sqlite_synchronous : ConfigError
