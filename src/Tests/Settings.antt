-- ===== src/Tests/Settings.antt =====
-- The theorems on the configuration, at concrete environments.
use cordn_rs.Common.{
  ◌≡◌, refl, arith, [], ◌∷◌, some, none, Option, ok, Str, codes, or_else, str_discrete, ℕ_discrete,
  any, last, retain, true, false, ◌++◌, ◌*◌,
}
use cordn_rs.Common.Int.{pos, mul_i64, wrap_i64}
use cordn_rs.Common.Assoc.{lookup, insert, upsert}
use cordn_rs.Common.Strings.{trim, split, split_once, strip_prefix, reverse_onto, lines, parse_i64}
use cordn_rs.Sqlite.{full, from_config}
use cordn_rs.Config.{sqlite, ServerConfig}
use cordn_rs.Config.Env.{Env, parse_env_assignment, load_env_file, load_env_files, is_key}
use cordn_rs.Config.Env.RoundTrip.{export_line, parse_env_assignment-export_line}
use cordn_rs.Config.Env.Keeps.{assigned_in, load_env_files_lem}
use cordn_rs.Config.Read.{
  opt_string, opt_bool, pos_int, read_storage, read_rate_limit, read_quota, read_relay_urls,
  read_server_config,
}
use cordn_rs.Config.Read.Defaults.{default_config, read_server_config-default}
use cordn_rs.Config.Read.Usable.{IsUsable, read_server_config-IsUsable, read_server_config-max_age}

foo_is_key : is_key (codes "FOO_1") ≡ true
unfolding any
foo_is_key = refl

parse_env_assignment-export_line_example :
    parse_env_assignment (export_line (codes "FOO_1") (codes " a = 'b' "))
    ≡ some (codes "FOO_1", codes " a = 'b' ")
parse_env_assignment-export_line_example =
    parse_env_assignment-export_line (codes "FOO_1") (codes " a = 'b' ") foo_is_key

-- A file with a comment and two assignments, and one that assigns other variables too.
abbrev dot_env : Option Str
dot_env = some (codes "# ports" ++ 10 ∷ codes "A=1" ++ 10 ∷ codes "A=2")

abbrev dot_env_local : Option Str
dot_env_local = some (codes "A=3" ++ 10 ∷ codes "export B='4'" ++ 10 ∷ [])

abbrev of_process : Env
of_process = (codes "C", codes "5") ∷ []

abbrev loaded : Env
loaded = (codes "C", codes "5") ∷ (codes "A", codes "1") ∷ (codes "B", codes "4") ∷ []

loads : load_env_files dot_env dot_env_local of_process ≡ ok loaded
unfolding load_env_files load_env_file parse_env_assignment lines split trim split_once strip_prefix
    reverse_onto str_discrete ℕ_discrete lookup insert upsert any last
loads = refl

load_env_files_lem_example :
    lookup str_discrete (codes "B") loaded
    ≡ or_else
        (lookup str_discrete (codes "B") of_process)
        (or_else (assigned_in (codes "B") dot_env) (assigned_in (codes "B") dot_env_local))
load_env_files_lem_example =
    load_env_files_lem dot_env dot_env_local of_process {env' = loaded} (codes "B") loads

nothing_set : (name : Str) → opt_string [] name ≡ none
unfolding opt_string lookup
nothing_set name = refl

read_server_config-default_example : read_server_config [] ≡ ok default_config
read_server_config-default_example = read_server_config-default [] nothing_set

-- SQLite with the other durability, and an age of a week.
abbrev on_disk : Env
on_disk =
    (codes "CORDN_STORAGE_BACKEND", codes " sqlite ")
    ∷ (codes "CORDN_SQLITE_SYNCHRONOUS", codes "Full")
    ∷ (codes "CORDN_RELAY_URLS", codes ", wss://a.test,")
    ∷ (codes "CORDN_MAX_AGE_DAYS", codes "7")
    ∷ []

abbrev disk_config : ServerConfig
disk_config = record {
  private_key_hex = none;
  relay_urls = codes "wss://a.test" ∷ [];
  server_name = codes "cordn-server";
  server_about = none;
  server_website = none;
  is_announced = false;
  storage = record {
    backend = sqlite;
    sqlite_path = some (codes "./cordn.sqlite");
    sqlite_synchronous = full;
  };
  abuse_protection = record {
    rate_limit = record {
      enabled = true;
      refill_per_minute = pos 500;
      burst = pos 160;
      idle_ttl_ms = pos 3_600_000;
    };
    key_package_quota = record { max_per_identity = 50; max_last_resort_per_identity = 1 };
    log_rejections = true;
  };
  max_age_ms = pos 604_800_000;
}

disk_config_read : read_server_config on_disk ≡ ok disk_config
unfolding read_server_config read_relay_urls read_storage read_rate_limit read_quota opt_bool
    pos_int opt_string from_config parse_i64 trim reverse_onto split retain mul_i64 wrap_i64
    str_discrete ℕ_discrete lookup
disk_config_read = refl

week : pos_int on_disk (codes "CORDN_MAX_AGE_DAYS") (pos 30) ≡ ok (pos 7)
unfolding pos_int opt_string parse_i64 trim reverse_onto str_discrete ℕ_discrete lookup
week = refl

read_server_config-IsUsable_example : IsUsable disk_config
read_server_config-IsUsable_example =
    read_server_config-IsUsable on_disk {config = disk_config} disk_config_read

read_server_config-max_age_example : disk_config.max_age_ms ≡ pos (7 * 86_400_000)
read_server_config-max_age_example =
    read_server_config-max_age on_disk 7 {config = disk_config} week (omega arith) disk_config_read
