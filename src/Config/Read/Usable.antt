-- ===== src/Config/Read/Usable.antt =====
-- What a configuration that was read can be relied on for.
use cordn_rs.Common.{
  ℕ, ◌*◌, ◌<◌, ◌^◌, ◌≡◌, refl, sym, ap, subst, ◌∙◌, ◌⊎◌, inl, inr, Bool-cases, Option-cases, true,
  false, not, some, List, [], ◌∷◌, map, retain, is_empty, All, ok, bind-ok, Str, str_eq, codes,
  arith, str_discrete,
}
use cordn_rs.Common.Int.{ℤ, pos, mul_i64, leb_ℤ, pos_part, negsuc, mul_i64-pos}
use cordn_rs.Common.Strings.{parse_i64, split, trim}
use cordn_rs.Common.Strings.Bounds.{parse_i64-bound}
use cordn_rs.Config.{sqlite, StorageConfig, ServerConfig, RateLimitConfig}
use cordn_rs.Config.Env.{Env}
use cordn_rs.Config.Read.{
  opt_string, pos_int, int_of, memory_config, read_relay_urls, read_storage, read_rate_limit,
  read_quota, read_server_config, or_value, synchronous_of, opt_bool, lookup, default_relay_urls,
  sqlite_config, or_default_urls,
}

-- The in-memory backend with no path, or SQLite with one that is not empty.
abbrev pub IsStorage : StorageConfig → Type 0
IsStorage storage =
    (storage ≡ memory_config)
    ⊎ ((storage.backend ≡ sqlite)
        × ((path : Str) × (storage.sqlite_path ≡ some path) × (is_empty path ≡ false)))

-- A number that an i64 holds, not negative.
abbrev pub IsCount : ℤ → Type 0
IsCount v = (n : ℕ) × (v ≡ pos n) × (n < 2 ^ 63)

pub record IsUsable (config : ServerConfig) : Type 0 where
  pub some_url : is_empty config.relay_urls ≡ false
  pub urls : All (λ url. is_empty url ≡ false) config.relay_urls
  pub named : is_empty config.server_name ≡ false
  pub stored : IsStorage config.storage
  pub refill : IsCount config.abuse_protection.rate_limit.refill_per_minute
  pub burst : IsCount config.abuse_protection.rate_limit.burst

opt_string-non_empty :
    (env : Env) (name : Str) {s : Str} → opt_string env name ≡ some s → is_empty s ≡ false
unfolding opt_string
opt_string-non_empty env name {s} h = elim (Option-cases (lookup str_discrete name env)) [
  | inl missing ↦ absurd (ground (arith, h, missing))
  | inr (raw, found) ↦ elim (Bool-cases (is_empty (trim raw))) [
    | inl blank ↦ absurd (ground (arith, h, found, blank))
    | inr full ↦
        let same : trim raw ≡ s = ground (arith, h, found, full) in ap is_empty (sym same) ∙ full
  ]
]

or_value-non_empty :
    (env : Env) (name default : Str)
    → is_empty default ≡ false
    → is_empty (or_value default (opt_string env name)) ≡ false
or_value-non_empty env name default h = elim (Option-cases (opt_string env name)) [
  | inl missing ↦ rw missing h
  | inr (s, found) ↦ rw found (opt_string-non_empty env name found)
]

IsCount-of_bound : (v : ℤ) → pos_part v < 2 ^ 63 → leb_ℤ (pos 0) v ≡ true → IsCount v
IsCount-of_bound (pos n) h k = (n, refl, h)
IsCount-of_bound (negsuc n) h k = absurd (ground (arith, k))

int_of-IsCount : (name raw : Str) {v : ℤ} → int_of name raw ≡ ok v → IsCount v
int_of-IsCount name raw {v} h = elim (Option-cases (parse_i64 raw)) [
  | inl nothing ↦ absurd (ground (arith, h, nothing))
  | inr (w, parsed) ↦ elim (Bool-cases (leb_ℤ (pos 0) w)) [
    | inl positive ↦
        let same : w ≡ v = ground (arith, h, parsed, positive) in
        subst IsCount same (IsCount-of_bound w (parse_i64-bound raw parsed) positive)
    | inr negative ↦ absurd (ground (arith, h, parsed, negative))
  ]
]

pos_int-IsCount :
    (env : Env) (name : Str) (default : ℤ) {v : ℤ}
    → IsCount default
    → pos_int env name default ≡ ok v
    → IsCount v
unfolding pos_int
pos_int-IsCount env name default {v} d h = elim (Option-cases (opt_string env name)) [
  | inl missing ↦ let same : default ≡ v = ground (arith, h, missing) in subst IsCount same d
  | inr (raw, given) ↦ int_of-IsCount name raw (ground (arith, h, given))
]

retain-non_empty :
    (urls : List Str) → All (λ u. is_empty u ≡ false) (retain (λ u. not (is_empty u)) urls)
unfolding retain
retain-non_empty [] = tt
retain-non_empty (u ∷ urls) = ground (arith, retain-non_empty urls)

abbrev IsUrls : List Str → Type 0
IsUrls urls = (is_empty urls ≡ false) × All (λ u. is_empty u ≡ false) urls

or_default_urls-IsUrls :
    (urls : List Str) → All (λ u. is_empty u ≡ false) urls → IsUrls (or_default_urls urls)
unfolding default_relay_urls
or_default_urls-IsUrls [] h = (refl, (refl, tt))
or_default_urls-IsUrls (u ∷ urls) h = (refl, h)

read_relay_urls-IsUrls : (env : Env) → IsUrls (read_relay_urls env)
unfolding read_relay_urls default_relay_urls
read_relay_urls-IsUrls env = elim (Option-cases (opt_string env (codes "CORDN_RELAY_URLS"))) [
  | inl missing ↦ rw (read_relay_urls, missing) ((refl, (refl, tt)))
  | inr (raw, given) ↦
      let pieces = map trim (split b',' raw) in
      rw (read_relay_urls, given)
        (or_default_urls-IsUrls (retain (λ u. not (is_empty u)) pieces) (retain-non_empty pieces))
]

sqlite_config-IsStorage :
    (env : Env) {storage : StorageConfig} → sqlite_config env ≡ ok storage → IsStorage storage
sqlite_config-IsStorage env {storage} h =
    let name = codes "CORDN_SQLITE_PATH" in
    let path = or_value (codes "./cordn.sqlite") (opt_string env name) in
    let (synchronous, parsed, rest) =
      bind-ok (synchronous_of (opt_string env (codes "CORDN_SQLITE_SYNCHRONOUS"))) _ h in
    let same : record {
      backend = sqlite;
      sqlite_path = some path;
      sqlite_synchronous = synchronous;
    }
        ≡ storage =
      ground (arith, rest) in
    subst IsStorage same
      (inr (refl, (path, refl, or_value-non_empty env name (codes "./cordn.sqlite") refl)))

read_storage-IsStorage :
    (env : Env) {storage : StorageConfig} → read_storage env ≡ ok storage → IsStorage storage
unfolding read_storage
read_storage-IsStorage env {storage} h =
    let backend = or_value (codes "memory") (opt_string env (codes "CORDN_STORAGE_BACKEND")) in
    elim (Bool-cases (str_eq backend (codes "memory"))) [
      | inl in_memory ↦
          let same : memory_config ≡ storage = ground (arith, h, in_memory) in inl (sym same)
      | inr other ↦ elim (Bool-cases (str_eq backend (codes "sqlite"))) [
        | inl on_disk ↦ sqlite_config-IsStorage env (rw (other, on_disk) at h)
        | inr unknown ↦ absurd (ground (arith, h, other, unknown))
      ]
    ]

-- What the reader of the rate limit took.
record Limits (rate_limit : RateLimitConfig) : Type 0 where
  refill : IsCount rate_limit.refill_per_minute
  burst : IsCount rate_limit.burst

read_rate_limit-Limits :
    (env : Env) {rate_limit : RateLimitConfig}
    → read_rate_limit env ≡ ok rate_limit
    → Limits rate_limit
unfolding read_rate_limit
read_rate_limit-Limits env {rate_limit} h =
    let (enabled, _, h1) = bind-ok (opt_bool env (codes "CORDN_RATE_LIMIT_ENABLED")) _ h in
    let (refill, e2, h2) =
      bind-ok (pos_int env (codes "CORDN_RATE_LIMIT_REFILL_PER_MINUTE") (pos 500)) _ h1 in
    let (burst, e3, h3) = bind-ok (pos_int env (codes "CORDN_RATE_LIMIT_BURST") (pos 160)) _ h2 in
    let (seconds, e4, h4) =
      bind-ok (pos_int env (codes "CORDN_RATE_LIMIT_IDLE_TTL_SECONDS") (pos 3600)) _ h3 in
    let same_refill : refill ≡ rate_limit.refill_per_minute = ground (arith, h4) in
    let same_burst : burst ≡ rate_limit.burst = ground (arith, h4) in
    record {
      refill = subst IsCount same_refill (
          pos_int-IsCount env (codes "CORDN_RATE_LIMIT_REFILL_PER_MINUTE") (pos 500)
            (500, refl, omega arith) e2);
      burst = subst IsCount same_burst (
          pos_int-IsCount env (codes "CORDN_RATE_LIMIT_BURST") (pos 160) (160, refl, omega arith)
            e3);
    }

-- The steps of a read that succeeds, and what they gave.
record Steps (env : Env) (config : ServerConfig) : Type 0 where
  stored : read_storage env ≡ ok config.storage
  limited : read_rate_limit env ≡ ok config.abuse_protection.rate_limit
  urls : config.relay_urls ≡ read_relay_urls env
  name :
      config.server_name
      ≡ or_value (codes "cordn-server") (opt_string env (codes "CORDN_SERVER_NAME"))
  days : ℤ
  aged : pos_int env (codes "CORDN_MAX_AGE_DAYS") (pos 30) ≡ ok days
  max_age : config.max_age_ms ≡ mul_i64 days (pos 86_400_000)

steps : (env : Env) {config : ServerConfig} → read_server_config env ≡ ok config → Steps env config
unfolding read_server_config
steps env {config} h =
    let (announced, _, h1) = bind-ok (opt_bool env (codes "CORDN_ANNOUNCED")) _ h in
    let (storage, stored, h2) = bind-ok (read_storage env) _ h1 in
    let (rate_limit, limited, h3) = bind-ok (read_rate_limit env) _ h2 in
    let (quota, _, h4) = bind-ok (read_quota env) _ h3 in
    let (logged, _, h5) = bind-ok (opt_bool env (codes "CORDN_LOG_ABUSE_REJECTIONS")) _ h4 in
    let (days, aged, h6) = bind-ok (pos_int env (codes "CORDN_MAX_AGE_DAYS") (pos 30)) _ h5 in
    let same_storage : storage ≡ config.storage = ground (arith, h6) in
    let same_limit : rate_limit ≡ config.abuse_protection.rate_limit = ground (arith, h6) in
    record {
      stored = stored ∙ ap ok same_storage;
      limited = limited ∙ ap ok same_limit;
      urls = ground (arith, h6);
      name = ground (arith, h6);
      days = days;
      aged = aged;
      max_age = ground (arith, h6);
    }

-- A configuration that is read has a relay URL, and neither an empty URL nor an empty name; its storage
-- is the in-memory one without a path, or SQLite with a path that is not empty; and its refill and its
-- burst are numbers in i64 that are not negative.
pub read_server_config-IsUsable :
    (env : Env) {config : ServerConfig} → read_server_config env ≡ ok config → IsUsable config
read_server_config-IsUsable env {config} h =
    let s = steps env h in
    let limits = read_rate_limit-Limits env s.limited in
    let urls = subst IsUrls (sym s.urls) (read_relay_urls-IsUrls env) in
    record {
      some_url = urls.0;
      urls = urls.1;
      named =
          ap is_empty s.name
          ∙ or_value-non_empty env (codes "CORDN_SERVER_NAME") (codes "cordn-server") refl;
      stored = read_storage-IsStorage env s.stored;
      refill = limits.refill;
      burst = limits.burst;
    }

-- If `CORDN_MAX_AGE_DAYS` is read as a number of days whose milliseconds fit i64, they are the maximal
-- age; the multiplication wraps beyond.
pub read_server_config-max_age :
    (env : Env) (days : ℕ) {config : ServerConfig}
    → pos_int env (codes "CORDN_MAX_AGE_DAYS") (pos 30) ≡ ok (pos days)
    → days * 86_400_000 < 2 ^ 63
    → read_server_config env ≡ ok config
    → config.max_age_ms ≡ pos (days * 86_400_000)
read_server_config-max_age env days {config} given fits h =
    let s = steps env h in
    let same : s.days ≡ pos days = ground (arith, given, s.aged) in
    s.max_age ∙ ap (λ d. mul_i64 d (pos 86_400_000)) same ∙ mul_i64-pos days 86_400_000 fits
