-- ===== src/RateLimit.antt =====
-- The token-bucket rate limiter, crates/cordn-core/src/ratelimit.rs. Tokens are counted in units of
-- 1/60000 of a token, in which one minute's refill in tokens is one millisecond's refill in units:
-- the f64 arithmetic on whole configuration values is exact here, and its rounding is not modelled.
pub mod Allowance
pub mod Sound
pub mod Keys
pub mod Refill
pub mod Accounting
use cordn_rs.Common.{
  ℕ, ◌+◌, ◌-◌, ◌*◌, ◌==◌, ltb, Bool, true, false, ◌||◌, Option, none, some, List, [], ◌∷◌, Str,
  str_discrete, is_empty, retain, if◌then◌else◌,
}
use cordn_rs.Common.Int.{ℤ, pos, negsuc, pos_part, ltb_ℤ, sub_i64}
use cordn_rs.Common.Assoc.{Assoc, lookup, adjust, insert}

-- What the server's configuration gives: `to_rate_limit_config` casts whole numbers to f64.
pub record TokenBucketRateLimitConfig : Type 0 where
  pub enabled : Bool
  pub refill_per_minute : ℤ
  pub burst : ℤ
  pub idle_ttl_ms : ℤ

pub record TokenBucketState : Type 0 where
  pub tokens : ℕ
  pub last_refill_at : ℤ
  pub last_seen_at : ℤ

pub record TokenBucketRateLimiter : Type 0 where
  pub buckets : Assoc Str TokenBucketState
  pub enabled : Bool
  pub burst : ℕ
  pub idle_ttl_ms : ℕ
  pub refill_tokens_per_ms : ℕ

abbrev pub token : ℕ
token = 60_000

abbrev pub min : ℕ → ℕ → ℕ
min a b = if ltb a b then a else b

-- Whole numbers are finite.
unfoldable pub clamp_non_negative : ℤ → ℕ
clamp_non_negative (pos n) = n
clamp_non_negative (negsuc n) = 0

unfoldable pub new_limiter : TokenBucketRateLimitConfig → TokenBucketRateLimiter
unfolding clamp_non_negative
new_limiter config = record {
  buckets = [];
  enabled = config.enabled;
  burst = clamp_non_negative config.burst * token;
  idle_ttl_ms = clamp_non_negative config.idle_ttl_ms;
  refill_tokens_per_ms = clamp_non_negative config.refill_per_minute;
}

unfoldable pub evict_idle_buckets : ℕ → ℤ → Assoc Str TokenBucketState → Assoc Str TokenBucketState
evict_idle_buckets idle_ttl_ms now buckets =
    if idle_ttl_ms == 0 || is_empty buckets
    then buckets
    else retain (λ entry. ltb_ℤ (sub_i64 now entry.1.last_seen_at) (pos idle_ttl_ms)) buckets

-- `(bucket.tokens + refilled).min(self.burst)`; `max(0)` is `pos_part`.
unfoldable pub available : TokenBucketRateLimiter → ℤ → TokenBucketState → ℕ
available rl now bucket =
    let elapsed_ms = pos_part (sub_i64 now bucket.last_refill_at) in
    min (bucket.tokens + elapsed_ms * rl.refill_tokens_per_ms) rl.burst

abbrev pub bucket_at : ℕ → ℤ → TokenBucketState
bucket_at tokens now = record { tokens = tokens; last_refill_at = now; last_seen_at = now }

-- `check` on the buckets that the eviction left, by the bucket of the key.
abbrev pub check_bucket :
    TokenBucketRateLimiter
    → Str
    → ℤ
    → Assoc Str TokenBucketState
    → Option TokenBucketState
    → Bool × TokenBucketRateLimiter
check_bucket rl key now buckets none =
    if ltb rl.burst token then (false, record rl { buckets = buckets }) else (
      true,
      record rl { buckets = insert str_discrete key (bucket_at (rl.burst - token) now) buckets },
    )
check_bucket rl key now buckets (some bucket) =
    let tokens = available rl now bucket in
    if ltb tokens token
    then (
      false,
      record rl { buckets = adjust str_discrete key (λ _. bucket_at tokens now) buckets },
    )
    else (
      true,
      record rl { buckets = adjust str_discrete key (λ _. bucket_at (tokens - token) now) buckets },
    )

unfoldable pub check : TokenBucketRateLimiter → Str → ℤ → Bool × TokenBucketRateLimiter
unfolding evict_idle_buckets
check rl key now =
    let buckets = evict_idle_buckets rl.idle_ttl_ms now rl.buckets in
    if rl.enabled
    then check_bucket rl key now buckets (lookup str_discrete key buckets)
    else (true, rl)
