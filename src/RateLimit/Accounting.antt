-- ===== src/RateLimit/Accounting.antt =====
-- How many checks of a key a run of the limiter can allow.
use native.Mathlib.Nat.{add-mul}
use cordn_rs.Common.{
  ℕ, ◌+◌, ◌-◌, ◌*◌, ◌≤◌, ◌<◌, ◌^◌, ◌≡◌, ◌≢◌, refl, arith, Bool, true, false, ◌&&◌, List, [], ◌∷◌,
  Str, str_discrete, str_eq, if◌then◌else◌, sym, subst,
}
use cordn_rs.Common.Int.{pos}
use cordn_rs.Common.Assoc.{lookup}
use cordn_rs.RateLimit.{
  TokenBucketRateLimiter, TokenBucketRateLimitConfig, new_limiter, check, token, clamp_non_negative,
}
use cordn_rs.RateLimit.Allowance.{IsSound, allowance, check-Spends}
use cordn_rs.RateLimit.Sound.{check-IsSound}
use cordn_rs.RateLimit.Keys.{check-other, check-config}
use cordn_rs.RateLimit.Refill.{EvictsOnlyFull, allowance_grows}

-- Checks in the order in which they take the lock, each with its key and the time it reads.
abbrev pub Trace : Type 0
Trace = List (Str × ℕ)

-- How many of the checks of a key are allowed.
unfoldable pub granted : TokenBucketRateLimiter → Str → Trace → ℕ
granted rl key [] = 0
granted rl key ((k, now) ∷ rest) =
    let (allowed, rl') = check rl k (pos now) in
    let more = granted rl' key rest in (if str_eq k key && allowed then 1 else 0) + more

-- The clock does not run backwards, and stays in the range of i64.
abbrev pub InOrder : ℕ → Trace → Type 0
InOrder past [] = Unit {0}
InOrder past ((k, now) ∷ rest) = (past ≤ now) × (now < 2 ^ 63) × InOrder now rest

abbrev pub last_time : ℕ → Trace → ℕ
last_time past [] = past
last_time past ((k, now) ∷ rest) = last_time now rest

last_time-ge : (past : ℕ) (trace : Trace) → InOrder past trace → past ≤ last_time past trace
last_time-ge past [] h = omega arith
last_time-ge past ((k, now) ∷ rest) h = omega (arith, last_time-ge now rest h.2)

str_eq_self : (k : Str) → str_eq k k ≡ true
str_eq_self k = ground arith

str_eq-false : (k j : Str) → k ≢ j → str_eq k j ≡ false
str_eq-false k j n = ground arith

charge_le :
    (allowed : Bool) (after had : ℕ)
    → after + (if allowed then token else 0) ≡ had
    → (if allowed then 1 else 0) * token + after ≤ had
charge_le true after had e = omega arith
charge_le false after had e = omega arith

-- One round of the count below.
abbrev Round : TokenBucketRateLimiter → Str → ℕ → Str → ℕ → Type 0
Round rl k now key budget =
    (if str_eq k key && (check rl k (pos now)).0 then 1 else 0) * token
      + allowance (check rl k (pos now)).1 key now
    ≤ budget

own-Round :
    (rl : TokenBucketRateLimiter) (k : Str) (past now : ℕ)
    → rl.enabled ≡ true
    → IsSound rl past
    → now < 2 ^ 63
    → Round rl k now k (allowance rl k now)
own-Round rl k past now on s small =
    let (yes_if, left) = check-Spends rl k now s.entries on small in
    rw (str_eq_self k) (
      charge_le (check rl k (pos now)).0 (allowance (check rl k (pos now)).1 k now)
        (allowance rl k now) left)

other-Round :
    (rl : TokenBucketRateLimiter) (k key : Str) (past now : ℕ)
    → rl.enabled ≡ true
    → IsSound rl past
    → past ≤ now
    → now < 2 ^ 63
    → k ≢ key
    → Round rl k now key (allowance rl key now)
other-Round rl k key past now on s le small n =
    let same = check-other rl k key past now now on s le (omega arith) small n in
    rw (str_eq-false k key n, same) (omega arith)

one-Round :
    (rl : TokenBucketRateLimiter) (k key : Str) (past now : ℕ)
    → rl.enabled ≡ true
    → IsSound rl past
    → past ≤ now
    → now < 2 ^ 63
    → Round rl k now key (allowance rl key now)
one-Round rl k key past now on s le small = elim (str_discrete k key) [
  | yes e ↦
      subst (λ q. Round rl k now q (allowance rl q now)) e (own-Round rl k past now on s small)
  | no n ↦ other-Round rl k key past now on s le small n
]

-- The configuration of a limiter.
abbrev Configured : ℕ → TokenBucketRateLimiter → Type 0
Configured refill rl = (rl.enabled ≡ true) × (rl.refill_tokens_per_ms ≡ refill) × EvictsOnlyFull rl

check-Configured :
    (rl : TokenBucketRateLimiter) (k : Str) (now refill : ℕ)
    → Configured refill rl
    → Configured refill (check rl k (pos now)).1
check-Configured rl k now refill c = subst (Configured refill) (sym (check-config rl k now c.0)) c

sum_up :
    (one more after had start refill past now last : ℕ)
    → one * token + after ≤ had
    → more * token ≤ after + (last - now) * refill
    → had ≤ start + (now - past) * refill
    → past ≤ now
    → now ≤ last
    → (one + more) * token ≤ start + (last - past) * refill
sum_up one more after had start refill past now last this rounds grows le le' =
    let split : last - past ≡ (now - past) + (last - now) = omega arith in
    rw (split, add-mul (now - past) (last - now) refill) (omega arith)

-- Of the checks of a key, however those of other keys are mixed in, as many are allowed as what it may
-- spend at the start and the refill since pay for: the limiter is on, its buckets are sound, its
-- eviction drops full buckets only, and the clock does not run backwards.
pub granted-le :
    (rl : TokenBucketRateLimiter) (key : Str) (past : ℕ) (trace : Trace)
    → rl.enabled ≡ true
    → IsSound rl past
    → EvictsOnlyFull rl
    → InOrder past trace
    → granted rl key trace * token
      ≤ allowance rl key past + (last_time past trace - past) * rl.refill_tokens_per_ms
unfolding granted
granted-le rl key past [] on s full order = omega arith
granted-le rl key past ((k, now) ∷ rest) on s full (le, small, order) =
    let rl' = (check rl k (pos now)).1 in
    let one : ℕ = if str_eq k key && (check rl k (pos now)).0 then 1 else 0 in
    let r = rl.refill_tokens_per_ms in
    let after = check-Configured rl k now r (on, refl, full) in
    let rounds =
      granted-le rl' key now rest after.0 (check-IsSound rl k past now on s le) after.2 order in
    let this = one-Round rl k key past now on s le small in
    let grows = allowance_grows rl key past past now s (omega arith) le small full in
    let rounds' =
      subst
        (λ q. granted rl' key rest * token ≤ allowance rl' key now + (last_time now rest - now) * q)
        after.1 rounds in
    sum_up one (granted rl' key rest) (allowance rl' key now) (allowance rl key now)
      (allowance rl key past) r past now (last_time now rest) this rounds' grows le
      (last_time-ge now rest order)

-- A new limiter that is on, and whose idle eviction could only drop full buckets, allows the checks of a
-- key no more tokens than the burst and the refill from the start to the last check, in whatever order
-- the checks of other keys are mixed in, while the clock does not run backwards or leave i64.
pub granted_from_new :
    (config : TokenBucketRateLimitConfig) (key : Str) (start : ℕ) (trace : Trace)
    → config.enabled ≡ true
    → EvictsOnlyFull (new_limiter config)
    → InOrder start trace
    → granted (new_limiter config) key trace * token
      ≤ clamp_non_negative config.burst * token
        + (last_time start trace - start) * clamp_non_negative config.refill_per_minute
unfolding new_limiter lookup
granted_from_new config key start trace on full order =
    granted-le (new_limiter config) key start trace on
      (record { entries = tt; each = λ k b found. absurd (cc) }) full order
