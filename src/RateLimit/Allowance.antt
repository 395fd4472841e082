-- ===== src/RateLimit/Allowance.antt =====
-- `check` against what a key may spend: the tokens of its bucket, or a full bucket for a key that has
-- none.
use cordn_rs.Common.{
  ℕ, ◌+◌, ◌-◌, ◌≤◌, ◌<◌, ◌≡◌, refl, arith, zero, suc, ◌==◌, Bool-cases, inl, inr, ltb, leb, Bool,
  true, false, Option, none, some, [], ◌∷◌, Str, str_discrete, if◌then◌else◌, sym, ne→==_false, ◌^◌,
}
use cordn_rs.Common.Int.{ℤ, pos, ltb_ℤ, sub_i64, sub_i64-pos}
use cordn_rs.Common.Entries.{kept, retain-IsMap, lookup-retain}
use cordn_rs.Common.Assoc.{Assoc, IsMap, lookup, lookup-adjust, lookup-insert, adjust, insert}
use cordn_rs.RateLimit.{
  TokenBucketRateLimiter, TokenBucketState, check, available, evict_idle_buckets, token,
  check_bucket, bucket_at,
}

-- The eviction at `now` leaves the bucket.
abbrev pub survives : ℕ → ℤ → TokenBucketState → Bool
survives zero now bucket = true
survives (suc ttl) now bucket = ltb_ℤ (sub_i64 now bucket.last_seen_at) (pos (suc ttl))

-- What a bucket holds at `now`, and a full one if there is none.
abbrev pub holds : TokenBucketRateLimiter → ℤ → Option TokenBucketState → ℕ
holds rl now none = rl.burst
holds rl now (some bucket) = available rl now bucket

-- What a key may spend at `now`.
abbrev pub allowance : TokenBucketRateLimiter → Str → ℕ → ℕ
allowance rl key now =
    holds rl (pos now)
      (kept (survives rl.idle_ttl_ms (pos now)) (lookup str_discrete key rl.buckets))

-- A bucket last touched at a time up to `now`, and not above the burst.
pub record IsBucket (burst now : ℕ) (bucket : TokenBucketState) : Type 0 where
  pub touched : ℕ
  pub refilled : bucket.last_refill_at ≡ pos touched
  pub seen : bucket.last_seen_at ≡ pos touched
  pub past : touched ≤ now
  pub full_at_most : bucket.tokens ≤ burst

pub record IsSound (rl : TokenBucketRateLimiter) (now : ℕ) : Type 0 where
  pub entries : IsMap rl.buckets
  pub each :
      (key : Str) (bucket : TokenBucketState)
      → lookup str_discrete key rl.buckets ≡ some bucket
      → IsBucket rl.burst now bucket

ttl_on : (ttl : ℕ) → (suc ttl == 0) ≡ false
ttl_on ttl = ne→==_false (suc ttl) 0 (omega arith)

pub evict-IsMap :
    (ttl : ℕ) (now : ℤ) (m : Assoc Str TokenBucketState)
    → IsMap m
    → IsMap (evict_idle_buckets ttl now m)
unfolding evict_idle_buckets
evict-IsMap zero now m h = h
evict-IsMap (suc ttl) now [] h = rw (ttl_on ttl) tt
evict-IsMap (suc ttl) now (e ∷ m) h =
    rw (ttl_on ttl) (retain-IsMap str_discrete (survives (suc ttl) now) (e ∷ m) h)

kept_all : (o : Option TokenBucketState) → kept (λ _. true) o ≡ o
kept_all none = refl
kept_all (some b) = refl

pub lookup-evict :
    (ttl : ℕ) (now : ℤ) (key : Str) (m : Assoc Str TokenBucketState)
    → IsMap m
    → lookup str_discrete key (evict_idle_buckets ttl now m)
      ≡ kept (survives ttl now) (lookup str_discrete key m)
unfolding evict_idle_buckets lookup
lookup-evict zero now key m h = sym (kept_all (lookup str_discrete key m))
lookup-evict (suc ttl) now key [] h = rw (ttl_on ttl) refl
lookup-evict (suc ttl) now key (e ∷ m) h =
    rw (ttl_on ttl) (lookup-retain str_discrete (survives (suc ttl) now) key (e ∷ m) h)

-- `check` with the limiter enabled.
pub enabled_check :
    (rl : TokenBucketRateLimiter) (key : Str) (now : ℤ)
    → rl.enabled ≡ true
    → check rl key now
      ≡ check_bucket rl key now
          (evict_idle_buckets rl.idle_ttl_ms now rl.buckets)
          (lookup str_discrete key (evict_idle_buckets rl.idle_ttl_ms now rl.buckets))
unfolding check
enabled_check rl key now on = rw on refl

survives_now :
    (ttl now : ℕ) (b : TokenBucketState)
    → now < 2 ^ 63
    → b.last_seen_at ≡ pos now
    → survives ttl (pos now) b ≡ true
survives_now zero now b small seen = refl
survives_now (suc ttl) now b small seen = rw (seen, sub_i64-pos now now small small) (ground arith)

-- A bucket touched now is not idle, and has refilled nothing.
touched_now :
    (rl : TokenBucketRateLimiter) (m : Assoc Str TokenBucketState) (now tokens : ℕ)
    → now < 2 ^ 63
    → tokens ≤ rl.burst
    → holds
        (record rl { buckets = m })
        (pos now)
        (kept (survives rl.idle_ttl_ms (pos now)) (some (bucket_at tokens (pos now))))
      ≡ tokens
unfolding available
touched_now rl m now tokens small le =
    rw
      (
        survives_now rl.idle_ttl_ms now (bucket_at tokens (pos now)) small refl,
        sub_i64-pos now now small small,
      )
      (ground arith)

-- What `check` does to the key it is called on, by what the eviction leaves of its bucket.
abbrev pub Spends : TokenBucketRateLimiter → Str → ℕ → ℕ → Bool × TokenBucketRateLimiter → Type 0
Spends rl key now had (allowed, rl') =
    (allowed ≡ leb token had) × (allowance rl' key now + (if allowed then token else 0) ≡ had)

abbrev pub evicted : TokenBucketRateLimiter → ℕ → Assoc Str TokenBucketState
evicted rl now = evict_idle_buckets rl.idle_ttl_ms (pos now) rl.buckets

pub available-le :
    (rl : TokenBucketRateLimiter) (now : ℤ) (b : TokenBucketState) → available rl now b ≤ rl.burst
unfolding available
available-le rl now b = ground arith

module _ (key : Str) (v : TokenBucketState) (m : Assoc Str TokenBucketState) where
  lookup_written :
      {b : TokenBucketState}
      → lookup str_discrete key m ≡ some b
      → lookup str_discrete key (adjust str_discrete key (λ _. v) m) ≡ some v
  lookup_written found = rw (lookup-adjust str_discrete key key (λ _. v) m, found) (ground arith)

  lookup_inserted : lookup str_discrete key (insert str_discrete key v m) ≡ some v
  lookup_inserted = rw (lookup-insert str_discrete key key v m) (ground arith)

Spends-some :
    (rl : TokenBucketRateLimiter) (key : Str) (now : ℕ) (m : Assoc Str TokenBucketState)
    (b : TokenBucketState)
    → now < 2 ^ 63
    → lookup str_discrete key m ≡ some b
    → Spends rl key now (available rl (pos now) b) (check_bucket rl key (pos now) m (some b))
unfolding available
Spends-some rl key now m b small found =
    let has = available rl (pos now) b in
    let at_most = available-le rl (pos now) b in
    let after = λ (tokens : ℕ). lookup_written key (bucket_at tokens (pos now)) m found in
    elim (Bool-cases (ltb has token)) [
      | inl poor ↦
          rw
            (
              poor,
              after has,
              touched_now rl (adjust str_discrete key (λ _. bucket_at has (pos now)) m) now has
                  small at_most,
            )
            (ground arith)
      | inr rich ↦
          rw
            (
              rich,
              after (has - token),
              touched_now rl (adjust str_discrete key (λ _. bucket_at (has - token) (pos now)) m)
                  now (has - token) small (omega arith),
            )
            (ground arith)
    ]

Spends-none :
    (rl : TokenBucketRateLimiter) (key : Str) (now : ℕ) (m : Assoc Str TokenBucketState)
    → now < 2 ^ 63
    → lookup str_discrete key m ≡ none
    → Spends rl key now rl.burst (check_bucket rl key (pos now) m none)
Spends-none rl key now m small missing = elim (Bool-cases (ltb rl.burst token)) [
  | inl poor ↦ rw (poor, missing) (ground arith)
  | inr rich ↦
      let left = rl.burst - token in
      rw
        (
          rich,
          lookup_inserted key (bucket_at left (pos now)) m,
          touched_now rl (insert str_discrete key (bucket_at left (pos now)) m) now left small
              (omega arith),
        )
        (ground arith)
]

Spends-found :
    (rl : TokenBucketRateLimiter) (key : Str) (now : ℕ) (m : Assoc Str TokenBucketState)
    (o : Option TokenBucketState)
    → now < 2 ^ 63
    → lookup str_discrete key m ≡ o
    → Spends rl key now (holds rl (pos now) o) (check_bucket rl key (pos now) m o)
Spends-found rl key now m none small e = Spends-none rl key now m small e
Spends-found rl key now m (some b) small e = Spends-some rl key now m b small e

-- With the limiter on, a check is allowed if and only if the key has a whole token to spend, and takes a
-- token just in that case. No key has two buckets, and the clock reads a time from 0 on that i64 holds.
pub check-Spends :
    (rl : TokenBucketRateLimiter) (key : Str) (now : ℕ)
    → IsMap rl.buckets
    → rl.enabled ≡ true
    → now < 2 ^ 63
    → Spends rl key now (allowance rl key now) (check rl key (pos now))
check-Spends rl key now entries on small =
    let e = lookup-evict rl.idle_ttl_ms (pos now) key rl.buckets entries in
    rw (enabled_check rl key (pos now) on, e)
      (Spends-found rl key now (evicted rl now)
        (kept (survives rl.idle_ttl_ms (pos now)) (lookup str_discrete key rl.buckets)) small e)
