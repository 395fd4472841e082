-- ===== src/RateLimit/Keys.antt =====
-- How a check treats the keys that it is not called on.
use cordn_rs.Common.{
  ℕ, ◌-◌, ◌≤◌, ◌<◌, ◌^◌, ◌≡◌, ◌≢◌, refl, ap, arith, zero, suc, Bool-cases, inl, inr, ltb, Bool,
  true, Option, none, some, Str, str_discrete, ◌∙◌, if_neg, subst,
}
use cordn_rs.Common.Int.{pos, sub_i64-pos, ltb_ℤ, sub_i64, sub_ℕ}
use cordn_rs.Common.Entries.{kept}
use cordn_rs.Common.Assoc.{Assoc, lookup, lookup-adjust, lookup-insert}
use cordn_rs.RateLimit.{
  TokenBucketRateLimiter, TokenBucketState, check, check_bucket, bucket_at, available, token,
}
use cordn_rs.RateLimit.Allowance.{
  IsBucket, IsSound, survives, allowance, holds, evicted, enabled_check, lookup-evict,
}
use cordn_rs.RateLimit.Sound.{with_buckets}

-- The bucket of another key is what the eviction left of it, and the configuration stays.
abbrev Frame :
    TokenBucketRateLimiter → Str → Assoc Str TokenBucketState → TokenBucketRateLimiter → Type 0
Frame rl key m rl' =
    (rl' ≡ with_buckets rl rl'.buckets)
    × ((j : Str) → key ≢ j → lookup str_discrete j rl'.buckets ≡ lookup str_discrete j m)

check_bucket-Frame :
    (rl : TokenBucketRateLimiter) (key : Str) (now : ℕ) (m : Assoc Str TokenBucketState)
    (o : Option TokenBucketState)
    → Frame rl key m (check_bucket rl key (pos now) m o).1
check_bucket-Frame rl key now m none = elim (Bool-cases (ltb rl.burst token)) [
  | inl poor ↦ rw poor (refl, λ j n. refl)
  | inr rich ↦ rw rich (
    refl,
    λ j n.
        rw (lookup-insert str_discrete key j (bucket_at (rl.burst - token) (pos now)) m)
          (if_neg (str_discrete key j) n _ _),
  )
]
check_bucket-Frame rl key now m (some b) =
    let has = available rl (pos now) b in
    let write = λ (tokens : ℕ) (j : Str).
      lookup-adjust str_discrete key j (λ _. bucket_at tokens (pos now)) m in
    elim (Bool-cases (ltb has token)) [
      | inl poor ↦ rw poor (refl, λ j n. rw (write has j) (if_neg (str_discrete key j) n _ _))
      | inr rich ↦
          rw rich (refl, λ j n. rw (write (has - token) j) (if_neg (str_discrete key j) n _ _))
    ]

-- What survives at a time has survived at each time before.
survives_before :
    (burst ttl past now later : ℕ) (b : TokenBucketState)
    → IsBucket burst past b
    → past ≤ now
    → now ≤ later
    → later < 2 ^ 63
    → survives ttl (pos later) b ≡ true
    → survives ttl (pos now) b ≡ true
survives_before burst zero past now later b h le le' small alive = refl
survives_before burst (suc ttl) past now later b h le le' small alive =
    let before = h.past in
    let later' : ltb_ℤ (sub_i64 (pos later) (pos h.touched)) (pos (suc ttl)) ≡ true =
      subst (λ q. ltb_ℤ (sub_i64 (pos later) q) (pos (suc ttl)) ≡ true) h.seen alive in
    let later'' : ltb_ℤ (sub_ℕ later h.touched) (pos (suc ttl)) ≡ true =
      subst (λ q. ltb_ℤ q (pos (suc ttl)) ≡ true) (sub_i64-pos later h.touched small (omega arith))
        later' in
    rw (h.seen, sub_i64-pos now h.touched (omega arith) (omega arith)) (ground arith)

kept_twice :
    (p q : TokenBucketState → Bool) (o : Option TokenBucketState)
    → ((b : TokenBucketState) → o ≡ some b → p b ≡ true → q b ≡ true)
    → kept p (kept q o) ≡ kept p o
kept_twice p q none h = refl
kept_twice p q (some b) h = elim (Bool-cases (p b)) [
  | inl yes_it_is ↦ rw (h b refl yes_it_is) refl
  | inr no_it_is_not ↦ ground arith
]

-- With the limiter on and its buckets sound, a check does not change what another key may spend at its own
-- time or later, while the clock does not run backwards or leave i64.
pub check-other :
    (rl : TokenBucketRateLimiter) (key j : Str) (past now later : ℕ)
    → rl.enabled ≡ true
    → IsSound rl past
    → past ≤ now
    → now ≤ later
    → later < 2 ^ 63
    → key ≢ j
    → allowance (check rl key (pos now)).1 j later ≡ allowance rl j later
unfolding available
check-other rl key j past now later on s le le' small n =
    let m = evicted rl now in
    let rl' = (check_bucket rl key (pos now) m (lookup str_discrete key m)).1 in
    let (same, others) = check_bucket-Frame rl key now m (lookup str_discrete key m) in
    let old = lookup str_discrete j rl.buckets in
    let left = others j n ∙ lookup-evict rl.idle_ttl_ms (pos now) j rl.buckets s.entries in
    let again =
      kept_twice (survives rl.idle_ttl_ms (pos later)) (survives rl.idle_ttl_ms (pos now)) old
        (λ b found alive.
          survives_before rl.burst rl.idle_ttl_ms past now later b (s.each j b found) le le' small
            alive) in
    let moved = ap (λ (q : TokenBucketRateLimiter). allowance q j later) same in
    rw (enabled_check rl key (pos now) on) (
      moved
      ∙ ap
          (λ (o : Option TokenBucketState).
            holds rl (pos later) (kept (survives rl.idle_ttl_ms (pos later)) o))
          left
      ∙ ap (holds rl (pos later)) again)

-- Nor does a check change the configuration.
pub check-config :
    (rl : TokenBucketRateLimiter) (key : Str) (now : ℕ)
    → rl.enabled ≡ true
    → (check rl key (pos now)).1 ≡ with_buckets rl (check rl key (pos now)).1.buckets
check-config rl key now on =
    let m = evicted rl now in
    let (same, others) = check_bucket-Frame rl key now m (lookup str_discrete key m) in
    rw (enabled_check rl key (pos now) on) same
