-- ===== src/RateLimit/Refill.antt =====
-- How fast what a key may spend grows, and why the eviction of idle buckets does not show.
use native.Mathlib.Nat.{mul-le-mul_right, add-mul}
use cordn_rs.Common.{
  ℕ, ◌+◌, ◌-◌, ◌*◌, ◌≤◌, ◌<◌, ◌^◌, ◌≡◌, ◌⊎◌, refl, arith, zero, suc, Bool-cases, inl, inr, false,
  Option, none, some, Str, str_discrete, sym, subst, ◌∙◌,
}
use cordn_rs.Common.Int.{pos, pos_part, sub_ℕ, sub_i64-pos, ltb_ℤ, sub_i64}
use cordn_rs.Common.Entries.{kept}
use cordn_rs.Common.Assoc.{lookup}
use cordn_rs.RateLimit.{TokenBucketRateLimiter, TokenBucketState, available, min}
use cordn_rs.RateLimit.Allowance.{IsBucket, IsSound, survives, allowance, holds}

-- A bucket that is evicted would have been full: idle eviction is off, or slower than the refill.
abbrev pub EvictsOnlyFull : TokenBucketRateLimiter → Type 0
EvictsOnlyFull rl = (rl.idle_ttl_ms ≡ 0) ⊎ (rl.burst ≤ rl.idle_ttl_ms * rl.refill_tokens_per_ms)

available_since :
    (rl : TokenBucketRateLimiter) (past t : ℕ) (b : TokenBucketState) (h : IsBucket rl.burst past b)
    → past ≤ t
    → t < 2 ^ 63
    → available rl (pos t) b ≡ min (b.tokens + (t - h.touched) * rl.refill_tokens_per_ms) rl.burst
unfolding available
available_since rl past t b h le small =
    let before = h.past in
    let gone : pos_part (sub_ℕ t h.touched) ≡ t - h.touched = ground arith in
    rw (h.refilled, sub_i64-pos t h.touched small (omega arith), gone) refl

min_of_more : (a b c : ℕ) → b ≤ c → min (a + c) b ≡ b
min_of_more a b c le = ground arith

-- How long a bucket that the eviction drops was idle.
idle_for :
    (burst past ttl t : ℕ) (b : TokenBucketState) (h : IsBucket burst past b)
    → past ≤ t
    → t < 2 ^ 63
    → survives ttl (pos t) b ≡ false
    → (0 < ttl) × (ttl ≤ t - h.touched)
idle_for burst past zero t b h le small dead = absurd (cc)
idle_for burst past (suc ttl) t b h le small dead =
    let before = h.past in
    let dead' : ltb_ℤ (sub_i64 (pos t) (pos h.touched)) (pos (suc ttl)) ≡ false =
      subst (λ q. ltb_ℤ (sub_i64 (pos t) q) (pos (suc ttl)) ≡ false) h.seen dead in
    let dead'' : ltb_ℤ (sub_ℕ t h.touched) (pos (suc ttl)) ≡ false =
      subst (λ q. ltb_ℤ q (pos (suc ttl)) ≡ false) (sub_i64-pos t h.touched small (omega arith))
        dead' in
    ground arith

idle_is_full :
    (rl : TokenBucketRateLimiter) (past t : ℕ) (b : TokenBucketState) (h : IsBucket rl.burst past b)
    → past ≤ t
    → t < 2 ^ 63
    → EvictsOnlyFull rl
    → survives rl.idle_ttl_ms (pos t) b ≡ false
    → available rl (pos t) b ≡ rl.burst
idle_is_full rl past t b h le small (inl off) dead =
    let (on, long) = idle_for rl.burst past rl.idle_ttl_ms t b h le small dead in
    absurd (omega arith)
idle_is_full rl past t b h le small (inr slow) dead =
    let (on, long) = idle_for rl.burst past rl.idle_ttl_ms t b h le small dead in
    let more = mul-le-mul_right rl.refill_tokens_per_ms long in
    available_since rl past t b h le small
    ∙ min_of_more b.tokens rl.burst ((t - h.touched) * rl.refill_tokens_per_ms) (omega arith)

-- So the eviction takes nothing from a key and gives nothing to it.
eviction_unseen :
    (rl : TokenBucketRateLimiter) (past t : ℕ) (b : TokenBucketState) (h : IsBucket rl.burst past b)
    → past ≤ t
    → t < 2 ^ 63
    → EvictsOnlyFull rl
    → holds rl (pos t) (kept (survives rl.idle_ttl_ms (pos t)) (some b)) ≡ available rl (pos t) b
eviction_unseen rl past t b h le small full =
    elim (Bool-cases (survives rl.idle_ttl_ms (pos t) b)) [
      | inl alive ↦ rw alive refl
      | inr dead ↦ rw dead (sym (idle_is_full rl past t b h le small full dead))
    ]

min_grows : (a x y burst : ℕ) → min (a + (x + y)) burst ≤ min (a + x) burst + y
min_grows a x y burst = ground arith

available_grows :
    (rl : TokenBucketRateLimiter) (past t later : ℕ) (b : TokenBucketState)
    (h : IsBucket rl.burst past b)
    → past ≤ t
    → t ≤ later
    → later < 2 ^ 63
    → available rl (pos later) b ≤ available rl (pos t) b + (later - t) * rl.refill_tokens_per_ms
available_grows rl past t later b h le le' small =
    let before = h.past in
    let r = rl.refill_tokens_per_ms in
    let split : later - h.touched ≡ (t - h.touched) + (later - t) = omega arith in
    rw
      (
        available_since rl past t b h le (omega arith),
        available_since rl past later b h (omega arith) small,
        split,
        add-mul (t - h.touched) (later - t) r,
      )
      (min_grows b.tokens ((t - h.touched) * r) ((later - t) * r) rl.burst)

holds_grows :
    (rl : TokenBucketRateLimiter) (past t later : ℕ) (o : Option TokenBucketState)
    → ((b : TokenBucketState) → o ≡ some b → IsBucket rl.burst past b)
    → past ≤ t
    → t ≤ later
    → later < 2 ^ 63
    → EvictsOnlyFull rl
    → holds rl (pos later) (kept (survives rl.idle_ttl_ms (pos later)) o)
      ≤ holds rl (pos t) (kept (survives rl.idle_ttl_ms (pos t)) o)
        + (later - t) * rl.refill_tokens_per_ms
holds_grows rl past t later none each le le' small full = omega arith
holds_grows rl past t later (some b) each le le' small full =
    let h = each b refl in
    rw
      (
        eviction_unseen rl past t b h le (omega arith) full,
        eviction_unseen rl past later b h (omega arith) small full,
      )
      (available_grows rl past t later b h le le' small)

-- What a key may spend grows no faster than the refill.
pub allowance_grows :
    (rl : TokenBucketRateLimiter) (key : Str) (past t later : ℕ)
    → IsSound rl past
    → past ≤ t
    → t ≤ later
    → later < 2 ^ 63
    → EvictsOnlyFull rl
    → allowance rl key later ≤ allowance rl key t + (later - t) * rl.refill_tokens_per_ms
allowance_grows rl key past t later s le le' small full =
    holds_grows rl past t later (lookup str_discrete key rl.buckets) (s.each key) le le' small full
