-- ===== src/Tests/Limiter.antt =====
-- The theorems on the rate limiter, at a concrete configuration.
use cordn_rs.Common.{◌≡◌, ◌≢◌, refl, ◌+◌, ◌*◌, ◌-◌, ◌≤◌, arith, inl, [], ◌∷◌, true, ap, length}
use cordn_rs.Common.Int.{pos}
use cordn_rs.Common.Assoc.{lookup}
use cordn_rs.RateLimit.{TokenBucketRateLimitConfig, new_limiter, check, clamp_non_negative, token}
use cordn_rs.RateLimit.Allowance.{Spends, IsSound, allowance, check-Spends}
use cordn_rs.RateLimit.Keys.{check-other}
use cordn_rs.RateLimit.Accounting.{Trace, granted, last_time, granted_from_new}
use cordn_rs.Tests.{alice, bob}

abbrev one_a_second : TokenBucketRateLimitConfig
one_a_second = record {
  enabled = true;
  refill_per_minute = pos 60;
  burst = pos 1;
  idle_ttl_ms = pos 0;
}

abbrev checks : Trace
checks = (alice, 0) ∷ (bob, 0) ∷ (alice, 0) ∷ (alice, 1000) ∷ []

granted_from_new_example :
    granted (new_limiter one_a_second) alice checks * token
    ≤ clamp_non_negative (pos 1) * token + (last_time 0 checks - 0) * clamp_non_negative (pos 60)
unfolding new_limiter
granted_from_new_example = granted_from_new one_a_second alice 0 checks refl (inl refl) (
  omega arith,
  omega arith,
  (omega arith, omega arith, (omega arith, omega arith, (omega arith, omega arith, tt))),
)

alice_ne_bob : alice ≢ bob
alice_ne_bob e = omega (arith, ap length e)

fresh-IsSound : IsSound (new_limiter one_a_second) 0
unfolding new_limiter lookup
fresh-IsSound = record { entries = tt; each = λ k b found. absurd (cc) }

check-Spends_example :
    Spends
      (new_limiter one_a_second)
      alice
      5
      (allowance (new_limiter one_a_second) alice 5)
      (check (new_limiter one_a_second) alice (pos 5))
unfolding new_limiter
check-Spends_example =
    check-Spends (new_limiter one_a_second) alice 5 fresh-IsSound.entries refl (omega arith)

check-other_example :
    allowance (check (new_limiter one_a_second) alice (pos 5)).1 bob 9
    ≡ allowance (new_limiter one_a_second) bob 9
unfolding new_limiter
check-other_example =
    check-other (new_limiter one_a_second) alice bob 0 5 9 refl fresh-IsSound (omega arith)
      (omega arith) (omega arith) (λ e. alice_ne_bob e)
