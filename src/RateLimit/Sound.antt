-- ===== src/RateLimit/Sound.antt =====
-- What holds of the buckets of TokenBucketRateLimiter between checks.
use cordn_rs.Common.{
  ℕ, ◌-◌, ◌≤◌, ◌≡◌, refl, arith, Bool-cases, inl, inr, ltb, Bool, true, Option, none, some, Str,
  str_discrete, sym, ◌∙◌, ite, ◌⊎◌, subst,
}
use cordn_rs.Common.Int.{pos}
use cordn_rs.Common.Entries.{kept}
use cordn_rs.Common.Assoc.{
  Assoc, lookup, lookup-adjust, lookup-insert, adjust-IsMap, adjust, insert, insert-IsMap,
}
use cordn_rs.RateLimit.{
  TokenBucketRateLimiter, TokenBucketState, check, check_bucket, bucket_at, available, token,
}
use cordn_rs.RateLimit.Allowance.{
  IsBucket, IsSound, survives, evicted, enabled_check, lookup-evict, evict-IsMap, available-le,
}

IsBucket-later :
    (burst past now : ℕ) (b : TokenBucketState)
    → past ≤ now
    → IsBucket burst past b
    → IsBucket burst now b
IsBucket-later burst past now b le h = record {
  touched = h.touched;
  refilled = h.refilled;
  seen = h.seen;
  past = omega (arith, h.past);
  full_at_most = h.full_at_most;
}

bucket_at-IsBucket :
    (burst now tokens : ℕ) → tokens ≤ burst → IsBucket burst now (bucket_at tokens (pos now))
bucket_at-IsBucket burst now tokens le = record {
  touched = now;
  refilled = refl;
  seen = refl;
  past = omega arith;
  full_at_most = le;
}

kept-some :
    (p : TokenBucketState → Bool) (o : Option TokenBucketState) {b : TokenBucketState}
    → kept p o ≡ some b
    → o ≡ some b
kept-some p none h = h
kept-some p (some a) h = ground arith

abbrev pub with_buckets :
    TokenBucketRateLimiter → Assoc Str TokenBucketState → TokenBucketRateLimiter
with_buckets rl m = record rl { buckets = m }

evicted-IsSound :
    (rl : TokenBucketRateLimiter) (past now : ℕ)
    → IsSound rl past
    → past ≤ now
    → IsSound (with_buckets rl (evicted rl now)) now
evicted-IsSound rl past now s le = record {
  entries = evict-IsMap rl.idle_ttl_ms (pos now) rl.buckets s.entries;
  each = λ key b found.
      let e = lookup-evict rl.idle_ttl_ms (pos now) key rl.buckets s.entries in
      IsBucket-later rl.burst past now b le (
        s.each key b (
          kept-some (survives rl.idle_ttl_ms (pos now)) (lookup str_discrete key rl.buckets)
            (sym e ∙ found)));
}

-- An entry of a map that was written to is the new one or an old one.
module _ {P : Type 0} (v : TokenBucketState) {b : TokenBucketState} where
  adjusted_entry :
      (d : Dec P) (o : Option TokenBucketState)
      → ite d (elim o [ none ↦ none | some u ↦ some v ]) o ≡ some b
      → (v ≡ b) ⊎ (o ≡ some b)
  adjusted_entry (yes p) none e = absurd (cc)
  adjusted_entry (yes p) (some u) e = inl (cc)
  adjusted_entry (no p) o e = inr e

  inserted_entry :
      (d : Dec P) (o : Option TokenBucketState) → ite d (some v) o ≡ some b → (v ≡ b) ⊎ (o ≡ some b)
  inserted_entry (yes p) o e = inl (cc)
  inserted_entry (no p) o e = inr e

module _ (rl : TokenBucketRateLimiter) (key : Str) (now tokens : ℕ)
    (m : Assoc Str TokenBucketState) where
  entry-IsBucket :
      (j : Str) (b : TokenBucketState)
      → tokens ≤ rl.burst
      → IsSound (with_buckets rl m) now
      → (bucket_at tokens (pos now) ≡ b) ⊎ (lookup str_discrete j m ≡ some b)
      → IsBucket rl.burst now b
  entry-IsBucket j b le s (inl e) =
      subst (IsBucket rl.burst now) e (bucket_at-IsBucket rl.burst now tokens le)
  entry-IsBucket j b le s (inr old) = s.each j b old

  adjusted-IsSound :
      tokens ≤ rl.burst
      → IsSound (with_buckets rl m) now
      → IsSound (with_buckets rl (adjust str_discrete key (λ _. bucket_at tokens (pos now)) m)) now
  adjusted-IsSound le s =
      let v = bucket_at tokens (pos now) in
      record {
        entries = adjust-IsMap str_discrete key (λ _. v) m s.entries;
        each = λ j b found. entry-IsBucket j b le s (
            adjusted_entry v (str_discrete key j) (lookup str_discrete j m)
              (sym (lookup-adjust str_discrete key j (λ _. v) m) ∙ found));
      }

  inserted-IsSound :
      tokens ≤ rl.burst
      → IsSound (with_buckets rl m) now
      → IsSound (with_buckets rl (insert str_discrete key (bucket_at tokens (pos now)) m)) now
  inserted-IsSound le s =
      let v = bucket_at tokens (pos now) in
      record {
        entries = insert-IsMap str_discrete key v m s.entries;
        each = λ j b found. entry-IsBucket j b le s (
            inserted_entry v (str_discrete key j) (lookup str_discrete j m)
              (sym (lookup-insert str_discrete key j v m) ∙ found));
      }

check_bucket-IsSound :
    (rl : TokenBucketRateLimiter) (key : Str) (now : ℕ) (m : Assoc Str TokenBucketState)
    (o : Option TokenBucketState)
    → IsSound (with_buckets rl m) now
    → IsSound (check_bucket rl key (pos now) m o).1 now
check_bucket-IsSound rl key now m none s = elim (Bool-cases (ltb rl.burst token)) [
  | inl poor ↦ rw poor s
  | inr rich ↦ rw rich (inserted-IsSound rl key now (rl.burst - token) m (omega arith) s)
]
check_bucket-IsSound rl key now m (some b) s =
    let has = available rl (pos now) b in
    let le = available-le rl (pos now) b in
    elim (Bool-cases (ltb has token)) [
      | inl poor ↦ rw poor (adjusted-IsSound rl key now has m le s)
      | inr rich ↦ rw rich (adjusted-IsSound rl key now (has - token) m (omega arith) s)
    ]

-- Any check keeps the buckets sound, if the clock does not run backwards.
pub check-IsSound :
    (rl : TokenBucketRateLimiter) (key : Str) (past now : ℕ)
    → rl.enabled ≡ true
    → IsSound rl past
    → past ≤ now
    → IsSound (check rl key (pos now)).1 now
check-IsSound rl key past now on s le = rw (enabled_check rl key (pos now) on) (
    check_bucket-IsSound rl key now (evicted rl now) (lookup str_discrete key (evicted rl now))
      (evicted-IsSound rl past now s le))
