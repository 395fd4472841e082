-- ===== src/Common/Strings/Bounds.antt =====
-- A number that is parsed fits i64.
use Prim.Native.Nat.{ℕ, zero, suc, ◌<◌, ◌^◌}
use mathlib.Core.Path.{◌≡◌, subst}
use mathlib.Core.Logic.{inl, inr}
use mathlib.Core.List.{[], ◌∷◌}
use mathlib.Core.Option.{Option, none, some}
use native.Mathlib.Omega.{arith}
use cordn_rs.Common.Tests.{ltb, ◌==◌, Str, Bool-cases}
use cordn_rs.Common.Int.{ℤ, pos, negsuc, pos_part}
use cordn_rs.Common.Strings.{parse_i64, non_negative, non_positive, magnitude}

non_negative-bound : (o : Option ℕ) {v : ℤ} → non_negative o ≡ some v → pos_part v < 2 ^ 63
non_negative-bound none h = absurd (cc)
non_negative-bound (some n) {v} h = elim (Bool-cases (ltb n (2 ^ 63))) [
  | inl fits ↦
      let same : pos n ≡ v = ground (arith, h, fits) in
      subst (λ x. pos_part x < 2 ^ 63) same (ground (arith, fits))
  | inr over ↦ absurd (ground (arith, h, over))
]

non_positive-bound : (o : Option ℕ) {v : ℤ} → non_positive o ≡ some v → pos_part v < 2 ^ 63
non_positive-bound none h = absurd (cc)
non_positive-bound (some zero) {v} h =
    let same : pos 0 ≡ v = ground (arith, h) in subst (λ x. pos_part x < 2 ^ 63) same (omega arith)
non_positive-bound (some (suc n)) {v} h = elim (Bool-cases (ltb n (2 ^ 63))) [
  | inl fits ↦
      let same : negsuc n ≡ v = ground (arith, h, fits) in
      subst (λ x. pos_part x < 2 ^ 63) same (omega arith)
  | inr over ↦ absurd (ground (arith, h, over))
]

pub parse_i64-bound : (s : Str) {v : ℤ} → parse_i64 s ≡ some v → pos_part v < 2 ^ 63
unfolding parse_i64
parse_i64-bound [] h = absurd (cc)
parse_i64-bound (c ∷ s) {v} h = elim (Bool-cases (c == b'+')) [
  | inl plus ↦ non_negative-bound (magnitude s) (rw plus at h)
  | inr other ↦ elim (Bool-cases (c == b'-')) [
    | inl minus ↦ non_positive-bound (magnitude s) (rw (other, minus) at h)
    | inr digit ↦ non_negative-bound (magnitude (c ∷ s)) (rw (other, digit) at h)
  ]
]
