-- ===== src/Common/Unique.antt =====
-- Deleting the rows that pass a test which one row at most passes, as a unique column makes it.
use Prim.Native.Nat.{◌+◌, ◌≤◌}
use mathlib.Core.Path.{◌≡◌, refl, ap, ◌∙◌, subst}
use mathlib.Core.Logic.{◌≢◌, inl, inr}
use mathlib.Core.Bool.{Bool, true, not}
use mathlib.Core.List.{List, [], ◌∷◌}
use mathlib.Core.Option.{some}
use native.Mathlib.Omega.{arith}
use cordn_rs.Common.Tests.{if◌then◌else◌, Bool-cases, Str, str_eq, str_discrete}
use cordn_rs.Common.Lists.{retain, count_if}
use cordn_rs.Common.Search.{find, erase_first, count_if-retain-le}
use cordn_rs.Common.Rows.{has_key, rows_of, retain_comm}

module _ {A : Type 0} (p : A → Bool) where
  pub retain_none : (xs : List A) → count_if p xs ≡ 0 → retain (λ x. not (p x)) xs ≡ xs
  unfolding retain count_if
  retain_none [] h = refl
  retain_none (x ∷ xs) h = ground (arith, retain_none xs)

  pub count_if-pos :
      (q : A → Bool) (xs : List A) {r : A} → find q xs ≡ some r → p r ≡ true → 1 ≤ count_if p xs
  unfolding find count_if
  count_if-pos q [] h e = absurd (cc)
  count_if-pos q (x ∷ xs) {r} h e = elim (Bool-cases (q x)) [
    | inl t ↦
        let same : x ≡ r = ground arith in let passes : p x ≡ true = ap p same ∙ e in ground arith
    | inr f ↦ ground (arith, count_if-pos q xs {r = r})
  ]

  -- The row to go is the first that passes `q`.
  retain-erase_first :
      (q : A → Bool) (xs : List A) {r : A}
      → find q xs ≡ some r
      → p r ≡ true
      → count_if p xs ≤ 1
      → retain (λ x. not (p x)) xs ≡ erase_first q xs
  unfolding find count_if retain erase_first
  retain-erase_first q [] h e one = absurd (cc)
  retain-erase_first q (x ∷ xs) {r} h e one = elim (Bool-cases (q x)) [
    | inl t ↦
        let same : x ≡ r = ground arith in
        let passes : p x ≡ true = ap p same ∙ e in ground (arith, retain_none xs)
    | inr f ↦ ground (arith, retain-erase_first q xs {r = r}, count_if-pos q xs {r = r})
  ]

module _ {A : Type 0} (key : A → Str) (p : A → Bool) where
  count_if-apart :
      (k j : Str) (rows : List A)
      → k ≢ j
      → count_if p (rows_of key k rows) + count_if p (rows_of key j rows) ≤ count_if p rows
  unfolding retain count_if
  count_if-apart k j [] n = omega arith
  count_if-apart k j (r ∷ rows) n = ground (arith, count_if-apart k j rows n)

  -- The row of key `k` that `q` finds goes, and no other.
  pub rows_of-delete_unique :
      (q : A → Bool) (k j : Str) (rows : List A) {r : A}
      → find q (rows_of key k rows) ≡ some r
      → p r ≡ true
      → count_if p rows ≤ 1
      → rows_of key j (retain (λ x. not (p x)) rows)
        ≡ (if str_eq k j then erase_first q (rows_of key j rows) else rows_of key j rows)
  rows_of-delete_unique q k j rows {r} h e one =
      let swap = retain_comm (has_key key j) (λ x. not (p x)) rows in
      let some_there = count_if-pos p q (rows_of key k rows) h e in
      let most = count_if-retain-le p (has_key key k) rows in
      elim (str_discrete k j) [
        | yes s ↦
            let here : find q (rows_of key j rows) ≡ some r =
              subst (λ i. find q (rows_of key i rows) ≡ some r) s h in
            let most_here = count_if-retain-le p (has_key key j) rows in
            ground (arith, swap, retain-erase_first p q (rows_of key j rows) here e)
        | no n ↦ ground (arith, swap, retain_none p (rows_of key j rows), count_if-apart k j rows n)
      ]
