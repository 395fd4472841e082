-- ===== src/Common/Search.antt =====
-- The first element that passes a test: what `position`, `find` and a removal at that index mean.
use Prim.Native.Nat.{ℕ, zero, suc, ◌+◌, ◌≤◌}
use mathlib.Core.Path.{◌≡◌, refl, subst}
use mathlib.Core.Logic.{inl, inr}
use mathlib.Core.Bool.{Bool, true, false}
use mathlib.Core.List.{List, [], ◌∷◌, ◌++◌}
use mathlib.Core.Option.{Option, none, some}
use native.Mathlib.Omega.{arith}
use cordn_rs.Common.Tests.{if◌then◌else◌, Bool-cases}
use cordn_rs.Common.Lists.{All, length, position, remove_at, count_if, retain, any}

module _ {ℓ} {A : Type ℓ} where
  unfoldable pub find : (A → Bool) → List A → Option A
  find p [] = none
  find p (x ∷ xs) = if p x then some x else find p xs

  -- `or_else`
  abbrev pub or_else : Option A → Option A → Option A
  or_else none b = b
  or_else (some a) b = some a

  unfoldable pub erase_first : (A → Bool) → List A → List A
  erase_first p [] = []
  erase_first p (x ∷ xs) = if p x then xs else x ∷ erase_first p xs

  -- A write through `iter_mut().find(p)`.
  unfoldable pub update_first : (A → Bool) → (A → A) → List A → List A
  update_first p f [] = []
  update_first p f (x ∷ xs) = if p x then f x ∷ xs else x ∷ update_first p f xs

module _ {ℓ} {A : Type ℓ} (p : A → Bool) where
  pub find-append :
      (xs ys : List A) → find p (xs ++ ys) ≡ elim (find p xs) [ none ↦ find p ys | some x ↦ some x ]
  unfolding find
  find-append [] ys = ground arith
  find-append (x ∷ xs) ys = ground (arith, find-append xs ys)

  pub find-eq-none_of_position : (xs : List A) → position p xs ≡ none → find p xs ≡ none
  unfolding find position
  find-eq-none_of_position [] h = refl
  find-eq-none_of_position (x ∷ xs) h = ground (arith, find-eq-none_of_position xs)

  pub position-found :
      (xs : List A) {i : ℕ} {x : A}
      → position p xs ≡ some (i, x)
      → (find p xs ≡ some x) × (remove_at i xs ≡ some (x, erase_first p xs))
  unfolding find position remove_at erase_first
  position-found [] h = cc
  position-found (y ∷ xs) {i = zero} h = ground arith
  position-found (y ∷ xs) {i = suc j} {x} h =
      let q : position p xs ≡ some (j, x) = ground arith in
      let (f, r) = position-found xs q in
      let e : p y ≡ false = ground arith in (rw e f, rw (e, r) refl)

  pub erase_first-append_found :
      (xs ys : List A) {x : A}
      → find p xs ≡ some x
      → erase_first p (xs ++ ys) ≡ erase_first p xs ++ ys
  unfolding find erase_first
  erase_first-append_found [] ys h = cc
  erase_first-append_found (y ∷ xs) ys {x} h =
      ground (arith, erase_first-append_found xs ys {x = x})

  pub erase_first-append_none :
      (xs ys : List A) → find p xs ≡ none → erase_first p (xs ++ ys) ≡ xs ++ erase_first p ys
  unfolding find erase_first
  erase_first-append_none [] ys h = refl
  erase_first-append_none (x ∷ xs) ys h = ground (arith, erase_first-append_none xs ys)

  pub length-erase_first :
      (xs : List A) {x : A} → find p xs ≡ some x → length (erase_first p xs) + 1 ≡ length xs
  unfolding find erase_first
  length-erase_first [] h = cc
  length-erase_first (y ∷ xs) {x} h = ground (arith, length-erase_first xs {x = x})

  pub All-erase_first {κ} : (P : A → Type κ) (xs : List A) → All P xs → All P (erase_first p xs)
  unfolding erase_first
  All-erase_first P [] h = tt
  All-erase_first P (x ∷ xs) h = ground (arith, All-erase_first P xs h.1)

  pub All-find {κ} : (P : A → Type κ) (xs : List A) {x : A} → All P xs → find p xs ≡ some x → P x
  unfolding find
  All-find P [] h e = absurd (cc)
  All-find P (y ∷ xs) {x} h e = elim (Bool-cases (p y)) [
    | inl t ↦ let same : y ≡ x = ground arith in subst P same h.0
    | inr f ↦ All-find P xs h.1 (ground arith)
  ]

  pub erase_first-none : (xs : List A) → find p xs ≡ none → erase_first p xs ≡ xs
  unfolding find erase_first
  erase_first-none [] h = refl
  erase_first-none (x ∷ xs) h = ground (arith, erase_first-none xs)

  pub length-update_first : (f : A → A) (xs : List A) → length (update_first p f xs) ≡ length xs
  unfolding update_first
  length-update_first f [] = refl
  length-update_first f (x ∷ xs) = ground (arith, length-update_first f xs)

  pub count_if-eq-zero_of_find : (xs : List A) → find p xs ≡ none → count_if p xs ≡ 0
  unfolding find count_if
  count_if-eq-zero_of_find [] h = refl
  count_if-eq-zero_of_find (x ∷ xs) h = ground (arith, count_if-eq-zero_of_find xs)

module _ {ℓ} {A : Type ℓ} (p : A → Bool) where
  pub find-true : (xs : List A) {x : A} → find p xs ≡ some x → p x ≡ true
  unfolding find
  find-true [] h = absurd (cc)
  find-true (y ∷ xs) {x} h = elim (Bool-cases (p y)) [
    | inl t ↦ let same : y ≡ x = ground arith in subst (λ z. p z ≡ true) same t
    | inr f ↦ find-true xs (ground arith)
  ]

  pub any-find-none : (xs : List A) → find p xs ≡ none → any p xs ≡ false
  unfolding any find
  any-find-none [] h = refl
  any-find-none (x ∷ xs) h = ground (arith, any-find-none xs)

  pub any-find-some : (xs : List A) {x : A} → find p xs ≡ some x → any p xs ≡ true
  unfolding any find
  any-find-some [] h = absurd (cc)
  any-find-some (y ∷ xs) {x} h = ground (arith, any-find-some xs {x = x})

module _ {ℓ} {A : Type ℓ} (q : A → Bool) where
  pub count_if-append : (xs ys : List A) → count_if q (xs ++ ys) ≡ count_if q xs + count_if q ys
  unfolding count_if
  count_if-append [] ys = omega arith
  count_if-append (x ∷ xs) ys = ground (arith, count_if-append xs ys)

  pub count_if-retain-le : (p : A → Bool) (xs : List A) → count_if q (retain p xs) ≤ count_if q xs
  unfolding count_if retain
  count_if-retain-le p [] = omega arith
  count_if-retain-le p (x ∷ xs) = ground (arith, count_if-retain-le p xs)

  -- An update in place that does not touch what is counted keeps the count.
  pub count_if-update_first :
      (p : A → Bool) (f : A → A) (xs : List A)
      → ((x : A) → q (f x) ≡ q x)
      → count_if q (update_first p f xs) ≡ count_if q xs
  unfolding count_if update_first
  count_if-update_first p f [] h = refl
  count_if-update_first p f (x ∷ xs) h = ground (arith, h x, count_if-update_first p f xs h)
