-- ===== src/Common/Rows.antt =====
-- Rows of one table that are read by a key column, and maps of lists that hold the same rows.
use Prim.Native.Nat.{◌+◌, ◌≤◌}
use mathlib.Core.Path.{◌≡◌, refl, sym, ap, ◌∙◌}
use mathlib.Core.Logic.{inl, inr}
use mathlib.Core.Bool.{Bool, true, not, ◌&&◌}
use mathlib.Core.List.{List, [], ◌∷◌, ◌++◌, append-nil}
use mathlib.Core.Option.{none, some}
use native.Mathlib.Omega.{arith}
use cordn_rs.Common.Tests.{if◌then◌else◌, Bool-cases, Option-cases, Str, str_eq, str_discrete}
use cordn_rs.Common.Lists.{retain, count_if, retain-append, drop}
use cordn_rs.Common.Search.{find, erase_first}
use cordn_rs.Common.Assoc.{Assoc, IsMap}
use cordn_rs.Common.Buckets.{bucket}

module _ {A : Type 0} where
  pub retain_comm : (p q : A → Bool) (xs : List A) → retain p (retain q xs) ≡ retain q (retain p xs)
  unfolding retain
  retain_comm p q [] = refl
  retain_comm p q (x ∷ xs) = ground (arith, retain_comm p q xs)

  count_if-one : (p : A → Bool) (xs : List A) {x : A} → find p xs ≡ some x → 1 ≤ count_if p xs
  unfolding find count_if
  count_if-one p [] h = absurd (cc)
  count_if-one p (y ∷ xs) {x} h = ground (arith, count_if-one p xs {x = x})

  pub find-retain-none :
      (p q : A → Bool) (xs : List A) → find p xs ≡ none → find p (retain q xs) ≡ none
  unfolding find retain
  find-retain-none p q [] h = refl
  find-retain-none p q (x ∷ xs) h = ground (arith, find-retain-none p q xs)

  count_if-retain-pos :
      (p q : A → Bool) (xs : List A) {x : A} → find p (retain q xs) ≡ some x → 1 ≤ count_if p xs
  unfolding find retain count_if
  count_if-retain-pos p q [] h = absurd (cc)
  count_if-retain-pos p q (y ∷ xs) {x} h = ground (arith, count_if-retain-pos p q xs {x = x})

  -- What is found among some rows is the row found among all, if only one passes the test.
  pub find-of_retain :
      (p q : A → Bool) (xs : List A) {x : A}
      → count_if p xs ≤ 1
      → find p (retain q xs) ≡ some x
      → find p xs ≡ some x
  unfolding find retain count_if
  find-of_retain p q [] h e = absurd (cc)
  find-of_retain p q (y ∷ xs) {x} h e =
      ground (arith, find-of_retain p q xs {x = x}, count_if-retain-pos p q xs {x = x})

  -- The first that passes is the first among those that pass another test which it passes.
  pub find-retain-some :
      (p q : A → Bool) (xs : List A) {x : A}
      → find p xs ≡ some x
      → q x ≡ true
      → find p (retain q xs) ≡ some x
  unfolding find retain
  find-retain-some p q [] h e = absurd (cc)
  find-retain-some p q (y ∷ xs) {x} h e = elim (Bool-cases (p y)) [
    | inl t ↦
        let same : y ≡ x = ground arith in let passes : q y ≡ true = ap q same ∙ e in ground arith
    | inr f ↦ ground (arith, find-retain-some p q xs {x = x})
  ]

  pub count_if-erase_first :
      (p q : A → Bool) (xs : List A) {x : A}
      → find q xs ≡ some x
      → count_if p xs ≡ (if p x then 1 else 0) + count_if p (erase_first q xs)
  unfolding find count_if erase_first
  count_if-erase_first p q [] h = absurd (cc)
  count_if-erase_first p q (y ∷ xs) {x} h = elim (Bool-cases (q y)) [
    | inl t ↦ let same : y ≡ x = ground arith in let tests : p y ≡ p x = ap p same in ground arith
    | inr f ↦ ground (arith, count_if-erase_first p q xs {x = x})
  ]

module _ {A : Type 0} (key : A → Str) where
  -- The rows with that key, in order.
  abbrev pub has_key : Str → A → Bool
  has_key k r = str_eq (key r) k

  abbrev pub rows_of : Str → List A → List A
  rows_of k rows = retain (has_key k) rows

  -- Two lists that show the same rows under every key.
  abbrev pub Agree : List A → List A → Type 0
  Agree xs ys = (k : Str) → rows_of k xs ≡ rows_of k ys

  has_key_self : (r : A) → has_key (key r) r ≡ true
  has_key_self r = ground arith

  pub rows_of-push :
      (k : Str) (rows : List A) (r : A)
      → rows_of k (rows ++ r ∷ [])
        ≡ (if str_eq (key r) k then rows_of k rows ++ r ∷ [] else rows_of k rows)
  unfolding retain
  rows_of-push k rows r =
      ground (arith, retain-append (has_key k) rows (r ∷ []), append-nil (rows_of k rows))

  -- A deletion of rows under `k` that pass a test.
  abbrev pub delete_rows : Str → (A → Bool) → List A → List A
  delete_rows k q rows = retain (λ r. not (has_key k r && q r)) rows

  pub rows_of-delete :
      (k j : Str) (q : A → Bool) (rows : List A)
      → rows_of j (delete_rows k q rows)
        ≡ (if str_eq k j then retain (λ r. not (q r)) (rows_of j rows) else rows_of j rows)
  unfolding retain
  rows_of-delete k j q [] = ground arith
  rows_of-delete k j q (r ∷ rows) = ground (arith, rows_of-delete k j q rows)

  first_of_rows :
      (k : Str) (zs : List A) {x : A} {rest : List A}
      → rows_of k zs ≡ x ∷ rest
      → find (has_key k) zs ≡ some x
  unfolding retain find
  first_of_rows k [] e = absurd (cc)
  first_of_rows k (z ∷ zs) {x} {rest} e = ground (arith, first_of_rows k zs {x = x} {rest = rest})

  first_agrees :
      (x : A) (xs ys : List A) → Agree (x ∷ xs) ys → rows_of (key x) ys ≡ x ∷ rows_of (key x) xs
  unfolding retain
  first_agrees x xs ys h = ground (arith, h (key x), has_key_self x)

  found_first : (x : A) (xs ys : List A) → Agree (x ∷ xs) ys → find (has_key (key x)) ys ≡ some x
  found_first x xs ys h = first_of_rows (key x) ys (first_agrees x xs ys h)

  rows_of-erase_first :
      (k j : Str) (ys : List A)
      → rows_of j (erase_first (has_key k) ys)
        ≡ (if str_eq k j then drop 1 (rows_of j ys) else rows_of j ys)
  unfolding retain erase_first
  rows_of-erase_first k j [] = ground arith
  rows_of-erase_first k j (y ∷ ys) = ground (arith, rows_of-erase_first k j ys)

  Agree-rest :
      (x : A) (xs ys : List A) → Agree (x ∷ xs) ys → Agree xs (erase_first (has_key (key x)) ys)
  unfolding retain
  Agree-rest x xs ys h j = ground (arith, h j, rows_of-erase_first (key x) j ys)

  Agree-nil : (ys : List A) → Agree [] ys → ys ≡ []
  unfolding retain
  Agree-nil [] h = refl
  Agree-nil (y ∷ ys) h = absurd (ground (arith, h (key y), has_key_self y))

  -- Such lists hold the same rows: each test counts as many in both.
  pub count_if-Agree : (p : A → Bool) (xs ys : List A) → Agree xs ys → count_if p xs ≡ count_if p ys
  unfolding count_if
  count_if-Agree p [] ys h = ap (count_if p) (sym (Agree-nil ys h))
  count_if-Agree p (x ∷ xs) ys h =
      let rest = erase_first (has_key (key x)) ys in
      ground (
        arith,
        count_if-Agree p xs rest (Agree-rest x xs ys h),
        count_if-erase_first p (has_key (key x)) ys (found_first x xs ys h),
      )

  -- If a test passes for one row at most, both find the same row.
  pub find-Agree :
      (p : A → Bool) (xs ys : List A) → Agree xs ys → count_if p xs ≤ 1 → find p xs ≡ find p ys
  find-Agree p xs ys h one = elim (Option-cases (find p ys)) [
    | inl missing ↦ elim (Option-cases (find p xs)) [
      | inl none_too ↦ none_too ∙ sym missing
      | inr (r, found) ↦
          let here : find p (rows_of (key r) xs) ≡ some r =
            find-retain-some p (has_key (key r)) xs found (has_key_self r) in
          let gone = find-retain-none p (has_key (key r)) ys missing in
          absurd (cc (here, gone, h (key r)))
    ]
    | inr (r, found) ↦
        let there : find p (rows_of (key r) ys) ≡ some r =
          find-retain-some p (has_key (key r)) ys found (has_key_self r) in
        let here : find p (rows_of (key r) xs) ≡ some r = ap (find p) (h (key r)) ∙ there in
        find-of_retain p (has_key (key r)) xs one here ∙ sym found
  ]

  -- The map holds the rows, filed by their key.
  pub record Holds (rows : List A) (m : Assoc Str (List A)) : Type 0 where
    pub filing : IsMap m
    pub each : (k : Str) → rows_of k rows ≡ bucket str_discrete k m
