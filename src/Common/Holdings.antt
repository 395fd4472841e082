-- ===== src/Common/Holdings.antt =====
-- Rows of a table that a map of lists holds under their keys: what an operation on either keeps.
use Prim.Native.Nat.{suc}
use mathlib.Core.Path.{◌≡◌, refl, sym, ap, ◌∙◌, subst}
use mathlib.Core.Logic.{◌≢◌}
use mathlib.Core.Bool.{true}
use mathlib.Core.List.{List, [], ◌∷◌, append-nil}
use native.Mathlib.Omega.{arith}
use cordn_rs.Common.Tests.{Str, str_discrete}
use cordn_rs.Common.Lists.{All, length, retain, flatten, count_if, retain-append}
use cordn_rs.Common.Assoc.{Assoc, IsMap, lookup, values, lookup-fresh}
use cordn_rs.Common.Buckets.{bucket, total}
use cordn_rs.Common.Rows.{has_key, rows_of, Agree, Holds, count_if-Agree}

module _ {A : Type 0} (key : A → Str) where
  abbrev HasKey : Str → A → Type 0
  HasKey k r = key r ≡ k

  abbrev IsFiled : Assoc Str (List A) → Type 0
  IsFiled [] = Unit
  IsFiled ((k, rs) ∷ m) = All (HasKey k) rs × IsFiled m

  rows_of-HasKey : (k : Str) (rows : List A) → All (HasKey k) (rows_of key k rows)
  unfolding retain
  rows_of-HasKey k [] = tt
  rows_of-HasKey k (r ∷ rows) = ground (arith, rows_of-HasKey k rows)

  rows_of-Same : (k : Str) (rs : List A) → All (HasKey k) rs → rows_of key k rs ≡ rs
  unfolding retain
  rows_of-Same k [] h = refl
  rows_of-Same k (r ∷ rs) h = ground (arith, rows_of-Same k rs h.1)

  rows_of-other : (k j : Str) (rs : List A) → k ≢ j → All (HasKey k) rs → rows_of key j rs ≡ []
  unfolding retain
  rows_of-other k j [] n h = refl
  rows_of-other k j (r ∷ rs) n h = ground (arith, rows_of-other k j rs n h.1)

  IsFiled-of_buckets :
      (m : Assoc Str (List A))
      → IsMap m
      → ((k : Str) → All (HasKey k) (bucket str_discrete k m))
      → IsFiled m
  unfolding lookup
  IsFiled-of_buckets [] w h = tt
  IsFiled-of_buckets ((k, rs) ∷ m) w h = (
    ground (arith, h k),
    IsFiled-of_buckets m w.1 (λ j. elim (str_discrete k j) [
      | yes e ↦
          subst (λ (i : Str). All (HasKey i) (bucket str_discrete i m)) e
            (rw (lookup-fresh str_discrete k m w.0) tt)
      | no n ↦ ground (arith, h j)
    ]),
  )

  rows_of-flatten :
      (j : Str) (m : Assoc Str (List A))
      → IsMap m
      → IsFiled m
      → rows_of key j (flatten (values m)) ≡ bucket str_discrete j m
  unfolding lookup retain flatten values
  rows_of-flatten j [] w h = refl
  rows_of-flatten j ((k, rs) ∷ m) w h = ground (
    arith,
    retain-append (has_key key j) rs (flatten (values m)),
    rows_of-flatten j m w.1 h.1,
    rows_of-Same k rs h.0,
    rows_of-other k j rs,
    lookup-fresh str_discrete k m w.0,
    append-nil rs,
  )

  -- The rows agree with the lists of the map, one after the other.
  pub Holds-Agree :
      (rows : List A) (m : Assoc Str (List A))
      → Holds key rows m
      → Agree key rows (flatten (values m))
  Holds-Agree rows m h k =
      let filed = λ (j : Str). subst (All (HasKey j)) (h.each j) (rows_of-HasKey j rows) in
      h.each k ∙ sym (rows_of-flatten k m h.filing (IsFiled-of_buckets m h.filing filed))

  length-count : (xs : List A) → length xs ≡ count_if (λ _. true) xs
  unfolding count_if
  length-count [] = refl
  length-count (x ∷ xs) = ap suc (length-count xs)

  -- And so there are as many.
  pub Holds-total :
      (rows : List A) (m : Assoc Str (List A)) → Holds key rows m → length rows ≡ total m
  Holds-total rows m h =
      length-count rows
      ∙ count_if-Agree key (λ _. true) rows (flatten (values m)) (Holds-Agree rows m h)
      ∙ sym (length-count (flatten (values m)))
