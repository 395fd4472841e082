-- ===== src/Common/Buckets.antt =====
-- Maps from keys to lists, where a key whose list is left empty is removed.
use Prim.Native.Nat.{ℕ, ◌+◌, ◌-◌}
use mathlib.Core.Path.{◌≡◌, refl, sym}
use mathlib.Core.Logic.{ite}
use mathlib.Core.Bool.{Bool}
use mathlib.Core.Option.{some}
use mathlib.Core.List.{List, [], ◌∷◌, ◌++◌}
use native.Mathlib.Omega.{arith}
use cordn_rs.Common.Tests.{if◌then◌else◌}
use cordn_rs.Common.Lists.{
  length, is_empty, or_default, retain, flatten, length-append, length-retain-le, All,
}
use cordn_rs.Common.Assoc.{
  Assoc, IsMap, IsFresh, lookup, adjust, upsert, remove, values, lookup-adjust, lookup-remove,
  lookup-upsert, adjust-IsMap, remove-IsMap, lookup-fresh,
}

module _ {K A : Type 0} where
  -- How many elements a map of lists holds.
  abbrev pub total : Assoc K (List A) → ℕ
  total m = length (flatten (values m))

module _ {K A : Type 0} (dec : Discrete K) where
  -- The list under `k`, which is empty if there is none.
  abbrev pub bucket : K → Assoc K (List A) → List A
  bucket k m = or_default (lookup dec k m)

  -- The vector behind `get_mut(k)` has become `rest`; `shift_remove(k)` if that is empty.
  unfoldable pub refile : K → List A → Assoc K (List A) → Assoc K (List A)
  refile k rest m =
      let m' = adjust dec k (λ _. rest) m in if is_empty rest then remove dec k m' else m'

  -- `shift_remove` of each key in turn.
  unfoldable pub remove_all : List K → Assoc K (List A) → Assoc K (List A)
  remove_all [] m = m
  remove_all (k ∷ ks) m = remove_all ks (remove dec k m)

module _ {K A : Type 0} (keep : A → Bool) where
  -- One pass over `iter_mut()` that retains in each list what `keep` lets through: the number that
  -- goes, the keys whose lists are left empty, and the map.
  unfoldable pub retain_each : Assoc K (List A) → ℕ × List K × Assoc K (List A)
  retain_each [] = (0, [], [])
  retain_each ((k, xs) ∷ m) =
      let (deleted, empty_keys, m') = retain_each m in
      let kept = retain keep xs in
      (
        length xs - length kept + deleted,
        (if is_empty kept then k ∷ empty_keys else empty_keys),
        (k, kept) ∷ m',
      )

  -- The same without the lists left empty.
  unfoldable pub sieve : Assoc K (List A) → Assoc K (List A)
  sieve [] = []
  sieve ((k, xs) ∷ m) = if is_empty (retain keep xs) then sieve m else (k, retain keep xs) ∷ sieve m

module _ {K A : Type 0} (dec : Discrete K) where
  pub refile-IsMap :
      (k : K) (rest : List A) (m : Assoc K (List A)) → IsMap m → IsMap (refile dec k rest m)
  unfolding refile
  refile-IsMap k rest m w =
      let w' = adjust-IsMap dec k (λ _. rest) m w in
      ground (arith, remove-IsMap dec k (adjust dec k (λ _. rest) m) w')

  -- Only the list under `k` changes.
  pub bucket-refile :
      (k j : K) (rest : List A) (m : Assoc K (List A)) {xs : List A}
      → IsMap m
      → lookup dec k m ≡ some xs
      → bucket dec j (refile dec k rest m) ≡ ite (dec k j) rest (bucket dec j m)
  unfolding refile
  bucket-refile k j rest m w h =
      let m' = adjust dec k (λ _. rest) m in
      let w' = adjust-IsMap dec k (λ _. rest) m w in
      ground (arith, lookup-adjust dec k j (λ _. rest) m, lookup-remove dec k j m' w')

  -- Pushing changes only the list under `k`.
  pub bucket-push :
      (k j : K) (a : A) (m : Assoc K (List A))
      → bucket dec j (upsert dec k [] (λ xs. xs ++ a ∷ []) m)
        ≡ ite (dec k j) (bucket dec j m ++ a ∷ []) (bucket dec j m)
  bucket-push k j a m = ground (arith, lookup-upsert dec k j [] (λ xs. xs ++ a ∷ []) m)

module _ {K A : Type 0} (dec : Discrete K) (keep : A → Bool) where
  IsFresh-sieve : (k : K) (m : Assoc K (List A)) → IsFresh k m → IsFresh k (sieve keep m)
  unfolding sieve
  IsFresh-sieve k [] h = tt
  IsFresh-sieve k ((j, xs) ∷ m) h = ground (arith, IsFresh-sieve k m h.1)

  pub sieve-IsMap : (m : Assoc K (List A)) → IsMap m → IsMap (sieve keep m)
  unfolding sieve
  sieve-IsMap [] h = tt
  sieve-IsMap ((j, xs) ∷ m) h = ground (arith, sieve-IsMap m h.1, IsFresh-sieve j m h.0)

  -- the keys left empty are keys of the map
  Apart-empty :
      (k : K) (m : Assoc K (List A)) → IsFresh k m → All (λ j. ¬ (k ≡ j)) (retain_each keep m).1
  unfolding retain_each
  Apart-empty k [] h = tt
  Apart-empty k ((j, xs) ∷ m) h = ground (arith, Apart-empty k m h.1, λ (e : k ≡ j). h.0 (sym e))

  remove_all-cons :
      (k : K) (v : List A) (ks : List K) (m : Assoc K (List A))
      → All (λ j. ¬ (k ≡ j)) ks
      → remove_all dec ks ((k, v) ∷ m) ≡ (k, v) ∷ remove_all dec ks m
  unfolding remove_all remove
  remove_all-cons k v [] m h = refl
  remove_all-cons k v (j ∷ ks) m h = ground (arith, remove_all-cons k v ks (remove dec j m) h.1)

  -- The pass and the removals after it leave the sieved map.
  pub remove_all-sieve :
      (m : Assoc K (List A))
      → IsMap m
      → remove_all dec (retain_each keep m).1 (retain_each keep m).2 ≡ sieve keep m
  unfolding retain_each remove_all sieve remove
  remove_all-sieve [] w = refl
  remove_all-sieve ((k, xs) ∷ m) w = ground (
    arith,
    remove_all-sieve m w.1,
    remove_all-cons k (retain keep xs) (retain_each keep m).1 (retain_each keep m).2
        (Apart-empty k m w.0),
  )

  pub bucket-sieve :
      (j : K) (m : Assoc K (List A))
      → IsMap m
      → bucket dec j (sieve keep m) ≡ retain keep (bucket dec j m)
  unfolding sieve lookup retain
  bucket-sieve j [] w = refl
  bucket-sieve j ((k, xs) ∷ m) w =
      ground
        (arith, bucket-sieve j m w.1, lookup-fresh dec k (sieve keep m) (IsFresh-sieve k m w.0))

  -- The count is the number of elements that went.
  pub deleted-total :
      (m : Assoc K (List A)) → (retain_each keep m).0 + total (sieve keep m) ≡ total m
  unfolding retain_each sieve flatten values
  deleted-total [] = refl
  deleted-total ((k, xs) ∷ m) = ground (
    arith,
    deleted-total m,
    length-retain-le keep xs,
    length-append xs (flatten (values m)),
    length-append (retain keep xs) (flatten (values (sieve keep m))),
  )
