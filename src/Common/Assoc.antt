-- ===== src/Common/Assoc.antt =====
-- Maps as association lists in iteration order: std's HashMap, and IndexMap with its insertion order.
use mathlib.Core.Path.{◌≡◌, refl, sym, ap}
use mathlib.Core.Logic.{◌≢◌, ite}
use mathlib.Core.Option.{Option, none, some}
use mathlib.Core.List.{List, [], ◌∷◌}
use native.Mathlib.Omega.{arith}

abbrev pub Assoc {ℓ} : Type ℓ → Type ℓ → Type ℓ
Assoc K V = List (K × V)

module _ {ℓ} {K V : Type ℓ} where
  -- `keys()` and `values()`
  unfoldable pub keys : Assoc K V → List K
  keys [] = []
  keys ((k, v) ∷ m) = k ∷ keys m

  unfoldable pub values : Assoc K V → List V
  values [] = []
  values ((k, v) ∷ m) = v ∷ values m

  -- The key is that of no entry.
  abbrev pub IsFresh : K → Assoc K V → Type ℓ
  IsFresh k [] = Unit {ℓ}
  IsFresh k ((j, v) ∷ m) = (j ≢ k) × IsFresh k m

  -- No key stands twice.
  abbrev pub IsMap : Assoc K V → Type ℓ
  IsMap [] = Unit {ℓ}
  IsMap ((k, v) ∷ m) = IsFresh k m × IsMap m

module _ {ℓ} {K V : Type ℓ} (dec : Discrete K) where
  -- `get`
  unfoldable pub lookup : K → Assoc K V → Option V
  lookup k [] = none
  lookup k ((j, v) ∷ m) = ite (dec j k) (some v) (lookup k m)

  -- a write through `get_mut`, which changes nothing if the key is missing
  unfoldable pub adjust : K → (V → V) → Assoc K V → Assoc K V
  adjust k f [] = []
  adjust k f ((j, v) ∷ m) = ite (dec j k) ((j, f v) ∷ m) ((j, v) ∷ adjust k f m)

  -- a write through `entry(k).or_insert(d)`; a new key goes to the end
  unfoldable pub upsert : K → V → (V → V) → Assoc K V → Assoc K V
  upsert k d f [] = (k, f d) ∷ []
  upsert k d f ((j, v) ∷ m) = ite (dec j k) ((j, f v) ∷ m) ((j, v) ∷ upsert k d f m)

  -- `insert`, which overwrites in place or appends
  unfoldable pub insert : K → V → Assoc K V → Assoc K V
  unfolding upsert
  insert k v m = upsert k v (λ _. v) m

  -- `remove` of HashMap and `shift_remove` of IndexMap, which keep the order of the rest
  unfoldable pub remove : K → Assoc K V → Assoc K V
  remove k [] = []
  remove k ((j, v) ∷ m) = ite (dec j k) m ((j, v) ∷ remove k m)

module _ {ℓ} {K V : Type ℓ} (dec : Discrete K) where
  pub lookup-adjust :
      (k j : K) (f : V → V) (m : Assoc K V)
      → lookup dec j (adjust dec k f m)
        ≡ ite
            (dec k j)
            (elim (lookup dec j m) [ none ↦ none | some v ↦ some (f v) ])
            (lookup dec j m)
  unfolding lookup adjust
  lookup-adjust k j f [] = ground arith
  lookup-adjust k j f ((i, v) ∷ m) = ground (arith, lookup-adjust k j f m)

  pub lookup-upsert :
      (k j : K) (d : V) (f : V → V) (m : Assoc K V)
      → lookup dec j (upsert dec k d f m)
        ≡ ite
            (dec k j)
            (elim (lookup dec j m) [ none ↦ some (f d) | some v ↦ some (f v) ])
            (lookup dec j m)
  unfolding lookup upsert
  lookup-upsert k j d f [] = ground arith
  lookup-upsert k j d f ((i, v) ∷ m) = ground (arith, lookup-upsert k j d f m)

  pub lookup-insert :
      (k j : K) (v : V) (m : Assoc K V)
      → lookup dec j (insert dec k v m) ≡ ite (dec k j) (some v) (lookup dec j m)
  unfolding insert
  lookup-insert k j v m = ground (arith, lookup-upsert k j v (λ _. v) m)

  pub lookup-fresh : (k : K) (m : Assoc K V) → IsFresh k m → lookup dec k m ≡ none
  unfolding lookup
  lookup-fresh k [] h = refl
  lookup-fresh k ((j, v) ∷ m) h = ground (arith, lookup-fresh k m h.1)

  pub lookup-remove :
      (k j : K) (m : Assoc K V)
      → IsMap m
      → lookup dec j (remove dec k m) ≡ ite (dec k j) none (lookup dec j m)
  unfolding lookup remove
  lookup-remove k j [] h = ground arith
  lookup-remove k j ((i, v) ∷ m) h = ground (arith, lookup-remove k j m h.1, lookup-fresh i m h.0)

  IsFresh-adjust :
      (k j : K) (f : V → V) (m : Assoc K V) → IsFresh j m → IsFresh j (adjust dec k f m)
  unfolding adjust
  IsFresh-adjust k j f [] h = tt
  IsFresh-adjust k j f ((i, v) ∷ m) h = ground (arith, IsFresh-adjust k j f m h.1)

  pub adjust-IsMap : (k : K) (f : V → V) (m : Assoc K V) → IsMap m → IsMap (adjust dec k f m)
  unfolding adjust
  adjust-IsMap k f [] h = tt
  adjust-IsMap k f ((i, v) ∷ m) h =
      ground (arith, adjust-IsMap k f m h.1, IsFresh-adjust k i f m h.0)

  IsFresh-upsert :
      (k j : K) (d : V) (f : V → V) (m : Assoc K V)
      → j ≢ k
      → IsFresh j m
      → IsFresh j (upsert dec k d f m)
  unfolding upsert
  IsFresh-upsert k j d f [] e h = (λ q. e (sym q), tt)
  IsFresh-upsert k j d f ((i, v) ∷ m) e h = ground (arith, IsFresh-upsert k j d f m e h.1)

  pub upsert-IsMap :
      (k : K) (d : V) (f : V → V) (m : Assoc K V) → IsMap m → IsMap (upsert dec k d f m)
  unfolding upsert
  upsert-IsMap k d f [] h = (tt, tt)
  upsert-IsMap k d f ((i, v) ∷ m) h = elim (dec i k) [
    | yes p ↦ ground arith
    | no p ↦ ground (arith, upsert-IsMap k d f m h.1, IsFresh-upsert k i d f m p h.0)
  ]

  pub insert-IsMap : (k : K) (v : V) (m : Assoc K V) → IsMap m → IsMap (insert dec k v m)
  unfolding insert
  insert-IsMap k v m h = upsert-IsMap k v (λ _. v) m h

  IsFresh-remove : (k j : K) (m : Assoc K V) → IsFresh j m → IsFresh j (remove dec k m)
  unfolding remove
  IsFresh-remove k j [] h = tt
  IsFresh-remove k j ((i, v) ∷ m) h = ground (arith, IsFresh-remove k j m h.1)

  pub remove-IsMap : (k : K) (m : Assoc K V) → IsMap m → IsMap (remove dec k m)
  unfolding remove
  remove-IsMap k [] h = tt
  remove-IsMap k ((i, v) ∷ m) h = ground (arith, remove-IsMap k m h.1, IsFresh-remove k i m h.0)

  pub adjust_fresh : (k : K) (f : V → V) (m : Assoc K V) → IsFresh k m → adjust dec k f m ≡ m
  unfolding adjust
  adjust_fresh k f [] h = refl
  adjust_fresh k f ((i, v) ∷ m) h = ground (arith, adjust_fresh k f m h.1)

  pub remove_fresh : (k : K) (m : Assoc K V) → IsFresh k m → remove dec k m ≡ m
  unfolding remove
  remove_fresh k [] h = refl
  remove_fresh k ((i, v) ∷ m) h = ground (arith, remove_fresh k m h.1)

  -- A key that is found is not fresh.
  pub ne_of_lookup :
      (k j : K) (m : Assoc K V) {v : V} → IsFresh k m → lookup dec j m ≡ some v → k ≢ j
  ne_of_lookup k j m h found e = cc (lookup-fresh k m h, ap (λ (q : K). lookup dec q m) e)
