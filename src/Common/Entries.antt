-- ===== src/Common/Entries.antt =====
-- The entries of a map that pass a test, as `retain` of a HashMap keeps them.
use mathlib.Core.Path.{◌≡◌, refl}
use mathlib.Core.Bool.{Bool}
use mathlib.Core.Option.{Option, none, some}
use mathlib.Core.List.{[], ◌∷◌}
use native.Mathlib.Omega.{arith}
use cordn_rs.Common.Tests.{if◌then◌else◌}
use cordn_rs.Common.Lists.{retain}
use cordn_rs.Common.Assoc.{Assoc, IsMap, IsFresh, lookup, lookup-fresh}

-- A value, if there is one and it passes the test.
abbrev pub kept {ℓ} : {V : Type ℓ} → (V → Bool) → Option V → Option V
kept p none = none
kept p (some v) = if p v then some v else none

module _ {ℓ} {K V : Type ℓ} (dec : Discrete K) (p : V → Bool) where
  IsFresh-retain : (k : K) (m : Assoc K V) → IsFresh k m → IsFresh k (retain (λ entry. p entry.1) m)
  unfolding retain
  IsFresh-retain k [] h = tt
  IsFresh-retain k ((j, v) ∷ m) h = ground (arith, IsFresh-retain k m h.1)

  pub retain-IsMap : (m : Assoc K V) → IsMap m → IsMap (retain (λ entry. p entry.1) m)
  unfolding retain
  retain-IsMap [] h = tt
  retain-IsMap ((k, v) ∷ m) h = ground (arith, retain-IsMap m h.1, IsFresh-retain k m h.0)

  pub lookup-retain :
      (k : K) (m : Assoc K V)
      → IsMap m
      → lookup dec k (retain (λ entry. p entry.1) m) ≡ kept p (lookup dec k m)
  unfolding retain lookup
  lookup-retain k [] h = refl
  lookup-retain k ((j, v) ∷ m) h = ground (arith, lookup-retain k m h.1, lookup-fresh dec j m h.0)
