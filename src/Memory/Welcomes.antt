-- ===== src/Memory/Welcomes.antt =====
-- The welcome operations of the in-memory backend.
pub mod Laws
use cordn_rs.Common.{
  ℕ, Option, none, some, List, [], ◌∷◌, ◌++◌, Bool, not, ◌&&◌, ok, Str, str_discrete, str_eq, any,
  retain, is_empty, if◌then◌else◌,
}
use cordn_rs.Common.Int.{ℤ, pos, int_eq, leb_ℤ}
use cordn_rs.Common.Assoc.{lookup, adjust, upsert, remove}
use cordn_rs.Common.Buckets.{remove_all, retain_each}
use cordn_rs.Types.{WelcomeQueueRecord, ConsumedWelcomeRef, StorageResult}
use cordn_rs.Memory.State.{InMemoryInner}

module _ {Value : Type 0} where
  unfoldable pub store_welcome :
      WelcomeQueueRecord
      → InMemoryInner Value
      → StorageResult WelcomeQueueRecord × InMemoryInner Value
  store_welcome r inner = (
    ok r,
    record inner {
      welcomes_by_identity =
          upsert str_discrete r.target_stable_pubkey [] (λ records. records ++ r ∷ [])
            inner.welcomes_by_identity;
    },
  )

abbrev pub retires : WelcomeQueueRecord → ConsumedWelcomeRef → Bool
retires r c =
    str_eq c.key_package_reference r.key_package_reference && int_eq c.created_at r.created_at

-- The closure of `retain`: no consumed reference names the record.
abbrev pub is_unconsumed : List ConsumedWelcomeRef → WelcomeQueueRecord → Bool
is_unconsumed consumed r = not (any (retires r) consumed)

module _ {Value : Type 0} where
  unfoldable pub fetch_pending_welcomes :
      Str
      → List ConsumedWelcomeRef
      → InMemoryInner Value
      → StorageResult (List WelcomeQueueRecord) × InMemoryInner Value
  fetch_pending_welcomes target consumed inner =
      elim (lookup str_discrete target inner.welcomes_by_identity) [
        | none ↦ (ok [], inner)
        | some records ↦
            let kept =
              if is_empty consumed then records else retain (is_unconsumed consumed) records in
            let m = adjust str_discrete target (λ _. kept) inner.welcomes_by_identity in
            (
              ok kept,
              record inner {
                welcomes_by_identity = if is_empty kept then remove str_discrete target m else m;
              },
            )
      ]

  unfoldable pub delete_expired_welcomes :
      ℤ → InMemoryInner Value → StorageResult ℕ × InMemoryInner Value
  delete_expired_welcomes max_age_threshold inner =
      if leb_ℤ max_age_threshold (pos 0)
      then (ok 0, inner)
      else let (deleted, empty_keys, m) =
          retain_each (λ r. leb_ℤ max_age_threshold r.created_at) inner.welcomes_by_identity in
        (ok deleted, record inner { welcomes_by_identity = remove_all str_discrete empty_keys m })
