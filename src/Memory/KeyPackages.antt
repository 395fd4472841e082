-- ===== src/Memory/KeyPackages.antt =====
-- The key-package operations of the in-memory backend. Each takes the locked state and gives its
-- result and the state that it leaves. `panic` is a failed `expect` or an index out of range.
pub mod Filing
pub mod Refinement
pub mod Consume
use cordn_rs.Common.{
  ℕ, Option, none, some, List, [], ◌∷◌, ◌++◌, Bool, not, ok, err, panic, ◌>>=◌, expect, Str,
  str_discrete, str_eq, position, last, is_empty, remove_at, flatten, or_default, if◌then◌else◌,
}
use cordn_rs.Common.Assoc.{Assoc, lookup, adjust, upsert, remove, values}
use cordn_rs.Types.{PublishedKeyPackageRecord, StorageResult}
use cordn_rs.Memory.State.{InMemoryInner}

abbrev pub ByIdentity : Type 0 → Type 0
ByIdentity Value = Assoc Str (List (PublishedKeyPackageRecord Value))

pub record Located (Value : Type 0) : Type 0 where
  pub stable_pubkey : Str
  pub index : ℕ
  pub found : PublishedKeyPackageRecord Value

module _ {Value : Type 0} where
  abbrev pub has_ref : Str → PublishedKeyPackageRecord Value → Bool
  has_ref key_package_ref r = str_eq r.key_package_ref key_package_ref

  abbrev pub is_regular : PublishedKeyPackageRecord Value → Bool
  is_regular r = not r.is_last_resort

  unfoldable pub locate_by_ref : ByIdentity Value → Str → Option (Located Value)
  locate_by_ref [] key_package_ref = none
  locate_by_ref ((pk, records) ∷ m) key_package_ref =
      let rest = locate_by_ref m key_package_ref in
      elim (position (has_ref key_package_ref) records) [
        | some (i, r) ↦ some (record { stable_pubkey = pk; index = i; found = r })
        | none ↦ rest
      ]

  unfoldable pub publish_key_package :
      PublishedKeyPackageRecord Value
      → InMemoryInner Value
      → StorageResult (PublishedKeyPackageRecord Value) × InMemoryInner Value
  publish_key_package r inner = (
    ok r,
    record inner {
      key_packages_by_identity =
          upsert str_discrete r.stable_pubkey [] (λ records. records ++ r ∷ [])
            inner.key_packages_by_identity;
    },
  )

  unfoldable pub list_key_packages_for_identity :
      Str
      → InMemoryInner Value
      → StorageResult (List (PublishedKeyPackageRecord Value)) × InMemoryInner Value
  list_key_packages_for_identity pk inner =
      (ok (or_default (lookup str_discrete pk inner.key_packages_by_identity)), inner)

  unfoldable pub list_all_key_packages :
      InMemoryInner Value
      → StorageResult (List (PublishedKeyPackageRecord Value)) × InMemoryInner Value
  list_all_key_packages inner = (ok (flatten (values inner.key_packages_by_identity)), inner)

  abbrev pub found_record : Option (Located Value) → Option (PublishedKeyPackageRecord Value)
  found_record none = none
  found_record (some loc) = some loc.found

  unfoldable pub get_key_package :
      Str
      → InMemoryInner Value
      → StorageResult (Option (PublishedKeyPackageRecord Value)) × InMemoryInner Value
  get_key_package key_package_ref inner =
      (ok (found_record (locate_by_ref inner.key_packages_by_identity key_package_ref)), inner)

  -- `get_mut(..).expect(..)`, `records.remove(index)`, and `shift_remove` of an identity that is left
  -- without a record.
  unfoldable pub take_at :
      Str
      → ℕ
      → ByIdentity Value
      → StorageResult (PublishedKeyPackageRecord Value × ByIdentity Value)
  take_at pk index m = do
    records ← expect (lookup str_discrete pk m)
    (r, rest) ← expect (remove_at index records)
    let m' = adjust str_discrete pk (λ _. rest) m
    ok (r, if is_empty rest then remove str_discrete pk m' else m')

  -- The state and the answer after `take_at`: the record that is returned is `r`, if it is given,
  -- and else the one taken.
  abbrev after_take :
      Option (PublishedKeyPackageRecord Value)
      → StorageResult (PublishedKeyPackageRecord Value × ByIdentity Value)
      → InMemoryInner Value
      → StorageResult (Option (PublishedKeyPackageRecord Value)) × InMemoryInner Value
  after_take (some r) (ok (taken, m)) inner =
      (ok (some r), record inner { key_packages_by_identity = m })
  after_take none (ok (taken, m)) inner =
      (ok (some taken), record inner { key_packages_by_identity = m })
  after_take r (err e) inner = (err e, inner)
  after_take r panic inner = (panic, inner)

  unfoldable pub remove_key_package :
      Str
      → InMemoryInner Value
      → StorageResult (Option (PublishedKeyPackageRecord Value)) × InMemoryInner Value
  remove_key_package key_package_ref inner =
      elim (locate_by_ref inner.key_packages_by_identity key_package_ref) [
        | none ↦ (ok none, inner)
        | some loc ↦
            after_take (some loc.found)
              (take_at loc.stable_pubkey loc.index inner.key_packages_by_identity) inner
      ]

  -- Step 2 of `consume_key_package`: the identifier as a stable identity.
  consume_by_identity :
      Str
      → InMemoryInner Value
      → StorageResult (Option (PublishedKeyPackageRecord Value)) × InMemoryInner Value
  consume_by_identity identifier inner =
      let records = or_default (lookup str_discrete identifier inner.key_packages_by_identity) in
      elim (position is_regular records) [
        | some (i, _) ↦ after_take none (take_at identifier i inner.key_packages_by_identity) inner
        | none ↦ (ok (last records), inner)
      ]

  unfoldable pub consume_key_package :
      Str
      → InMemoryInner Value
      → StorageResult (Option (PublishedKeyPackageRecord Value)) × InMemoryInner Value
  unfolding consume_by_identity
  consume_key_package identifier inner =
      elim (locate_by_ref inner.key_packages_by_identity identifier) [
        | none ↦ consume_by_identity identifier inner
        | some loc ↦
            if loc.found.is_last_resort
            then (ok (some loc.found), inner)
            else after_take (some loc.found)
                (take_at loc.stable_pubkey loc.index inner.key_packages_by_identity) inner
      ]
