-- ===== src/Sqlite/KeyPackages.antt =====
-- The key-package operations of the SQLite backend.
pub mod Rows
pub mod Effects
use cordn_rs.Common.{
  ℕ, Option, none, some, List, [], ◌∷◌, ◌++◌, Bool, true, false, not, ◌&&◌, ◌||◌, Outcome, ok, err,
  panic, Str, str_eq, any, find, retain, map_err, collect, decide, if◌then◌else◌,
}
use cordn_rs.Common.Int.{ℤ, pos, int_eq, ltb_ℤ}
use cordn_rs.Types.{PublishedKeyPackageRecord, StorageResult, backend}
use cordn_rs.Sqlite.{
  Driver, KeyPackageRow, Tables, Sql, return, fail, execute, query, transaction, ◌>>=◌, ◌>>◌,
}

abbrev pub of_identity : Str → KeyPackageRow → Bool
of_identity stable_pubkey row = str_eq row.stable_pubkey stable_pubkey

abbrev pub has_ref : Str → KeyPackageRow → Bool
has_ref key_package_ref row = str_eq row.key_package_ref key_package_ref

-- `record.is_last_resort as i64`
abbrev pub as_i64 : Bool → ℤ
as_i64 true = pos 1
as_i64 false = pos 0

-- KP_CONSUME_BY_IDENTITY_SQL: whether a row with a greater id comes before one with a smaller id. The
-- first key is the flag; at flag 0 the second is the id, ascending, and at flag 1 the third is the id,
-- descending.
abbrev pub overtakes : KeyPackageRow → KeyPackageRow → Bool
overtakes later earlier =
    ltb_ℤ later.is_last_resort earlier.is_last_resort
    || (int_eq later.is_last_resort earlier.is_last_resort && int_eq later.is_last_resort (pos 1))

first_from : KeyPackageRow → List KeyPackageRow → KeyPackageRow
first_from best [] = best
first_from best (row ∷ rows) = first_from (if overtakes row best then row else best) rows

-- ORDER BY …, LIMIT 1
unfoldable pub first_by_order : List KeyPackageRow → Option KeyPackageRow
unfolding first_from
first_by_order [] = none
first_by_order (row ∷ rows) = some (first_from row rows)

abbrev pub delete_ref : Str → Tables → StorageResult (Unit {0}) × Tables
delete_ref key_package_ref t = (
  ok tt,
  record t { key_packages = retain (λ row. not (has_ref key_package_ref row)) t.key_packages },
)

module _ {Value : Type 0} where
  -- the row that is inserted
  abbrev pub row_with : Str → PublishedKeyPackageRecord Value → KeyPackageRow
  row_with pub_json r = record {
    stable_pubkey = r.stable_pubkey;
    key_package_ref = r.key_package_ref;
    key_package_bytes = r.key_package_bytes;
    is_last_resort = as_i64 r.is_last_resort;
    published_at = r.published_at;
    publication_event_json = pub_json;
  }

  abbrev pub remove_found :
      Str
      → Option (PublishedKeyPackageRecord Value)
      → Sql (Option (PublishedKeyPackageRecord Value))
  remove_found key_package_ref none = return none
  remove_found key_package_ref (some r) = do execute (delete_ref key_package_ref); return (some r)

  -- A record that was selected: it is deleted by that ref, unless it is of last resort.
  abbrev pub consume_found :
      Str → PublishedKeyPackageRecord Value → Sql (Option (PublishedKeyPackageRecord Value))
  consume_found key_package_ref r =
      if r.is_last_resort
      then return (some r)
      else (do execute (delete_ref key_package_ref); return (some r))

  abbrev pub consume_by_identity :
      Option (PublishedKeyPackageRecord Value) → Sql (Option (PublishedKeyPackageRecord Value))
  consume_by_identity (some r) = consume_found r.key_package_ref r
  consume_by_identity none = return none

module _ {Value : Type 0} (driver : Driver Value) where
  unfoldable pub row_to_key_package :
      KeyPackageRow → StorageResult (PublishedKeyPackageRecord Value)
  row_to_key_package row = elim (driver.from_str row.publication_event_json) [
    | ok publication_event ↦ ok (record {
      stable_pubkey = row.stable_pubkey;
      key_package_ref = row.key_package_ref;
      key_package_bytes = row.key_package_bytes;
      is_last_resort = not (int_eq row.is_last_resort (pos 0));
      published_at = row.published_at;
      publication_event = publication_event;
    })
    | err e ↦ err (backend e)
    | panic ↦ panic
  ]

  -- `query_row(..).optional()?`
  abbrev pub optional :
      Option KeyPackageRow → StorageResult (Option (PublishedKeyPackageRecord Value))
  optional none = ok none
  optional (some row) = elim (row_to_key_package row) [
    | ok r ↦ ok (some r)
    | err e ↦ err e
    | panic ↦ panic
  ]

  -- INSERT INTO key_packages, whose key_package_ref is UNIQUE
  abbrev pub insert_row : KeyPackageRow → Tables → StorageResult (Unit {0}) × Tables
  insert_row row t =
      if any (has_ref row.key_package_ref) t.key_packages
      then (err (backend (driver.duplicate_ref row.key_package_ref)), t)
      else (ok tt, record t { key_packages = t.key_packages ++ row ∷ [] })

  -- `serde_json::to_string(..)?`
  abbrev pub to_json : Value → Sql Str
  to_json event conn = (map_err backend (driver.to_string event), conn)

  unfoldable pub publish_key_package :
      PublishedKeyPackageRecord Value → Sql (PublishedKeyPackageRecord Value)
  publish_key_package r = do
    pub_json ← to_json r.publication_event
    execute (insert_row (row_with pub_json r))
    return r

  unfoldable pub list_key_packages_for_identity : Str → Sql (List (PublishedKeyPackageRecord Value))
  unfolding row_to_key_package
  list_key_packages_for_identity stable_pubkey =
      query (λ t. collect row_to_key_package (retain (of_identity stable_pubkey) t.key_packages))

  unfoldable pub list_all_key_packages : Sql (List (PublishedKeyPackageRecord Value))
  unfolding row_to_key_package
  list_all_key_packages = query (λ t. collect row_to_key_package t.key_packages)

  -- KP_SELECT_BY_REF_SQL
  abbrev pub select_by_ref : Str → Sql (Option (PublishedKeyPackageRecord Value))
  select_by_ref key_package_ref =
      query (λ t. optional (find (has_ref key_package_ref) t.key_packages))

  abbrev pub select_by_order : Str → Sql (Option (PublishedKeyPackageRecord Value))
  select_by_order identifier =
      query (λ t. optional (first_by_order (retain (of_identity identifier) t.key_packages)))

  unfoldable pub get_key_package : Str → Sql (Option (PublishedKeyPackageRecord Value))
  unfolding row_to_key_package
  get_key_package key_package_ref = select_by_ref key_package_ref

  unfoldable pub remove_key_package : Str → Sql (Option (PublishedKeyPackageRecord Value))
  unfolding row_to_key_package
  remove_key_package key_package_ref = do
    found ← select_by_ref key_package_ref
    remove_found key_package_ref found

  abbrev pub consume_selected :
      Str
      → Option (PublishedKeyPackageRecord Value)
      → Sql (Option (PublishedKeyPackageRecord Value))
  consume_selected identifier (some r) = consume_found identifier r
  consume_selected identifier none = do
    by_identity ← select_by_order identifier
    consume_by_identity by_identity

  unfoldable pub consume_key_package : Str → Sql (Option (PublishedKeyPackageRecord Value))
  unfolding row_to_key_package
  consume_key_package identifier =
      transaction (do by_ref ← select_by_ref identifier; consume_selected identifier by_ref)
