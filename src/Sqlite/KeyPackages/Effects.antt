-- ===== src/Sqlite/KeyPackages/Effects.antt =====
-- What the key-package methods do to the table as a list of records.
use cordn_rs.Common.{
  ◌≡◌, refl, ap, ◌∙◌, false, not, ok, some, none, List, [], ◌∷◌, ◌++◌, map, Str, any, find, last,
  or_else, retain, collect, if◌then◌else◌, Bool-cases, inl, inr,
}
use cordn_rs.Common.Rows.{rows_of}
use cordn_rs.Types.{PublishedKeyPackageRecord}
use cordn_rs.Memory.KeyPackages.{has_ref, is_regular}
use cordn_rs.Sqlite.{Driver, KeyPackageRow, Tables, quiet, transaction}
use cordn_rs.Sqlite.KeyPackages as Sqlite
use cordn_rs.Sqlite.KeyPackages.{
  of_identity, row_with, as_i64, overtakes, first_from, first_by_order, row_to_key_package,
  optional,
}
use cordn_rs.Sqlite.KeyPackages.Rows.{
  IsLossless, identity_of, row_of, find-row_of, any-row_of, identity-row_of, first_by_order-due,
  collect-row_of, optional-row_of,
}

module _ {Value : Type 0} (driver : Driver Value) (codec : IsLossless driver) (t : Tables)
    (rs : List (PublishedKeyPackageRecord Value))
    (e : t.key_packages ≡ map (row_of codec.text) rs) where
  abbrev with_packages : List KeyPackageRow → Tables
  with_packages rows = record t { key_packages = rows }

  -- the table without the rows of a ref
  abbrev pub without : Str → Tables
  without ref = record t {
    key_packages = retain (λ row. not (Sqlite.has_ref ref row)) t.key_packages;
  }

  pub publish_effect :
      (r : PublishedKeyPackageRecord Value)
      → any (has_ref r.key_package_ref) rs ≡ false
      → Sqlite.publish_key_package driver r (quiet t)
        ≡ (ok r, quiet (record t { key_packages = t.key_packages ++ row_of codec.text r ∷ [] }))
  unfolding Sqlite.publish_key_package
  publish_effect r h =
      let fresh : any (Sqlite.has_ref r.key_package_ref) t.key_packages ≡ false =
        ap (any (Sqlite.has_ref r.key_package_ref)) e
        ∙ any-row_of codec.text r.key_package_ref rs
        ∙ h in
      rw (codec.writes r.publication_event, fresh) refl

  pub list_effect :
      (pk : Str)
      → Sqlite.list_key_packages_for_identity driver pk (quiet t)
        ≡ (ok (rows_of (identity_of codec.text) pk rs), quiet t)
  unfolding Sqlite.list_key_packages_for_identity
  list_effect pk =
      let mine = rows_of (identity_of codec.text) pk rs in
      ap (λ rows. (collect (row_to_key_package driver) rows, quiet t))
        (ap (retain (of_identity pk)) e ∙ identity-row_of codec.text pk rs)
      ∙ ap (λ out. (out, quiet t)) (collect-row_of driver codec mine)

  pub list_all_effect : Sqlite.list_all_key_packages driver (quiet t) ≡ (ok rs, quiet t)
  unfolding Sqlite.list_all_key_packages
  list_all_effect =
      ap (λ rows. (collect (row_to_key_package driver) rows, quiet t)) e
      ∙ ap (λ out. (out, quiet t)) (collect-row_of driver codec rs)

  selected :
      (ref : Str)
      → optional driver (find (Sqlite.has_ref ref) t.key_packages) ≡ ok (find (has_ref ref) rs)
  selected ref =
      ap (λ rows. optional driver (find (Sqlite.has_ref ref) rows)) e
      ∙ ap (optional driver) (find-row_of codec.text ref rs)
      ∙ optional-row_of driver codec (find (has_ref ref) rs)

  pub get_effect :
      (ref : Str)
      → Sqlite.get_key_package driver ref (quiet t) ≡ (ok (find (has_ref ref) rs), quiet t)
  unfolding Sqlite.get_key_package
  get_effect ref = rw (selected ref) refl

  pub remove_missing :
      (ref : Str)
      → find (has_ref ref) rs ≡ none
      → Sqlite.remove_key_package driver ref (quiet t) ≡ (ok none, quiet t)
  unfolding Sqlite.remove_key_package
  remove_missing ref h = rw (selected ref, h) refl

  pub remove_found :
      (ref : Str) {r : PublishedKeyPackageRecord Value}
      → find (has_ref ref) rs ≡ some r
      → Sqlite.remove_key_package driver ref (quiet t) ≡ (ok (some r), quiet (without ref))
  unfolding Sqlite.remove_key_package
  remove_found ref h = rw (selected ref, h) refl

  ordered :
      (pk : Str)
      → optional driver (first_by_order (retain (of_identity pk) t.key_packages)) ≡ (
          let mine = rows_of (identity_of codec.text) pk rs in
          ok (or_else (find is_regular mine) (last mine)))
  ordered pk =
      let mine = rows_of (identity_of codec.text) pk rs in
      ap (λ rows. optional driver (first_by_order (retain (of_identity pk) rows))) e
      ∙ ap (λ rows. optional driver (first_by_order rows)) (identity-row_of codec.text pk rs)
      ∙ ap (optional driver) (first_by_order-due codec.text mine)
      ∙ optional-row_of driver codec (or_else (find is_regular mine) (last mine))

  -- What consuming a record leaves: one of last resort stays.
  abbrev pub spent : Str → PublishedKeyPackageRecord Value → Tables
  spent ref r = if r.is_last_resort then t else without ref

  pub consume_by_ref :
      (id : Str) {r : PublishedKeyPackageRecord Value}
      → find (has_ref id) rs ≡ some r
      → Sqlite.consume_key_package driver id (quiet t) ≡ (ok (some r), quiet (spent id r))
  unfolding Sqlite.consume_key_package transaction
  consume_by_ref id {r} h = elim (Bool-cases r.is_last_resort) [
    | inl kept ↦ rw (selected id, h, kept) refl
    | inr gone ↦ rw (selected id, h, gone) refl
  ]

  pub consume_in_order :
      (id : Str) {r : PublishedKeyPackageRecord Value}
      → find (has_ref id) rs ≡ none
      → (let mine = rows_of (identity_of codec.text) id rs in
          or_else (find is_regular mine) (last mine))
        ≡ some r
      → Sqlite.consume_key_package driver id (quiet t)
        ≡ (ok (some r), quiet (spent r.key_package_ref r))
  unfolding Sqlite.consume_key_package transaction
  consume_in_order id {r} h k = elim (Bool-cases r.is_last_resort) [
    | inl kept ↦ rw (selected id, h, ordered id, k, kept) refl
    | inr gone ↦ rw (selected id, h, ordered id, k, gone) refl
  ]

  pub consume_none :
      (id : Str)
      → find (has_ref id) rs ≡ none
      → (let mine = rows_of (identity_of codec.text) id rs in
          or_else (find is_regular mine) (last mine))
        ≡ none
      → Sqlite.consume_key_package driver id (quiet t) ≡ (ok none, quiet t)
  unfolding Sqlite.consume_key_package transaction
  consume_none id h k = rw (selected id, h, ordered id, k) refl
