-- ===== src/Sqlite/KeyPackages/Rows.antt =====
-- The rows of the key-package table as records, when serde_json reads what it wrote.
use cordn_rs.Common.{
  ◌≡◌, refl, ap, ◌∙◌, Bool, true, false, not, ◌&&◌, ◌||◌, ℕ_discrete, ok, Option, some, none, List,
  [], ◌∷◌, ◌++◌, map, Str, any, find, last, or_else, retain, collect, arith, if◌then◌else◌,
}
use cordn_rs.Common.Int.{pos, ltb_ℤ, int_eq, ℤ_discrete}
use cordn_rs.Common.Rows.{rows_of}
use cordn_rs.Types.{PublishedKeyPackageRecord}
use cordn_rs.Memory.KeyPackages.{has_ref, is_regular}
use cordn_rs.Sqlite.{Driver, KeyPackageRow}
use cordn_rs.Sqlite.KeyPackages as Sqlite
use cordn_rs.Sqlite.KeyPackages.{
  of_identity, row_with, as_i64, overtakes, first_from, first_by_order, row_to_key_package,
  optional,
}

-- serde_json writes each event as a text, and reads that text as the event.
pub record IsLossless {Value : Type 0} (driver : Driver Value) : Type 0 where
  pub text : Value → Str
  pub writes : (event : Value) → driver.to_string event ≡ ok (text event)
  pub reads : (event : Value) → driver.from_str (text event) ≡ ok event

abbrev pub map_option : {A B : Type 0} → (A → B) → Option A → Option B
map_option f none = none
map_option f (some a) = some (f a)

overtakes_flags :
    (later earlier : Bool)
    → (ltb_ℤ (as_i64 later) (as_i64 earlier)
        || (int_eq (as_i64 later) (as_i64 earlier) && int_eq (as_i64 later) (pos 1)))
      ≡ earlier
unfolding ℤ_discrete ℕ_discrete
overtakes_flags true true = refl
overtakes_flags true false = refl
overtakes_flags false true = refl
overtakes_flags false false = refl

as_i64-flag : (b : Bool) → not (int_eq (as_i64 b) (pos 0)) ≡ b
unfolding ℤ_discrete ℕ_discrete
as_i64-flag true = refl
as_i64-flag false = refl

module _ {Value : Type 0} (text : Value → Str) where
  abbrev pub identity_of : PublishedKeyPackageRecord Value → Str
  identity_of r = r.stable_pubkey

  abbrev pub row_of : PublishedKeyPackageRecord Value → KeyPackageRow
  row_of r = row_with (text r.publication_event) r

  pub row_of-push :
      (rs : List (PublishedKeyPackageRecord Value)) (r : PublishedKeyPackageRecord Value)
      → map row_of (rs ++ r ∷ []) ≡ map row_of rs ++ row_of r ∷ []
  row_of-push [] r = refl
  row_of-push (x ∷ rs) r = ap (◌∷◌ (row_of x)) (row_of-push rs r)

  pub find-row_of :
      (ref : Str) (rs : List (PublishedKeyPackageRecord Value))
      → find (Sqlite.has_ref ref) (map row_of rs) ≡ map_option row_of (find (has_ref ref) rs)
  unfolding find
  find-row_of ref [] = refl
  find-row_of ref (r ∷ rs) = ground (arith, find-row_of ref rs)

  pub any-row_of :
      (ref : Str) (rs : List (PublishedKeyPackageRecord Value))
      → any (Sqlite.has_ref ref) (map row_of rs) ≡ any (has_ref ref) rs
  unfolding any
  any-row_of ref [] = refl
  any-row_of ref (r ∷ rs) = ground (arith, any-row_of ref rs)

  pub identity-row_of :
      (pk : Str) (rs : List (PublishedKeyPackageRecord Value))
      → retain (of_identity pk) (map row_of rs) ≡ map row_of (rows_of identity_of pk rs)
  unfolding retain
  identity-row_of pk [] = refl
  identity-row_of pk (r ∷ rs) = ground (arith, identity-row_of pk rs)

  pub delete-row_of :
      (ref : Str) (rs : List (PublishedKeyPackageRecord Value))
      → retain (λ row. not (Sqlite.has_ref ref row)) (map row_of rs)
        ≡ map row_of (retain (λ r. not (has_ref ref r)) rs)
  unfolding retain
  delete-row_of ref [] = refl
  delete-row_of ref (r ∷ rs) = ground (arith, delete-row_of ref rs)

  overtakes-row_of :
      (r b : PublishedKeyPackageRecord Value) → overtakes (row_of r) (row_of b) ≡ b.is_last_resort
  overtakes-row_of r b = overtakes_flags r.is_last_resort b.is_last_resort

  -- The record that the ORDER BY puts first, when those of `rs` come after `b`.
  pick :
      PublishedKeyPackageRecord Value
      → List (PublishedKeyPackageRecord Value)
      → PublishedKeyPackageRecord Value
  pick b [] = b
  pick b (r ∷ rs) = pick (if b.is_last_resort then r else b) rs

  first_from-pick :
      (b : PublishedKeyPackageRecord Value) (rs : List (PublishedKeyPackageRecord Value))
      → first_from (row_of b) (map row_of rs) ≡ row_of (pick b rs)
  unfolding first_from pick
  first_from-pick b [] = refl
  first_from-pick b (r ∷ rs) =
      ground (arith, overtakes-row_of r b, first_from-pick r rs, first_from-pick b rs)

  pick-due :
      (b : PublishedKeyPackageRecord Value) (rs : List (PublishedKeyPackageRecord Value))
      → some (pick b rs) ≡ or_else (find is_regular (b ∷ rs)) (last (b ∷ rs))
  unfolding pick find last
  pick-due b [] = ground arith
  pick-due b (r ∷ rs) = ground (arith, pick-due r rs, pick-due b rs)

  -- The query's order puts the oldest regular record first, and without one the newest record.
  pub first_by_order-due :
      (rs : List (PublishedKeyPackageRecord Value))
      → first_by_order (map row_of rs) ≡ map_option row_of (or_else (find is_regular rs) (last rs))
  unfolding first_by_order find last
  first_by_order-due [] = refl
  first_by_order-due (r ∷ rs) =
      ap some (first_from-pick r rs) ∙ ap (map_option row_of) (pick-due r rs)

module _ {Value : Type 0} (driver : Driver Value) (codec : IsLossless driver) where
  pub row_to_key_package_lem :
      (r : PublishedKeyPackageRecord Value) → row_to_key_package driver (row_of codec.text r) ≡ ok r
  unfolding row_to_key_package
  row_to_key_package_lem r =
      rw (codec.reads r.publication_event, as_i64-flag r.is_last_resort, row_to_key_package) refl

  pub collect-row_of :
      (rs : List (PublishedKeyPackageRecord Value))
      → collect (row_to_key_package driver) (map (row_of codec.text) rs) ≡ ok rs
  unfolding collect
  collect-row_of [] = refl
  collect-row_of (r ∷ rs) = rw (row_to_key_package_lem r, collect-row_of rs) refl

  pub optional-row_of :
      (o : Option (PublishedKeyPackageRecord Value))
      → optional driver (map_option (row_of codec.text) o) ≡ ok o
  optional-row_of none = refl
  optional-row_of (some r) = rw (optional, row_to_key_package_lem r) refl
