-- ===== src/Sqlite/UniqueRefs.antt =====
-- The key-package methods of sqlite.rs keep the refs of the table unique.
pub mod Others
use cordn_rs.Common.{
  ℕ, ◌+◌, ◌≤◌, ◌≡◌, refl, Bool, true, false, not, Bool-cases, inl, inr, Option, none, some, List,
  [], ◌∷◌, ◌++◌, Str, str_eq, str_discrete, ok, err, panic, arith, any, find, retain, count_if,
  count_if-append, if◌then◌else◌, map, flatten, leb, length, or_default, collect, subst, sym, ◌&&◌,
}
use cordn_rs.Common.Int.{ℤ, pos, leb_ℤ, int_eq, add_i64}
use cordn_rs.Common.Assoc.{Assoc, lookup, insert}
use cordn_rs.Types.{
  StorageResult, backend, partition_consumed_join_requests, max_pending_join_requests_per_group,
  too_many_pending_join_requests,
}
use cordn_rs.Sqlite.{
  Driver, Tables, Connection, Sql, return, execute, query, fail, ◌>>=◌, KeyPackageRow,
}
use cordn_rs.Sqlite.Preserves.{
  Preserves, return-Preserves, bind-Preserves, execute-Preserves, transaction-Preserves,
  if-Preserves,
}
use cordn_rs.Memory.Messages.{or_zero, numbered_as}
use cordn_rs.Sqlite.KeyPackages as KeyPackages
use cordn_rs.Sqlite.Welcomes as Welcomes
use cordn_rs.Sqlite.JoinRequests as JoinRequests
use cordn_rs.Sqlite.Messages as Messages
use cordn_rs.Types.{
  PublishedKeyPackageRecord, WelcomeQueueRecord, AppendGroupMessageParams, ConsumedWelcomeRef,
  JoinRequestRecord, ConsumedJoinRequestRef, ConsumedJoinRequestWithGroupRef,
  FetchGroupMessagesInput, GroupMessageRecord,
}

-- No two rows have the same ref.
abbrev pub HasUniqueRefs : Tables → Type 0
HasUniqueRefs t = (ref : Str) → count_if (KeyPackages.has_ref ref) t.key_packages ≤ 1

count_if-retained :
    {A : Type 0} (p q : A → Bool) (xs : List A) → count_if p (retain q xs) ≤ count_if p xs
unfolding count_if retain
count_if-retained p q [] = omega arith
count_if-retained p q (x ∷ xs) = ground (arith, count_if-retained p q xs)

count_if-untaken : {A : Type 0} (p : A → Bool) (xs : List A) → any p xs ≡ false → count_if p xs ≡ 0
unfolding count_if any
count_if-untaken p [] h = refl
count_if-untaken p (x ∷ xs) h = ground (arith, count_if-untaken p xs)

appended :
    (row : KeyPackageRow) (rows : List KeyPackageRow) (ref : Str)
    → any (KeyPackages.has_ref row.key_package_ref) rows ≡ false
    → count_if (KeyPackages.has_ref ref) rows ≤ 1
    → count_if (KeyPackages.has_ref ref) (rows ++ row ∷ []) ≤ 1
unfolding count_if
appended row rows ref free one = elim (str_discrete row.key_package_ref ref) [
  | yes e ↦
      let none_yet : count_if (KeyPackages.has_ref ref) rows ≡ 0 =
        subst (λ r. count_if (KeyPackages.has_ref r) rows ≡ 0) e
          (count_if-untaken (KeyPackages.has_ref row.key_package_ref) rows free) in
      ground (arith, none_yet, count_if-append (KeyPackages.has_ref ref) rows (row ∷ []))
  | no n ↦ ground (arith, one, n, count_if-append (KeyPackages.has_ref ref) rows (row ∷ []))
]

pub query_unique :
    {A : Type 0} (sql : Tables → StorageResult A) → Preserves HasUniqueRefs (query sql)
query_unique sql = execute-Preserves HasUniqueRefs _ (λ t h. h)

module _ {Value : Type 0} (driver : Driver Value) where
  insert_row_unique :
      (row : KeyPackageRow) (t : Tables)
      → HasUniqueRefs t
      → HasUniqueRefs (KeyPackages.insert_row driver row t).1
  insert_row_unique row t h =
      elim (Bool-cases (any (KeyPackages.has_ref row.key_package_ref) t.key_packages)) [
        | inl taken ↦ rw taken h
        | inr free ↦ rw free (λ ref. appended row t.key_packages ref free (h ref))
      ]

  delete_ref_unique :
      (ref : Str) (t : Tables) → HasUniqueRefs t → HasUniqueRefs (KeyPackages.delete_ref ref t).1
  delete_ref_unique ref t h other = omega (
    arith,
    h other,
    count_if-retained (KeyPackages.has_ref other) (λ row. not (KeyPackages.has_ref ref row))
        t.key_packages,
  )

  pub publish_unique :
      (r : PublishedKeyPackageRecord Value)
      → Preserves HasUniqueRefs (KeyPackages.publish_key_package driver r)
  unfolding KeyPackages.publish_key_package
  publish_unique r =
      bind-Preserves HasUniqueRefs (KeyPackages.to_json driver r.publication_event) _ (λ conn h. h)
        (λ json.
          let row = KeyPackages.row_with json r in
          bind-Preserves HasUniqueRefs (execute (KeyPackages.insert_row driver row)) _
            (execute-Preserves HasUniqueRefs _ (insert_row_unique row))
            (λ _. return-Preserves HasUniqueRefs r))

  deleted_then :
      {A : Type 0} (ref : Str) (a : A)
      → Preserves HasUniqueRefs (execute (KeyPackages.delete_ref ref) >>= λ _. return a)
  deleted_then ref a =
      bind-Preserves HasUniqueRefs (execute (KeyPackages.delete_ref ref)) _
        (execute-Preserves HasUniqueRefs _ (delete_ref_unique ref))
        (λ _. return-Preserves HasUniqueRefs a)

  pub remove_unique :
      (ref : Str) → Preserves HasUniqueRefs (KeyPackages.remove_key_package driver ref)
  unfolding KeyPackages.remove_key_package
  remove_unique ref =
      bind-Preserves HasUniqueRefs (KeyPackages.select_by_ref driver ref) _ (query_unique _) removed
    where
      removed :
          (found : Option (PublishedKeyPackageRecord Value))
          → Preserves HasUniqueRefs (KeyPackages.remove_found ref found)
      removed none = λ conn h. h
      removed (some r) = deleted_then ref (some r)

  consume_found_unique :
      (ref : Str) (r : PublishedKeyPackageRecord Value)
      → Preserves HasUniqueRefs (KeyPackages.consume_found ref r)
  consume_found_unique ref r =
      if-Preserves HasUniqueRefs r.is_last_resort (return (some r)) _ (λ conn h. h)
        (deleted_then ref (some r))

  pub consume_unique :
      (id : Str) → Preserves HasUniqueRefs (KeyPackages.consume_key_package driver id)
  unfolding KeyPackages.consume_key_package
  consume_unique id = transaction-Preserves HasUniqueRefs _ (
      bind-Preserves HasUniqueRefs (KeyPackages.select_by_ref driver id) _ (query_unique _)
        selected)
    where
      in_order :
          (found : Option (PublishedKeyPackageRecord Value))
          → Preserves HasUniqueRefs (KeyPackages.consume_by_identity found)
      in_order none = λ conn h. h
      in_order (some r) = consume_found_unique r.key_package_ref r

      selected :
          (found : Option (PublishedKeyPackageRecord Value))
          → Preserves HasUniqueRefs (KeyPackages.consume_selected driver id found)
      selected none =
          bind-Preserves HasUniqueRefs (KeyPackages.select_by_order driver id) _ (query_unique _)
            in_order
      selected (some r) = consume_found_unique id r
