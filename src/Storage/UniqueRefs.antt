-- ===== src/Storage/UniqueRefs.antt =====
-- The unique column of the SQLite backend, over any run of calls and whatever the driver fails at.
use cordn_rs.Common.{refl, List, [], ◌∷◌}
use cordn_rs.Common.Int.{pos, leb_ℤ}
use cordn_rs.Sqlite.{Driver, Connection, return}
use cordn_rs.Sqlite.Preserves.{Preserves, return-Preserves, bind-Preserves, if-Preserves}
use cordn_rs.Sqlite.KeyPackages as KeyPackages
use cordn_rs.Sqlite.Welcomes as Welcomes
use cordn_rs.Sqlite.JoinRequests as JoinRequests
use cordn_rs.Sqlite.Messages as Messages
use cordn_rs.Storage.{sqlite_storage}
use cordn_rs.Storage.Calls.{
  store_join_request, publish_key_package, list_key_packages_for_identity, get_key_package,
  remove_key_package, consume_key_package, store_welcome, fetch_pending_welcomes,
  delete_expired_welcomes, fetch_pending_join_requests, fetch_many_pending_join_requests,
  delete_expired_join_requests, append_group_message, fetch_group_messages,
  fetch_many_group_messages, Op, call, run,
}
use cordn_rs.Sqlite.UniqueRefs.{
  HasUniqueRefs, query_unique, publish_unique, remove_unique, consume_unique,
}
use cordn_rs.Sqlite.UniqueRefs.Others.{
  fetch_welcomes_unique, fetch_requests_unique, fetch_many_requests_unique, store_request_unique,
  other_unique, append_unique,
}

module _ {Value : Type 0} (driver : Driver Value) where
  call_unique : (op : Op Value) → Preserves HasUniqueRefs (call (sqlite_storage driver) op)
  unfolding Welcomes.store_welcome Welcomes.delete_expired_welcomes
      JoinRequests.delete_expired_join_requests Messages.fetch_group_messages
      Messages.fetch_many_group_messages KeyPackages.get_key_package
      KeyPackages.list_key_packages_for_identity
  call_unique (publish_key_package r) = publish_unique driver r
  call_unique (list_key_packages_for_identity pk) = query_unique _
  call_unique (get_key_package ref) = query_unique _
  call_unique (remove_key_package ref) = remove_unique driver ref
  call_unique (consume_key_package id) = consume_unique driver id
  call_unique (store_welcome r) =
      bind-Preserves HasUniqueRefs _ (λ _. return r) (other_unique _ (λ t. refl))
        (λ _. return-Preserves HasUniqueRefs r)
  call_unique (fetch_pending_welcomes pk cs) = fetch_welcomes_unique pk cs
  call_unique (delete_expired_welcomes age) =
      if-Preserves HasUniqueRefs (leb_ℤ age (pos 0)) (return 0) _ (λ conn h. h)
        (other_unique _ (λ t. refl))
  call_unique (store_join_request r) = store_request_unique r
  call_unique (fetch_pending_join_requests g cs) = fetch_requests_unique g cs
  call_unique (fetch_many_pending_join_requests gs cs) = fetch_many_requests_unique gs cs
  call_unique (delete_expired_join_requests age) =
      if-Preserves HasUniqueRefs (leb_ℤ age (pos 0)) (return 0) _ (λ conn h. h)
        (other_unique _ (λ t. refl))
  call_unique (append_group_message p) = append_unique driver p
  call_unique (fetch_group_messages g c) = query_unique _
  call_unique (fetch_many_group_messages []) = λ conn h. h
  call_unique (fetch_many_group_messages (g ∷ gs)) = query_unique _

  -- On the SQLite backend no two rows of the key-package table have the same ref, after any run of
  -- calls other than `list_all_key_packages`, if that was so before it, whatever serde_json does and
  -- whichever statements the driver fails at.
  pub run-HasUniqueRefs :
      (ops : List (Op Value)) (conn : Connection)
      → HasUniqueRefs conn.tables
      → HasUniqueRefs (run (sqlite_storage driver) ops conn).1.tables
  unfolding run
  run-HasUniqueRefs [] conn h = h
  run-HasUniqueRefs (op ∷ ops) conn h =
      run-HasUniqueRefs ops (call (sqlite_storage driver) op conn).1 (call_unique op conn h)
