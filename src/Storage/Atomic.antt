-- ===== src/Storage/Atomic.antt =====
-- A call on the SQLite backend that fails leaves the tables as they were, wherever the driver fails.
use cordn_rs.Common.{
  ◌≡◌, refl, sym, ◌∙◌, true, Bool-cases, inl, inr, Option, none, some, List, [], ◌∷◌, Str, ok, err,
  panic, arith, any, find, ◌++◌, collect, flatten, retain, map, ℕ,
}
use cordn_rs.Common.Int.{ℤ, pos, leb_ℤ}
use cordn_rs.Types.{StorageResult}
use cordn_rs.Sqlite.{Driver, Tables, Connection, Sql, return, execute, ◌>>=◌, KeyPackageRow}
use cordn_rs.Memory.Messages.{or_zero}
use cordn_rs.Sqlite.KeyPackages as KeyPackages
use cordn_rs.Sqlite.Welcomes as Welcomes
use cordn_rs.Sqlite.JoinRequests as JoinRequests
use cordn_rs.Sqlite.Messages as Messages
use cordn_rs.Storage.{
  sqlite_storage, PublishedKeyPackageRecord, WelcomeQueueRecord, ℤ, AppendGroupMessageParams,
  ConsumedWelcomeRef, JoinRequestRecord, ConsumedJoinRequestRef, ConsumedJoinRequestWithGroupRef,
  FetchGroupMessagesInput,
}
use cordn_rs.Storage.Calls.{
  store_join_request, publish_key_package, list_key_packages_for_identity, get_key_package,
  remove_key_package, consume_key_package, store_welcome, fetch_pending_welcomes,
  delete_expired_welcomes, fetch_pending_join_requests, fetch_many_pending_join_requests,
  delete_expired_join_requests, append_group_message, fetch_group_messages,
  fetch_many_group_messages, key_package, key_packages, at_most_one, welcome, welcomes, deleted,
  join_request, join_requests, group_message, group_messages, Op, map_ok, call, answer_with,
}
use cordn_rs.Storage.Statements.{
  failed, IsAtomic, IsRefusing, transaction-IsAtomic, execute-IsAtomic, query-IsReading, read_then,
  then_return, if-IsAtomic, return-IsAtomic,
}

module _ {Value : Type 0} (driver : Driver Value) where
  insert_row-IsRefusing : (row : KeyPackageRow) → IsRefusing (KeyPackages.insert_row driver row)
  insert_row-IsRefusing row t h =
      elim (Bool-cases (any (KeyPackages.has_ref row.key_package_ref) t.key_packages)) [
        | inl taken ↦ rw taken refl
        | inr free ↦ absurd (ground (arith, free))
      ]

  publish-IsAtomic :
      (r : PublishedKeyPackageRecord Value) → IsAtomic (KeyPackages.publish_key_package driver r)
  unfolding KeyPackages.publish_key_package
  publish-IsAtomic r =
      read_then (KeyPackages.to_json driver r.publication_event)
        (λ json.
          execute (KeyPackages.insert_row driver (KeyPackages.row_with json r)) >>= λ _. return r)
        (λ conn. refl)
        (λ json.
          let row = KeyPackages.row_with json r in
          then_return (execute (KeyPackages.insert_row driver row)) r
            (execute-IsAtomic (KeyPackages.insert_row driver row) (insert_row-IsRefusing row)))

  remove_found-IsAtomic :
      (ref : Str) (found : Option (PublishedKeyPackageRecord Value))
      → IsAtomic (KeyPackages.remove_found ref found)
  remove_found-IsAtomic ref none =
      return-IsAtomic {A = Option (PublishedKeyPackageRecord Value)} none
  remove_found-IsAtomic ref (some r) =
      then_return (execute (KeyPackages.delete_ref ref)) (some r)
        (execute-IsAtomic (KeyPackages.delete_ref ref) (λ t h. absurd (cc)))

  remove-IsAtomic : (ref : Str) → IsAtomic (KeyPackages.remove_key_package driver ref)
  unfolding KeyPackages.remove_key_package
  remove-IsAtomic ref =
      read_then (KeyPackages.select_by_ref driver ref) (KeyPackages.remove_found ref)
        (query-IsReading
          (λ t. KeyPackages.optional driver (find (KeyPackages.has_ref ref) t.key_packages)))
        (remove_found-IsAtomic ref)

  list-IsAtomic : (pk : Str) → IsAtomic (KeyPackages.list_key_packages_for_identity driver pk)
  unfolding KeyPackages.list_key_packages_for_identity
  list-IsAtomic pk conn h =
      query-IsReading
        (λ t.
          collect (KeyPackages.row_to_key_package driver)
            (retain (KeyPackages.of_identity pk) t.key_packages))
        conn

  get-IsAtomic : (ref : Str) → IsAtomic (KeyPackages.get_key_package driver ref)
  unfolding KeyPackages.get_key_package
  get-IsAtomic ref conn h =
      query-IsReading
        (λ t. KeyPackages.optional driver (find (KeyPackages.has_ref ref) t.key_packages)) conn

  consume-IsAtomic : (id : Str) → IsAtomic (KeyPackages.consume_key_package driver id)
  unfolding KeyPackages.consume_key_package
  consume-IsAtomic id = transaction-IsAtomic _

  append-IsAtomic :
      (p : AppendGroupMessageParams) → IsAtomic (Messages.append_group_message driver p)
  unfolding Messages.append_group_message
  append-IsAtomic p = transaction-IsAtomic _

fetch_welcomes-IsAtomic :
    (pk : Str) (cs : List ConsumedWelcomeRef) → IsAtomic (Welcomes.fetch_pending_welcomes pk cs)
unfolding Welcomes.fetch_pending_welcomes
fetch_welcomes-IsAtomic pk cs = transaction-IsAtomic _

store_request-IsAtomic : (r : JoinRequestRecord) → IsAtomic (JoinRequests.store_join_request r)
unfolding JoinRequests.store_join_request
store_request-IsAtomic r = transaction-IsAtomic _

fetch_requests-IsAtomic :
    (g : Str) (cs : List ConsumedJoinRequestRef)
    → IsAtomic (JoinRequests.fetch_pending_join_requests g cs)
unfolding JoinRequests.fetch_pending_join_requests
fetch_requests-IsAtomic g cs = transaction-IsAtomic _

fetch_many_requests-IsAtomic :
    (gs : List Str) (cs : List ConsumedJoinRequestWithGroupRef)
    → IsAtomic (JoinRequests.fetch_many_pending_join_requests gs cs)
unfolding JoinRequests.fetch_many_pending_join_requests
fetch_many_requests-IsAtomic [] cs = return-IsAtomic {A = List JoinRequestRecord} []
fetch_many_requests-IsAtomic (g ∷ gs) cs = transaction-IsAtomic _

fetch_messages-IsAtomic : (g : Str) (c : Option ℤ) → IsAtomic (Messages.fetch_group_messages g c)
unfolding Messages.fetch_group_messages
fetch_messages-IsAtomic g c conn h =
    query-IsReading (λ t. ok (Messages.select_after g (or_zero c) t.group_messages)) conn

fetch_many_messages-IsAtomic :
    (gs : List FetchGroupMessagesInput) → IsAtomic (Messages.fetch_many_group_messages gs)
unfolding Messages.fetch_many_group_messages
fetch_many_messages-IsAtomic [] conn h = refl
fetch_many_messages-IsAtomic (g ∷ gs) conn h =
    query-IsReading
      (λ t. ok (
        flatten (
          map (λ f. Messages.select_after f.group_id (or_zero f.after_cursor) t.group_messages)
            (g ∷ gs))))
      conn

store_welcome-IsAtomic : (r : WelcomeQueueRecord) → IsAtomic (Welcomes.store_welcome r)
unfolding Welcomes.store_welcome
store_welcome-IsAtomic r =
    then_return (execute (λ (t : Tables). (ok tt, record t { welcomes = t.welcomes ++ r ∷ [] }))) r
      (execute-IsAtomic _ (λ t h. absurd (cc)))

expire_welcomes-IsAtomic : (age : ℤ) → IsAtomic (Welcomes.delete_expired_welcomes age)
unfolding Welcomes.delete_expired_welcomes
expire_welcomes-IsAtomic age =
    if-IsAtomic (leb_ℤ age (pos 0)) (return 0) _ (return-IsAtomic {A = ℕ} 0)
      (execute-IsAtomic _ (λ t h. absurd (cc)))

expire_requests-IsAtomic : (age : ℤ) → IsAtomic (JoinRequests.delete_expired_join_requests age)
unfolding JoinRequests.delete_expired_join_requests
expire_requests-IsAtomic age =
    if-IsAtomic (leb_ℤ age (pos 0)) (return 0) _ (return-IsAtomic {A = ℕ} 0)
      (execute-IsAtomic _ (λ t h. absurd (cc)))

failed-map_ok : {A B : Type 0} (f : A → B) (r : StorageResult A) → failed (map_ok f r) ≡ failed r
failed-map_ok f (ok a) = refl
failed-map_ok f (err e) = refl
failed-map_ok f panic = refl

answer_with-IsAtomic :
    {A B : Type 0} (f : A → B) (m : Sql A) → IsAtomic m → IsAtomic (λ conn. answer_with f (m conn))
answer_with-IsAtomic f m k conn h = k conn (sym (failed-map_ok f (m conn).0) ∙ h)

module _ {Value : Type 0} (driver : Driver Value) where
  -- A call of any method but `list_all_key_packages` that fails, by an error or a panic, leaves every
  -- table as it was, whichever of its statements the driver fails at: what a transaction did is rolled
  -- back.
  pub call-atomic :
      (op : Op Value) (conn : Connection)
      → failed (call (sqlite_storage driver) op conn).0 ≡ true
      → (call (sqlite_storage driver) op conn).1.tables ≡ conn.tables
  call-atomic (publish_key_package r) =
      answer_with-IsAtomic key_package (KeyPackages.publish_key_package driver r)
        (publish-IsAtomic driver r)
  call-atomic (list_key_packages_for_identity pk) =
      answer_with-IsAtomic key_packages (KeyPackages.list_key_packages_for_identity driver pk)
        (list-IsAtomic driver pk)
  call-atomic (get_key_package ref) =
      answer_with-IsAtomic at_most_one (KeyPackages.get_key_package driver ref)
        (get-IsAtomic driver ref)
  call-atomic (remove_key_package ref) =
      answer_with-IsAtomic at_most_one (KeyPackages.remove_key_package driver ref)
        (remove-IsAtomic driver ref)
  call-atomic (consume_key_package id) =
      answer_with-IsAtomic at_most_one (KeyPackages.consume_key_package driver id)
        (consume-IsAtomic driver id)
  call-atomic (store_welcome r) =
      answer_with-IsAtomic welcome (Welcomes.store_welcome r) (store_welcome-IsAtomic r)
  call-atomic (fetch_pending_welcomes pk cs) =
      answer_with-IsAtomic welcomes (Welcomes.fetch_pending_welcomes pk cs)
        (fetch_welcomes-IsAtomic pk cs)
  call-atomic (delete_expired_welcomes age) =
      answer_with-IsAtomic deleted (Welcomes.delete_expired_welcomes age)
        (expire_welcomes-IsAtomic age)
  call-atomic (store_join_request r) =
      answer_with-IsAtomic join_request (JoinRequests.store_join_request r)
        (store_request-IsAtomic r)
  call-atomic (fetch_pending_join_requests g cs) =
      answer_with-IsAtomic join_requests (JoinRequests.fetch_pending_join_requests g cs)
        (fetch_requests-IsAtomic g cs)
  call-atomic (fetch_many_pending_join_requests gs cs) =
      answer_with-IsAtomic join_requests (JoinRequests.fetch_many_pending_join_requests gs cs)
        (fetch_many_requests-IsAtomic gs cs)
  call-atomic (delete_expired_join_requests age) =
      answer_with-IsAtomic deleted (JoinRequests.delete_expired_join_requests age)
        (expire_requests-IsAtomic age)
  call-atomic (append_group_message p) =
      answer_with-IsAtomic group_message (Messages.append_group_message driver p)
        (append-IsAtomic driver p)
  call-atomic (fetch_group_messages g c) =
      answer_with-IsAtomic group_messages (Messages.fetch_group_messages g c)
        (fetch_messages-IsAtomic g c)
  call-atomic (fetch_many_group_messages gs) =
      answer_with-IsAtomic group_messages (Messages.fetch_many_group_messages gs)
        (fetch_many_messages-IsAtomic gs)
