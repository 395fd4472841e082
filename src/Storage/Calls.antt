-- ===== src/Storage/Calls.antt =====
-- Calls of the storage trait, but for one, as data, and runs of them on a backend.
use cordn_rs.Common.{Option, List, [], ◌∷◌, Str, ok, err, panic, ℕ}
use cordn_rs.Common.Int.{ℤ}
use cordn_rs.Types.{
  PublishedKeyPackageRecord, WelcomeQueueRecord, ConsumedWelcomeRef, JoinRequestRecord,
  ConsumedJoinRequestRef, ConsumedJoinRequestWithGroupRef, GroupMessageRecord,
  FetchGroupMessagesInput, AppendGroupMessageParams, StorageResult,
}
use cordn_rs.Storage.{CoordinatorStorage}

-- Every method but `list_all_key_packages`, which changes nothing, and whose records the two backends give
-- in different orders.
pub data Op (Value : Type 0) : Type 0 where
  publish_key_package : PublishedKeyPackageRecord Value → Op Value
  list_key_packages_for_identity : Str → Op Value
  get_key_package : Str → Op Value
  remove_key_package : Str → Op Value
  consume_key_package : Str → Op Value
  store_welcome : WelcomeQueueRecord → Op Value
  fetch_pending_welcomes : Str → List ConsumedWelcomeRef → Op Value
  delete_expired_welcomes : ℤ → Op Value
  store_join_request : JoinRequestRecord → Op Value
  fetch_pending_join_requests : Str → List ConsumedJoinRequestRef → Op Value
  fetch_many_pending_join_requests : List Str → List ConsumedJoinRequestWithGroupRef → Op Value
  delete_expired_join_requests : ℤ → Op Value
  append_group_message : AppendGroupMessageParams → Op Value
  fetch_group_messages : Str → Option ℤ → Op Value
  fetch_many_group_messages : List FetchGroupMessagesInput → Op Value

pub data Answer (Value : Type 0) : Type 0 where
  key_package : PublishedKeyPackageRecord Value → Answer Value
  key_packages : List (PublishedKeyPackageRecord Value) → Answer Value
  at_most_one : Option (PublishedKeyPackageRecord Value) → Answer Value
  welcome : WelcomeQueueRecord → Answer Value
  welcomes : List WelcomeQueueRecord → Answer Value
  join_request : JoinRequestRecord → Answer Value
  join_requests : List JoinRequestRecord → Answer Value
  group_message : GroupMessageRecord → Answer Value
  group_messages : List GroupMessageRecord → Answer Value
  deleted : ℕ → Answer Value

abbrev pub map_ok : {A B : Type 0} → (A → B) → StorageResult A → StorageResult B
map_ok f (ok a) = ok (f a)
map_ok f (err e) = err e
map_ok f panic = panic

abbrev pub answer_with : {A B S : Type 0} → (A → B) → StorageResult A × S → StorageResult B × S
answer_with f r = (map_ok f r.0, r.1)

module _ {Value : Type 0} (storage : CoordinatorStorage Value) where
  abbrev pub call : Op Value → storage.State → StorageResult (Answer Value) × storage.State
  call (publish_key_package r) s = answer_with key_package (storage.publish_key_package r s)
  call (list_key_packages_for_identity pk) s =
      answer_with key_packages (storage.list_key_packages_for_identity pk s)
  call (get_key_package ref) s = answer_with at_most_one (storage.get_key_package ref s)
  call (remove_key_package ref) s = answer_with at_most_one (storage.remove_key_package ref s)
  call (consume_key_package id) s = answer_with at_most_one (storage.consume_key_package id s)
  call (store_welcome r) s = answer_with welcome (storage.store_welcome r s)
  call (fetch_pending_welcomes pk cs) s =
      answer_with welcomes (storage.fetch_pending_welcomes pk cs s)
  call (delete_expired_welcomes age) s = answer_with deleted (storage.delete_expired_welcomes age s)
  call (store_join_request r) s = answer_with join_request (storage.store_join_request r s)
  call (fetch_pending_join_requests g cs) s =
      answer_with join_requests (storage.fetch_pending_join_requests g cs s)
  call (fetch_many_pending_join_requests gs cs) s =
      answer_with join_requests (storage.fetch_many_pending_join_requests gs cs s)
  call (delete_expired_join_requests age) s =
      answer_with deleted (storage.delete_expired_join_requests age s)
  call (append_group_message p) s = answer_with group_message (storage.append_group_message p s)
  call (fetch_group_messages g c) s =
      answer_with group_messages (storage.fetch_group_messages g c s)
  call (fetch_many_group_messages gs) s =
      answer_with group_messages (storage.fetch_many_group_messages gs s)

  unfoldable pub run :
      List (Op Value) → storage.State → List (StorageResult (Answer Value)) × storage.State
  run [] s = ([], s)
  run (op ∷ ops) s =
      let (answer, s') = call op s in let (answers, s'') = run ops s' in (answer ∷ answers, s'')
