-- ===== src/Storage.antt =====
-- The trait `CoordinatorStorage` of crates/cordn-core/src/storage/mod.rs as an interface: a state and
-- one call for each method. The two backends are its instances `memory_storage` and `sqlite_storage`.
pub mod Calls
pub mod Statements
pub mod Atomic
pub mod UniqueRefs
use cordn_rs.Common.{ℕ, Option, List, Str}
use cordn_rs.Common.Int.{ℤ}
use cordn_rs.Types.{
  PublishedKeyPackageRecord, WelcomeQueueRecord, ConsumedWelcomeRef, JoinRequestRecord,
  ConsumedJoinRequestRef, ConsumedJoinRequestWithGroupRef, GroupMessageRecord,
  FetchGroupMessagesInput, AppendGroupMessageParams, StorageResult,
}
use cordn_rs.Memory.State.{InMemoryInner}
use cordn_rs.Memory.KeyPackages
use cordn_rs.Memory.Welcomes
use cordn_rs.Memory.JoinRequests
use cordn_rs.Memory.Messages
use cordn_rs.Sqlite.{Driver, Connection}
use cordn_rs.Sqlite.KeyPackages as SqliteKeyPackages
use cordn_rs.Sqlite.Welcomes as SqliteWelcomes
use cordn_rs.Sqlite.JoinRequests as SqliteJoinRequests
use cordn_rs.Sqlite.Messages as SqliteMessages

-- A method on `&self`, which may write through the lock.
abbrev pub Call : Type 0 → Type 0 → Type 0
Call S A = S → StorageResult A × S

pub record CoordinatorStorage (Value : Type 0) : Type 1 where
  pub State : Type 0
  pub publish_key_package :
      PublishedKeyPackageRecord Value → Call State (PublishedKeyPackageRecord Value)
  pub list_key_packages_for_identity : Str → Call State (List (PublishedKeyPackageRecord Value))
  pub list_all_key_packages : Call State (List (PublishedKeyPackageRecord Value))
  pub get_key_package : Str → Call State (Option (PublishedKeyPackageRecord Value))
  pub remove_key_package : Str → Call State (Option (PublishedKeyPackageRecord Value))
  pub consume_key_package : Str → Call State (Option (PublishedKeyPackageRecord Value))
  pub store_welcome : WelcomeQueueRecord → Call State WelcomeQueueRecord
  pub fetch_pending_welcomes : Str → List ConsumedWelcomeRef → Call State (List WelcomeQueueRecord)
  pub delete_expired_welcomes : ℤ → Call State ℕ
  pub store_join_request : JoinRequestRecord → Call State JoinRequestRecord
  pub fetch_pending_join_requests :
      Str → List ConsumedJoinRequestRef → Call State (List JoinRequestRecord)
  pub fetch_many_pending_join_requests :
      List Str → List ConsumedJoinRequestWithGroupRef → Call State (List JoinRequestRecord)
  pub delete_expired_join_requests : ℤ → Call State ℕ
  pub append_group_message : AppendGroupMessageParams → Call State GroupMessageRecord
  pub fetch_group_messages : Str → Option ℤ → Call State (List GroupMessageRecord)
  pub fetch_many_group_messages :
      List FetchGroupMessagesInput → Call State (List GroupMessageRecord)

-- `impl CoordinatorStorage for InMemoryCoordinatorStorage`
abbrev pub memory_storage : (Value : Type 0) → CoordinatorStorage Value
memory_storage Value = record {
  State = InMemoryInner Value;
  publish_key_package = KeyPackages.publish_key_package;
  list_key_packages_for_identity = KeyPackages.list_key_packages_for_identity;
  list_all_key_packages = KeyPackages.list_all_key_packages;
  get_key_package = KeyPackages.get_key_package;
  remove_key_package = KeyPackages.remove_key_package;
  consume_key_package = KeyPackages.consume_key_package;
  store_welcome = Welcomes.store_welcome;
  fetch_pending_welcomes = Welcomes.fetch_pending_welcomes;
  delete_expired_welcomes = Welcomes.delete_expired_welcomes;
  store_join_request = JoinRequests.store_join_request;
  fetch_pending_join_requests = JoinRequests.fetch_pending_join_requests;
  fetch_many_pending_join_requests = JoinRequests.fetch_many_pending_join_requests;
  delete_expired_join_requests = JoinRequests.delete_expired_join_requests;
  append_group_message = Messages.append_group_message;
  fetch_group_messages = Messages.fetch_group_messages;
  fetch_many_group_messages = Messages.fetch_many_group_messages;
}

-- `impl CoordinatorStorage for SqliteCoordinatorStorage`
abbrev pub sqlite_storage : {Value : Type 0} → Driver Value → CoordinatorStorage Value
sqlite_storage driver = record {
  State = Connection;
  publish_key_package = SqliteKeyPackages.publish_key_package driver;
  list_key_packages_for_identity = SqliteKeyPackages.list_key_packages_for_identity driver;
  list_all_key_packages = SqliteKeyPackages.list_all_key_packages driver;
  get_key_package = SqliteKeyPackages.get_key_package driver;
  remove_key_package = SqliteKeyPackages.remove_key_package driver;
  consume_key_package = SqliteKeyPackages.consume_key_package driver;
  store_welcome = SqliteWelcomes.store_welcome;
  fetch_pending_welcomes = SqliteWelcomes.fetch_pending_welcomes;
  delete_expired_welcomes = SqliteWelcomes.delete_expired_welcomes;
  store_join_request = SqliteJoinRequests.store_join_request;
  fetch_pending_join_requests = SqliteJoinRequests.fetch_pending_join_requests;
  fetch_many_pending_join_requests = SqliteJoinRequests.fetch_many_pending_join_requests;
  delete_expired_join_requests = SqliteJoinRequests.delete_expired_join_requests;
  append_group_message = SqliteMessages.append_group_message driver;
  fetch_group_messages = SqliteMessages.fetch_group_messages;
  fetch_many_group_messages = SqliteMessages.fetch_many_group_messages;
}
