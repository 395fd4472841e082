-- ===== src/Types.antt =====
-- The domain records of crates/cordn-core/src/types.rs and the storage vocabulary of
-- crates/cordn-core/src/storage/mod.rs. `Value` is serde_json's `Value`: it is stored and returned
-- verbatim, so any type serves.
pub mod Partition
use cordn_rs.Common.{ℕ, Option, List, [], ◌∷◌, ◌++◌, Bool, Str, str_discrete, Outcome}
use cordn_rs.Common.Int.{ℤ}
use cordn_rs.Common.Assoc.{Assoc, upsert}

pub record PublishedKeyPackageRecord (Value : Type 0) : Type 0 where
  pub stable_pubkey : Str
  pub key_package_bytes : List ℕ
  pub key_package_ref : Str
  pub is_last_resort : Bool
  pub published_at : ℤ
  pub publication_event : Value

pub record WelcomeQueueRecord : Type 0 where
  pub target_stable_pubkey : Str
  pub key_package_reference : Str
  pub welcome_bytes : List ℕ
  pub created_at : ℤ
  pub join_after_cursor : Option ℤ

pub record ConsumedWelcomeRef : Type 0 where
  pub key_package_reference : Str
  pub created_at : ℤ

pub record JoinRequestRecord : Type 0 where
  pub group_id : Str
  pub requester_stable_pubkey : Str
  pub key_package_ref : Str
  pub created_at : ℤ

pub record ConsumedJoinRequestRef : Type 0 where
  pub requester_stable_pubkey : Str
  pub created_at : ℤ

pub record ConsumedJoinRequestWithGroupRef : Type 0 where
  pub group_id : Str
  pub requester_stable_pubkey : Str
  pub created_at : ℤ

pub record GroupMessageRecord : Type 0 where
  pub cursor : ℤ
  pub group_id : Str
  pub opaque_message : List ℕ
  pub created_at : ℤ

pub record FetchGroupMessagesInput : Type 0 where
  pub group_id : Str
  pub after_cursor : Option ℤ

abbrev pub max_pending_join_requests_per_group : ℕ
max_pending_join_requests_per_group = 100

pub data StorageError : Type 0 where
  backend : Str → StorageError
  too_many_pending_join_requests : StorageError

-- What a storage call comes to.
abbrev pub StorageResult : Type 0 → Type 0
StorageResult A = Outcome StorageError A

abbrev pub without_group : ConsumedJoinRequestWithGroupRef → ConsumedJoinRequestRef
without_group item = record {
  requester_stable_pubkey = item.requester_stable_pubkey;
  created_at = item.created_at;
}

-- One round of the loop of `partition_consumed_join_requests`, and the rounds that follow.
partition_loop :
    Assoc Str (List ConsumedJoinRequestRef)
    → List ConsumedJoinRequestWithGroupRef
    → Assoc Str (List ConsumedJoinRequestRef)
partition_loop by_group [] = by_group
partition_loop by_group (item ∷ items) =
    partition_loop
      (upsert str_discrete item.group_id [] (λ refs. refs ++ without_group item ∷ []) by_group)
      items

unfoldable pub partition_consumed_join_requests :
    List ConsumedJoinRequestWithGroupRef → Assoc Str (List ConsumedJoinRequestRef)
unfolding partition_loop
partition_consumed_join_requests consumed = partition_loop [] consumed

pub record AppendGroupMessageParams : Type 0 where
  pub group_id : Str
  pub opaque_message : List ℕ
  pub created_at : ℤ
