-- ===== src/Contracts.antt =====
-- The wire shapes of crates/cordn-core/src/contracts.rs. What serde writes of them is not modelled.
use cordn_rs.Common.{Option, List, Bool, Str}
use cordn_rs.Common.Int.{ℤ}

pub record NostrEvent : Type 0 where
  pub id : Str
  pub pubkey : Str
  pub created_at : ℤ
  pub kind : ℤ
  pub tags : List (List Str)
  pub content : Str
  pub sig : Str

pub record PublishKeyPackageInput : Type 0 where
  pub kp_ref : Str
  pub kp_64 : Str

pub record PublishKeyPackageOutput : Type 0 where
  pub kp_ref : Str
  pub last_resort : Bool
  pub at : ℤ

pub record ConsumeKeyPackageInput : Type 0 where
  pub id : Str

pub record ConsumedKeyPackage : Type 0 where
  pub pk : Str
  pub kp_ref : Str
  pub last_resort : Bool
  pub at : ℤ
  pub event : NostrEvent

pub record ConsumeKeyPackageOutput : Type 0 where
  pub key_package : Option ConsumedKeyPackage

pub record AvailableKeyPackage : Type 0 where
  pub pk : Str
  pub kp_ref : Str
  pub last_resort : Bool
  pub at : ℤ

pub record ListAvailableKeyPackagesOutput : Type 0 where
  pub key_packages : List AvailableKeyPackage

pub record RemoveKeyPackagesInput : Type 0 where
  pub kp_refs : List Str

pub record RemoveKeyPackagesOutput : Type 0 where
  pub kp_refs : List Str

pub record PendingWelcome : Type 0 where
  pub kp_ref : Str
  pub welcome_64 : Str
  pub at : ℤ
  pub after : Option ℤ

pub record ConsumedWelcomeRef : Type 0 where
  pub kp_ref : Str
  pub at : ℤ

pub record FetchPendingWelcomesInput : Type 0 where
  pub consumed : Option (List ConsumedWelcomeRef)

pub record FetchPendingWelcomesOutput : Type 0 where
  pub welcomes : List PendingWelcome

pub record StoreWelcomeInput : Type 0 where
  pub target_pk : Str
  pub kp_ref : Str
  pub welcome_64 : Str
  pub after : Option ℤ

pub record StoreWelcomeOutput : Type 0 where
  pub at : ℤ

pub record StoreJoinRequestInput : Type 0 where
  pub gid : Str
  pub kp_ref : Str

pub record StoreJoinRequestOutput : Type 0 where
  pub at : ℤ

pub record FetchManyPendingJoinRequestsGroupInput : Type 0 where
  pub gid : Str

pub record ConsumedJoinRequestWithGroupRef : Type 0 where
  pub pk : Str
  pub at : ℤ
  pub gid : Str

pub record FetchManyPendingJoinRequestsInput : Type 0 where
  pub groups : List FetchManyPendingJoinRequestsGroupInput
  pub consumed : Option (List ConsumedJoinRequestWithGroupRef)

pub record JoinRequestWithGroup : Type 0 where
  pub pk : Str
  pub kp_ref : Str
  pub at : ℤ
  pub gid : Str

pub record FetchManyPendingJoinRequestsOutput : Type 0 where
  pub requests : List JoinRequestWithGroup

pub record PostGroupMessageInput : Type 0 where
  pub msg_64 : Str
  pub gid : Str

pub record PostGroupMessageOutput : Type 0 where
  pub cursor : ℤ
  pub gid : Str
  pub at : ℤ

pub record FetchGroupMessagesInput : Type 0 where
  pub gid : Str
  pub after : Option ℤ

pub record GroupMessage : Type 0 where
  pub cursor : ℤ
  pub gid : Str
  pub msg_64 : Str
  pub at : ℤ

pub record FetchGroupMessagesOutput : Type 0 where
  pub messages : List GroupMessage

pub record FetchManyGroupMessagesInput : Type 0 where
  pub groups : List FetchGroupMessagesInput

pub record SubscribeManyGroupMessagesInput : Type 0 where
  pub groups : List FetchGroupMessagesInput

pub record SubscribeManyGroupMessagesOutput : Type 0 where
  pub subscribed : Bool
  pub groups : List Str
