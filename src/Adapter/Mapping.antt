-- ===== src/Adapter/Mapping.antt =====
-- What the adapter's methods read of their input and write of their answer, between the wire shapes
-- and the records of the storage.
use cordn_rs.Common.{Bool, true, false, Option, none, some, List, map, Str, Outcome, ok, err, panic}
use cordn_rs.Types.{
  PublishedKeyPackageRecord, WelcomeQueueRecord, JoinRequestRecord, GroupMessageRecord,
}
use cordn_rs.Types
use cordn_rs.MlsParse.{Parse, ParsedKeyPackage}
use cordn_rs.Contracts.{
  ConsumeKeyPackageOutput, AvailableKeyPackage, PendingWelcome, ConsumedWelcomeRef,
  FetchManyPendingJoinRequestsGroupInput, ConsumedJoinRequestWithGroupRef, JoinRequestWithGroup,
  FetchGroupMessagesInput, GroupMessage, FetchGroupMessagesOutput,
}
use cordn_rs.Adapter.{
  AdapterError, Codec, invalid_input, corrupt_publication_event, invalid_key_package,
}

-- `ok_or`
abbrev pub ok_or : {A : Type 0} → Option A → AdapterError → Outcome AdapterError A
ok_or none e = err e
ok_or (some a) e = ok a

abbrev pub require : Bool → AdapterError → Outcome AdapterError (Unit {0})
require true e = ok tt
require false e = err e

-- `map_err(|_| InvalidKeyPackage)`
abbrev pub as_key_package : Parse ParsedKeyPackage → Outcome AdapterError ParsedKeyPackage
as_key_package (ok parsed) = ok parsed
as_key_package (err e) = err invalid_key_package
as_key_package panic = panic

abbrev pub unwrap_or : {A : Type 0} → Option A → A → A
unwrap_or none d = d
unwrap_or (some a) d = a

abbrev pub available_key_package :
    {Value : Type 0} → PublishedKeyPackageRecord Value → AvailableKeyPackage
available_key_package r = record {
  pk = r.stable_pubkey;
  kp_ref = r.key_package_ref;
  last_resort = r.is_last_resort;
  at = r.published_at;
}

abbrev pub consumed_welcome : ConsumedWelcomeRef → Types.ConsumedWelcomeRef
consumed_welcome c = record { key_package_reference = c.kp_ref; created_at = c.at }

abbrev pub core_fetch_input : FetchGroupMessagesInput → Types.FetchGroupMessagesInput
core_fetch_input g = record { group_id = g.gid; after_cursor = g.after }

abbrev pub removed_ref : {Value : Type 0} → Str → Option (PublishedKeyPackageRecord Value) → Str
removed_ref ref none = ref
removed_ref ref (some r) = r.key_package_ref

abbrev pub group_of : FetchManyPendingJoinRequestsGroupInput → Str
group_of g = g.gid

abbrev pub consumed_join_request :
    ConsumedJoinRequestWithGroupRef → Types.ConsumedJoinRequestWithGroupRef
consumed_join_request c = record {
  group_id = c.gid;
  requester_stable_pubkey = c.pk;
  created_at = c.at;
}

abbrev pub wire_join_request : JoinRequestRecord → JoinRequestWithGroup
wire_join_request r = record {
  pk = r.requester_stable_pubkey;
  kp_ref = r.key_package_ref;
  at = r.created_at;
  gid = r.group_id;
}

module _ {Value : Type 0} (codec : Codec Value) where
  open codec use {b64_encode, from_value}

  abbrev pub consumed_key_package :
      Option (PublishedKeyPackageRecord Value) → Outcome AdapterError ConsumeKeyPackageOutput
  consumed_key_package none = ok (record { key_package = none })
  consumed_key_package (some r) = elim (from_value r.publication_event) [
    | none ↦ err (invalid_input corrupt_publication_event)
    | some event ↦ ok (record {
      key_package = some (record {
        pk = r.stable_pubkey;
        kp_ref = r.key_package_ref;
        last_resort = r.is_last_resort;
        at = r.published_at;
        event = event;
      });
    })
  ]

  abbrev pub pending_welcome : WelcomeQueueRecord → PendingWelcome
  pending_welcome r = record {
    kp_ref = r.key_package_reference;
    welcome_64 = b64_encode r.welcome_bytes;
    at = r.created_at;
    after = r.join_after_cursor;
  }

  abbrev pub wire_message_struct : GroupMessageRecord → GroupMessage
  wire_message_struct r = record {
    cursor = r.cursor;
    gid = r.group_id;
    msg_64 = b64_encode r.opaque_message;
    at = r.created_at;
  }

  abbrev pub map_group_messages : List GroupMessageRecord → FetchGroupMessagesOutput
  map_group_messages records = record { messages = map wire_message_struct records }
