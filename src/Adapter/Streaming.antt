-- ===== src/Adapter/Streaming.antt =====
-- The streaming loop of `subscribe_many_group_messages`, and its end, in
-- crates/cordn-server/src/adapter.rs. What tokio's select comes to in each round of the loop is an
-- argument, as is the transport's writer.
pub mod Protocol
pub mod Finish
use cordn_rs.Common.{List, [], ◌∷◌, Option, none, some, map, Bool, true, false, Str, if◌then◌else◌}
use cordn_rs.Types.{GroupMessageRecord}
use cordn_rs.Storage.{CoordinatorStorage}
use cordn_rs.Coordinator.Service.{GroupMessageSubscription, unsubscribe}
use cordn_rs.Contracts.{
  GroupMessage, FetchGroupMessagesInput, SubscribeManyGroupMessagesInput,
  SubscribeManyGroupMessagesOutput,
}
use cordn_rs.Adapter.{CoordinatorAdapter, Codec}
use cordn_rs.Adapter.Mapping.{wire_message_struct}

-- The trait `MessageSink`. Every call may find the sink changed by the transport.
pub record MessageSink (S : Type 0) : Type 0 where
  pub start : S → Bool × S
  pub write : Str → S → Bool × S
  pub is_active : S → Bool × S
  pub close : S → S

-- One round: the channel yields a record, or is closed and drained, or SINK_ACTIVE_POLL passes first.
pub data Turn : Type 0 where
  received : GroupMessageRecord → Turn
  drained : Turn
  slept : Turn

-- serde_json's `to_string` of the record, `unwrap_or_default`.
unfoldable pub wire_message :
    {Value : Type 0} → Codec Value → (GroupMessage → Option Str) → GroupMessageRecord → Str
wire_message codec to_string r = elim (to_string (wire_message_struct codec r)) [
  | none ↦ []
  | some msg ↦ msg
]

module _ {S : Type 0} (sink : MessageSink S) (wire : GroupMessageRecord → Str) where
  open sink use {start, write, is_active, close}

  -- The loop, with whether it is left; at the end of the list it waits for the next round.
  unfoldable pub stream_loop : List Turn → S → Bool × S
  stream_loop [] s = (false, s)
  stream_loop (drained ∷ turns) s = (true, s)
  stream_loop (received r ∷ turns) s =
      let (active, s') = write (wire r) s in
      let rest = stream_loop turns s' in if active then rest else (true, s')
  stream_loop (slept ∷ turns) s =
      let (active, s') = is_active s in
      let rest = stream_loop turns s' in if active then rest else (true, s')

  -- `if sink.is_active() { sink.close() }`
  unfoldable pub close_active : S → S
  close_active s = let (active, s') = is_active s in if active then close s' else s'

  -- The stream of one subscription.
  unfoldable pub stream_messages : List Turn → S → Bool × S
  unfolding stream_loop close_active
  stream_messages turns s =
      let (left, s') = stream_loop turns (start s).1 in
      if left then (true, close_active s') else (false, s')

-- The output, and the drop of the subscription at the end of the method.
unfoldable pub subscribe_many_end :
    {Value : Type 0} {st : CoordinatorStorage Value}
    → SubscribeManyGroupMessagesInput
    → GroupMessageSubscription
    → CoordinatorAdapter st
    → SubscribeManyGroupMessagesOutput × CoordinatorAdapter st
subscribe_many_end input subscription a = (
  record { subscribed = true; groups = map (λ (g : FetchGroupMessagesInput). g.gid) input.groups },
  record a { coordinator = (unsubscribe _ subscription a.coordinator).1 },
)
