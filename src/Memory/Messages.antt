-- ===== src/Memory/Messages.antt =====
-- The group-message operations of the in-memory backend.
pub mod Numbering
pub mod Delivery
use cordn_rs.Common.{
  Option, none, some, List, [], ◌∷◌, ◌++◌, ok, Str, str_discrete, retain, flatten, map,
}
use cordn_rs.Common.Int.{ℤ, pos, add_i64, ltb_ℤ}
use cordn_rs.Common.Assoc.{Assoc, lookup, upsert}
use cordn_rs.Types.{
  GroupMessageRecord, AppendGroupMessageParams, FetchGroupMessagesInput, StorageResult,
}
use cordn_rs.Memory.State.{GroupLog, new_log, InMemoryInner}

-- `entry(group_id).or_insert_with(GroupLog::new)`
abbrev pub or_new_log : Option GroupLog → GroupLog
or_new_log none = new_log
or_new_log (some log) = log

-- `unwrap_or(0)`
abbrev pub or_zero : Option ℤ → ℤ
or_zero none = pos 0
or_zero (some c) = c

abbrev pub numbered_as : ℤ → AppendGroupMessageParams → GroupMessageRecord
numbered_as cursor params = record {
  cursor = cursor;
  group_id = params.group_id;
  opaque_message = params.opaque_message;
  created_at = params.created_at;
}

-- What `append_group_message` does to the log: `next_cursor += 1`, and the push.
abbrev pub appended : AppendGroupMessageParams → GroupLog → GroupLog
appended params log = record {
  next_cursor = add_i64 log.next_cursor (pos 1);
  messages = log.messages ++ numbered_as log.next_cursor params ∷ [];
}

-- `get(..).map(..).unwrap_or_default()`, in both fetches.
after : Str → Option ℤ → Assoc Str GroupLog → List GroupMessageRecord
after group_id after_cursor groups = elim (lookup str_discrete group_id groups) [
  | none ↦ []
  | some log ↦ retain (λ m. ltb_ℤ (or_zero after_cursor) m.cursor) log.messages
]

module _ {Value : Type 0} where
  unfoldable pub append_group_message :
      AppendGroupMessageParams
      → InMemoryInner Value
      → StorageResult GroupMessageRecord × InMemoryInner Value
  append_group_message params inner =
      let log = or_new_log (lookup str_discrete params.group_id inner.groups) in
      (
        ok (numbered_as log.next_cursor params),
        record inner {
          groups = upsert str_discrete params.group_id new_log (appended params) inner.groups;
        },
      )

  unfoldable pub fetch_group_messages :
      Str
      → Option ℤ
      → InMemoryInner Value
      → StorageResult (List GroupMessageRecord) × InMemoryInner Value
  unfolding after
  fetch_group_messages group_id after_cursor inner =
      (ok (after group_id after_cursor inner.groups), inner)

  fetch_loop :
      List FetchGroupMessagesInput
      → List GroupMessageRecord
      → InMemoryInner Value
      → List GroupMessageRecord
  fetch_loop [] out inner = out
  fetch_loop (g ∷ gs) out inner =
      fetch_loop gs (out ++ after g.group_id g.after_cursor inner.groups) inner

  unfoldable pub fetch_many_group_messages :
      List FetchGroupMessagesInput
      → InMemoryInner Value
      → StorageResult (List GroupMessageRecord) × InMemoryInner Value
  unfolding fetch_loop after
  fetch_many_group_messages gs inner = (ok (fetch_loop gs [] inner), inner)
