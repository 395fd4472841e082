-- ===== src/Sqlite/Messages.antt =====
-- The group-message operations of the SQLite backend.
pub mod Effects
use cordn_rs.Common.{
  ℕ, Option, List, [], ◌∷◌, ◌++◌, Bool, not, ◌&&◌, ok, err, Str, str_eq, str_discrete, any, retain,
  map, flatten, codes, if◌then◌else◌,
}
use cordn_rs.Common.Int.{ℤ, pos, int_eq, leb_ℤ, ltb_ℤ, add_i64}
use cordn_rs.Common.Assoc.{Assoc, lookup, insert}
use cordn_rs.Types.{
  GroupMessageRecord, AppendGroupMessageParams, FetchGroupMessagesInput, StorageResult, backend,
}
use cordn_rs.Sqlite.{Driver, Tables, Sql, return, fail, execute, query, transaction, ◌>>=◌, ◌>>◌}
use cordn_rs.Memory.Messages.{or_zero, numbered_as}

abbrev pub is_in : Str → GroupMessageRecord → Bool
is_in group_id row = str_eq row.group_id group_id

-- ORDER BY cursor ASC, by insertion
place : GroupMessageRecord → List GroupMessageRecord → List GroupMessageRecord
place m [] = m ∷ []
place m (x ∷ xs) = if leb_ℤ m.cursor x.cursor then m ∷ x ∷ xs else x ∷ place m xs

unfoldable pub order_by_cursor : List GroupMessageRecord → List GroupMessageRecord
unfolding place
order_by_cursor [] = []
order_by_cursor (m ∷ ms) = place m (order_by_cursor ms)

-- "Unable to allocate per-group message cursor"
abbrev pub unable_to_allocate : Str
unable_to_allocate = codes "Unable to allocate per-group message cursor"

module _ {Value : Type 0} (driver : Driver Value) where
  -- INSERT INTO group_messages, under the unique index on (group_id, cursor)
  abbrev pub insert_message : GroupMessageRecord → Tables → StorageResult (Unit {0}) × Tables
  insert_message m t =
      if any (λ row. is_in m.group_id row && int_eq row.cursor m.cursor) t.group_messages
      then (err (backend (driver.duplicate_cursor m.group_id m.cursor)), t)
      else (ok tt, record t { group_messages = t.group_messages ++ m ∷ [] })

  unfoldable pub append_group_message : AppendGroupMessageParams → Sql GroupMessageRecord
  append_group_message params = transaction (do
    last ← query (λ t. ok (lookup str_discrete params.group_id t.group_routing))
    let cursor = add_i64 (or_zero last) (pos 1)
    if leb_ℤ cursor (pos 0) then fail (backend unable_to_allocate) else (do
      execute (insert_message (numbered_as cursor params))
      execute (λ t. (
        ok tt,
        record t { group_routing = insert str_discrete params.group_id cursor t.group_routing },
      ))
      return (numbered_as cursor params)))

-- WHERE group_id = ?1 AND cursor > ?2 ORDER BY cursor ASC
abbrev pub select_after : Str → ℤ → List GroupMessageRecord → List GroupMessageRecord
select_after group_id ac rows =
    order_by_cursor (retain (λ row. is_in group_id row && ltb_ℤ ac row.cursor) rows)

unfoldable pub fetch_group_messages : Str → Option ℤ → Sql (List GroupMessageRecord)
fetch_group_messages group_id after_cursor =
    query (λ t. ok (select_after group_id (or_zero after_cursor) t.group_messages))

unfoldable pub fetch_many_group_messages :
    List FetchGroupMessagesInput → Sql (List GroupMessageRecord)
fetch_many_group_messages [] = return []
fetch_many_group_messages (g ∷ gs) = query (λ t. ok (
    flatten
      (map (λ f. select_after f.group_id (or_zero f.after_cursor) t.group_messages) (g ∷ gs))))
