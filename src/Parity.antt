-- ===== src/Parity.antt =====
-- The two backends of crates/cordn-core/src/storage side by side: when the tables of sqlite.rs hold
-- what the maps of in_memory.rs hold.
pub mod Welcomes
pub mod JoinRequests
pub mod Messages
pub mod KeyPackages
pub mod Calls
use cordn_rs.Common.{ℕ, ◌≤◌, ◌≡◌, Outcome, ok, List, [], map, Str, str_discrete, length, count_if}
use cordn_rs.Common.Int.{ℤ, pos}
use cordn_rs.Common.Assoc.{Assoc, lookup}
use cordn_rs.Common.Buckets.{bucket}
use cordn_rs.Common.Rows.{rows_of, Holds}
use cordn_rs.Types.{
  PublishedKeyPackageRecord, WelcomeQueueRecord, JoinRequestRecord, GroupMessageRecord,
  StorageResult,
}
use cordn_rs.Memory.State.{InMemoryInner, GroupLog}
use cordn_rs.Memory.KeyPackages.{ByIdentity, has_ref}
use cordn_rs.Memory.KeyPackages.Filing.{IsWellFiled}
use cordn_rs.Memory.Messages.{or_new_log, or_zero}
use cordn_rs.Memory.Messages.Numbering.{IsLog}
use cordn_rs.Memory.JoinRequests.{is_from}
use cordn_rs.Sqlite.{Driver, KeyPackageRow, Tables, Connection, quiet}
use cordn_rs.Sqlite.Welcomes.Effects.{target_of}
use cordn_rs.Sqlite.JoinRequests.Effects.{group_of}
use cordn_rs.Sqlite.Messages.Effects as MessageRows
use cordn_rs.Sqlite.KeyPackages.Rows.{identity_of, row_of}

abbrev pub log_in : Assoc Str GroupLog → Str → GroupLog
log_in groups g = or_new_log (lookup str_discrete g groups)

-- The rows are what is pending for each group: a hundred requests at most, and one to a requester.
pub record HoldsRequests (rows : List JoinRequestRecord) (m : Assoc Str (List JoinRequestRecord))
    : Type 0 where
  pub held : Holds group_of rows m
  pub capped : (g : Str) → length (bucket str_discrete g m) ≤ 100
  pub single : (g requester : Str) → count_if (is_from requester) (bucket str_discrete g m) ≤ 1

-- Each group's rows are its log, and its routing row has its last cursor.
pub record HoldsLogs (table : List GroupMessageRecord) (routing : Assoc Str ℤ)
    (groups : Assoc Str GroupLog) : Type 0 where
  pub rows : (g : Str) → rows_of MessageRows.group_of g table ≡ (log_in groups g).messages
  pub cursor :
      (g : Str) → or_zero (lookup str_discrete g routing) ≡ pos (length (log_in groups g).messages)
  pub log : (g : Str) → IsLog g (log_in groups g)

module _ {Value : Type 0} (text : Value → Str) where
  -- The rows are those of records that the map files by identity, and no ref stands twice.
  pub record HoldsPackages (rows : List KeyPackageRow) (m : ByIdentity Value) : Type 0 where
    pub records : List (PublishedKeyPackageRecord Value)
    pub written : rows ≡ map (row_of text) records
    pub held : Holds (identity_of text) records m
    pub filed : IsWellFiled m
    pub single : (ref : Str) → count_if (has_ref ref) records ≤ 1

  pub record Related (t : Tables) (s : InMemoryInner Value) : Type 0 where
    pub packages : HoldsPackages t.key_packages s.key_packages_by_identity
    pub welcomes : Holds target_of t.welcomes s.welcomes_by_identity
    pub requests : HoldsRequests t.join_requests s.join_requests_by_group
    pub logs : HoldsLogs t.group_messages t.group_routing s.groups

  -- A call on either backend has the same answer, and leaves them related; the driver stays quiet.
  pub record Same {A : Type 0} (c : StorageResult A × Connection)
      (m : StorageResult A × InMemoryInner Value) : Type 0 where
    pub answer : c.0 ≡ m.0
    pub faults : c.1.faults ≡ []
    pub related : Related c.1.tables m.1
