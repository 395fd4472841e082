-- ===== src/Sqlite.antt =====
-- The SQLite backend, crates/cordn-core/src/storage/sqlite.rs: the tables, the statements on them, and
-- the transactions. A row carries no id: a table lists its rows in the order of their ids, which
-- AUTOINCREMENT makes the order of insertion. The driver may fail at any statement.
pub mod KeyPackages
pub mod Welcomes
pub mod JoinRequests
pub mod Messages
pub mod Schema
pub mod Preserves
pub mod UniqueRefs
use cordn_rs.Common.{
  ℕ, Bool, Option, none, some, List, [], ◌∷◌, ok, err, panic, Outcome, Str, if◌then◌else◌,
}
use cordn_rs.Common.{codes, str_eq}
use cordn_rs.Common.Strings.{trim, to_ascii_lowercase}
use cordn_rs.Common.Int.{ℤ, pos}
use cordn_rs.Common.Assoc.{Assoc}
use cordn_rs.Types.{
  PublishedKeyPackageRecord, WelcomeQueueRecord, JoinRequestRecord, GroupMessageRecord,
  StorageResult, StorageError, backend,
}

-- Durability on commit.
pub data Synchronous : Type 0 where
  normal : Synchronous
  full : Synchronous

abbrev pub pragma : Synchronous → Str
pragma normal = codes "NORMAL"
pragma full = codes "FULL"

-- "normal" or "full", in any case
unfoldable pub from_config : Str → Option Synchronous
from_config s =
    let name = to_ascii_lowercase (trim s) in
    if str_eq name (codes "normal")
    then some normal
    else if str_eq name (codes "full")
    then some full
    else none

-- `is_last_resort` is an INTEGER column and the event a TEXT column; the other tables have the columns
-- of their records.
pub record KeyPackageRow : Type 0 where
  pub stable_pubkey : Str
  pub key_package_ref : Str
  pub key_package_bytes : List ℕ
  pub is_last_resort : ℤ
  pub published_at : ℤ
  pub publication_event_json : Str

pub record Tables : Type 0 where
  pub key_packages : List KeyPackageRow
  pub welcomes : List WelcomeQueueRecord
  pub join_requests : List JoinRequestRecord
  pub group_routing : Assoc Str ℤ
  pub group_messages : List GroupMessageRecord

abbrev pub empty_tables : Tables
empty_tables = record {
  key_packages = [];
  welcomes = [];
  join_requests = [];
  group_routing = [];
  group_messages = [];
}

-- serde_json's `to_string` and `from_str`, and the texts of the two errors of the driver that the
-- schema gives rise to: a second row with a key-package ref, or with a cursor of a group.
pub record Driver (Value : Type 0) : Type 0 where
  pub to_string : Value → Outcome Str Str
  pub from_str : Str → Outcome Str Value
  pub duplicate_ref : Str → Str
  pub duplicate_cursor : Str → ℤ → Str

-- The locked connection. What the driver makes of each statement to come is in `faults`: nothing, or
-- an error with that text; the statements behind the end of the list do not fail.
pub record Connection : Type 0 where
  pub tables : Tables
  pub faults : List (Option Str)

-- A connection on which no statement to come fails in the driver.
abbrev pub quiet : Tables → Connection
quiet t = record { tables = t; faults = [] }

abbrev pub Sql : Type 0 → Type 0
Sql A = Connection → StorageResult A × Connection

abbrev pub return : {A : Type 0} → A → Sql A
return a conn = (ok a, conn)

abbrev pub fail : {A : Type 0} → StorageError → Sql A
fail e conn = (err e, conn)

-- `?`
abbrev pub and_then :
    {A B : Type 0} → StorageResult A × Connection → (A → Sql B) → StorageResult B × Connection
and_then (ok a, conn) f = f a conn
and_then (err e, conn) f = (err e, conn)
and_then (panic, conn) f = (panic, conn)

infixl 5 ◌>>=◌ ◌>>◌
abbrev pub ◌>>=◌ : {A B : Type 0} → Sql A → (A → Sql B) → Sql B
(m >>= f) conn = and_then (m conn) f

abbrev pub ◌>>◌ : {A B : Type 0} → Sql A → Sql B → Sql B
m >> k = m >>= λ _. k

-- A statement that was prepared and run, with what the driver makes of it. One that fails does nothing.
abbrev pub serve :
    {A : Type 0}
    → StorageResult A × Tables
    → Tables
    → List (Option Str)
    → StorageResult A × Connection
serve (result, after) before [] = (result, record { tables = after; faults = [] })
serve (result, after) before (none ∷ faults) = (result, record { tables = after; faults = faults })
serve (result, after) before (some e ∷ faults) =
    (err (backend e), record { tables = before; faults = faults })

abbrev pub execute : {A : Type 0} → (Tables → StorageResult A × Tables) → Sql A
execute sql conn = serve (sql conn.tables) conn.tables conn.faults

-- A query.
abbrev pub query : {A : Type 0} → (Tables → StorageResult A) → Sql A
query sql = execute (λ t. (sql t, t))

-- BEGIN and COMMIT.
abbrev pub control : Sql (Unit {0})
control = execute (λ t. (ok tt, t))

-- `transaction()?`, the body, and `commit()?`; dropped before its commit, the transaction rolls back.
abbrev pub settle :
    {A : Type 0} → Tables → StorageResult A × Connection → StorageResult A × Connection
settle before (ok a, conn) = (ok a, conn)
settle before (err e, conn) = (err e, record conn { tables = before })
settle before (panic, conn) = (panic, record conn { tables = before })

unfoldable pub transaction : {A : Type 0} → Sql A → Sql A
transaction body conn = settle conn.tables ((do control; a ← body; control; return a) conn)
