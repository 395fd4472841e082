-- ===== src/Sqlite/Schema/Init.antt =====
-- The opening of a database: `init` and its migrations, in crates/cordn-core/src/storage/sqlite.rs.
use cordn_rs.Common.{
  [], ◌∷◌, Option, none, some, not, ok, err, panic, Outcome, Str, codes, if◌then◌else◌,
}
use cordn_rs.Types.{StorageResult, backend}
use cordn_rs.Sqlite.{Synchronous, pragma}
use cordn_rs.Sqlite.Schema.{
  Database, Ddl, ◌>>=◌, ◌>>◌, skip, create_table, create_index, set_pragma, has_column, Refusals,
  add_column, drop_column,
}

-- The tables and the columns that `init` names.
abbrev pub key_packages : Str
key_packages = codes "key_packages"

abbrev pub welcomes : Str
welcomes = codes "welcomes"

abbrev pub join_requests : Str
join_requests = codes "join_requests"

abbrev pub group_routing : Str
group_routing = codes "group_routing"

abbrev pub group_messages : Str
group_messages = codes "group_messages"

abbrev pub join_after_cursor : Str
join_after_cursor = codes "join_after_cursor"

abbrev pub ephemeral_sender_pubkey : Str
ephemeral_sender_pubkey = codes "ephemeral_sender_pubkey"

abbrev pub epoch : Str
epoch = codes "epoch"

abbrev pub latest_handshake_epoch : Str
latest_handshake_epoch = codes "latest_handshake_epoch"

-- KEY_PACKAGE_WELCOME_JOIN_SCHEMA_SQL
unfoldable pub key_package_welcome_join_schema : Ddl (Unit {0})
key_package_welcome_join_schema = do
  create_table key_packages (
      codes "id"
      ∷ codes "stable_pubkey"
      ∷ codes "key_package_ref"
      ∷ codes "key_package_bytes"
      ∷ codes "is_last_resort"
      ∷ codes "published_at"
      ∷ codes "publication_event_json"
      ∷ [])
  create_index
  create_index
  create_table welcomes (
      codes "id"
      ∷ codes "target_stable_pubkey"
      ∷ codes "key_package_reference"
      ∷ codes "welcome_bytes"
      ∷ codes "created_at"
      ∷ [])
  create_index
  create_table join_requests (
      codes "id"
      ∷ codes "group_id"
      ∷ codes "requester_stable_pubkey"
      ∷ codes "key_package_ref"
      ∷ codes "created_at"
      ∷ [])
  create_index

-- GROUP_SCHEMA_SQL
unfoldable pub group_schema : Ddl (Unit {0})
group_schema = do
  create_table group_routing (codes "group_id" ∷ codes "last_message_cursor" ∷ [])
  create_table group_messages (
      codes "id"
      ∷ codes "cursor"
      ∷ codes "group_id"
      ∷ codes "opaque_message"
      ∷ codes "created_at"
      ∷ [])
  create_index
  create_index

-- The PRAGMAs, the level of synchronisation last.
unfoldable pub set_pragmas : Synchronous → Ddl (Unit {0})
set_pragmas synchronous = do
  set_pragma (codes "journal_mode") (codes "WAL")
  set_pragma (codes "foreign_keys") (codes "ON")
  set_pragma (codes "busy_timeout") (codes "5000")
  set_pragma (codes "synchronous") (pragma synchronous)

module _ (refusals : Refusals) where
  -- A migration that adds a column, and one that drops a column.
  unfoldable pub add_if_missing : Str → Str → Ddl (Unit {0})
  add_if_missing table column = do
    present ← has_column table column
    if not present then add_column refusals table column else skip

  unfoldable pub drop_if_present : Str → Str → Ddl (Unit {0})
  drop_if_present table column = do
    present ← has_column table column
    if present then drop_column refusals table column else skip

  unfoldable pub init : Synchronous → Ddl (Unit {0})
  init synchronous = do
    set_pragmas synchronous
    key_package_welcome_join_schema
    add_if_missing welcomes join_after_cursor
    group_schema
    drop_if_present group_messages ephemeral_sender_pubkey
    drop_if_present group_messages epoch
    drop_if_present group_routing latest_handshake_epoch

  abbrev path_or_memory : Option Str → Str
  path_or_memory none = codes ":memory:"
  path_or_memory (some path) = path

  -- The database that is open after it, if the driver opens one.
  unfoldable pub open_database :
      (Str → Outcome Str Database)
      → Option Str
      → Synchronous
      → StorageResult (Unit {0}) × Option Database
  open_database connect path synchronous = elim (connect (path_or_memory path)) [
    | ok d ↦ (let (out, d') = init synchronous d in (out, some d'))
    | err e ↦ (err (backend e), none)
    | panic ↦ (panic, none)
  ]
