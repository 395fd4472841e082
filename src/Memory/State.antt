-- ===== src/Memory/State.antt =====
-- The state behind the mutex of `InMemoryCoordinatorStorage`: four IndexMaps, each a list of entries
-- in insertion order.
use cordn_rs.Common.{List, []}
use cordn_rs.Common.{Str}
use cordn_rs.Common.Int.{ℤ, pos}
use cordn_rs.Common.Assoc.{Assoc}
use cordn_rs.Types.{
  PublishedKeyPackageRecord, WelcomeQueueRecord, JoinRequestRecord, GroupMessageRecord,
}

pub record GroupLog : Type 0 where
  pub next_cursor : ℤ
  pub messages : List GroupMessageRecord

unfoldable pub new_log : GroupLog
new_log = record { next_cursor = pos 1; messages = [] }

pub record InMemoryInner (Value : Type 0) : Type 0 where
  pub key_packages_by_identity : Assoc Str (List (PublishedKeyPackageRecord Value))
  pub welcomes_by_identity : Assoc Str (List WelcomeQueueRecord)
  pub join_requests_by_group : Assoc Str (List JoinRequestRecord)
  pub groups : Assoc Str GroupLog

unfoldable pub new_inner : (Value : Type 0) → InMemoryInner Value
new_inner Value = record {
  key_packages_by_identity = [];
  welcomes_by_identity = [];
  join_requests_by_group = [];
  groups = [];
}
