-- ===== src/Tests.antt =====
-- Concrete states and inputs, and the theorems applied to them.
pub mod Backend
pub mod Parser
pub mod Limiter
pub mod Server
pub mod Stores
pub mod Settings
pub mod Streams
pub mod Subscriptions
pub mod Migrations
use cordn_rs.Common.{ℕ, List, [], ◌∷◌, Bool, true, false, none, some, Str}
use cordn_rs.Common.Int.{ℤ, pos}
use cordn_rs.Types.{
  PublishedKeyPackageRecord, WelcomeQueueRecord, JoinRequestRecord, AppendGroupMessageParams,
}
use cordn_rs.Memory.State.{InMemoryInner}

abbrev pub alice : Str
alice = 97 ∷ []

abbrev pub bob : Str
bob = 98 ∷ 111 ∷ 98 ∷ []

abbrev pub room : Str
room = 114 ∷ []

abbrev pub kp : Str → Bool → PublishedKeyPackageRecord ℕ
kp ref last_resort = record {
  stable_pubkey = alice;
  key_package_bytes = 1 ∷ 2 ∷ [];
  key_package_ref = ref;
  is_last_resort = last_resort;
  published_at = pos 5;
  publication_event = 0;
}

abbrev pub first_ref : Str
first_ref = 49 ∷ []

abbrev pub spare_ref : Str
spare_ref = 50 ∷ []

abbrev pub welcome : WelcomeQueueRecord
welcome = record {
  target_stable_pubkey = alice;
  key_package_reference = first_ref;
  welcome_bytes = 3 ∷ [];
  created_at = pos 7;
  join_after_cursor = none;
}

abbrev pub request : JoinRequestRecord
request = record {
  group_id = room;
  requester_stable_pubkey = bob;
  key_package_ref = spare_ref;
  created_at = pos 8;
}

-- Alice has a last-resort package and a regular one, and one welcome; bob waits to join the room.
abbrev pub packages : InMemoryInner ℕ
packages = record {
  key_packages_by_identity = (alice, kp spare_ref true ∷ kp first_ref false ∷ []) ∷ [];
  welcomes_by_identity = (alice, welcome ∷ []) ∷ [];
  join_requests_by_group = (room, request ∷ []) ∷ [];
  groups = [];
}

abbrev pub post : ℕ → AppendGroupMessageParams
post byte = record { group_id = room; opaque_message = byte ∷ []; created_at = pos 9 }
