-- ===== src/Tests/Subscriptions.antt =====
-- The theorem on the registry, at a subscription among others.
use cordn_rs.Common.{none, List, [], ◌∷◌, true, false, Str, ℕ_discrete, ◌≡◌, refl, any}
use cordn_rs.Common.Int.{pos}
use cordn_rs.Common.Assoc.{lookup}
use cordn_rs.Types.{GroupMessageRecord}
use cordn_rs.Coordinator.Subscriber.{Subscriber}
use cordn_rs.Coordinator.Registry.{new_registry, register_many, remove_subscriber}
use cordn_rs.Coordinator.Registry.Members.{is_member}
use cordn_rs.Coordinator.Registry.Presence.{Present}
use cordn_rs.Coordinator.Registry.Events.{
  Event, registered, removed, published, replayed, happen_all, are_apart,
}
use cordn_rs.Coordinator.Registry.Leaks.{remove_subscriber-register_many}
use cordn_rs.Tests.{room}

abbrev waiting_subscriber : Subscriber
waiting_subscriber = record {
  sent = [];
  dedup = true;
  cursors_by_group = (room, pos 0) ∷ [];
  buffering = true;
  buffer = [];
}

abbrev posted : GroupMessageRecord
posted = record { cursor = pos 1; group_id = room; opaque_message = []; created_at = pos 0 }

-- A second subscriber of the room comes, a message is posted, the backlog is replayed, and it leaves.
abbrev meanwhile : List Event
meanwhile =
    registered (room ∷ []) waiting_subscriber
    ∷ published posted
    ∷ replayed 1 (posted ∷ [])
    ∷ removed 2 (room ∷ [])
    ∷ []

unknown : Present 1 0 (λ g. false) new_registry
unfolding new_registry lookup any
unknown = record { groups = tt; counts = tt; known = tt; member = λ g. refl; count = refl }

remove_subscriber-register_many_example :
    let after =
      remove_subscriber 1
        (room ∷ [])
        (happen_all meanwhile (register_many (room ∷ []) waiting_subscriber new_registry).1) in
    ((g : Str) → is_member 1 g after ≡ false)
    × (lookup ℕ_discrete 1 after.refcounts ≡ none)
    × (lookup ℕ_discrete 1 after.subscribers ≡ none)
unfolding new_registry are_apart register_many
remove_subscriber-register_many_example =
    remove_subscriber-register_many (room ∷ []) waiting_subscriber meanwhile new_registry unknown
      refl
