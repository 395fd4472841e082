-- ===== src/Coordinator/Registry/Leaks.antt =====
-- A subscription from its registration to its end leaves nothing in the registry.
use cordn_rs.Common.{ℕ, none, List, true, false, Str, ℕ_discrete, ◌≡◌, refl, arith}
use cordn_rs.Common.Assoc.{Assoc, lookup, remove, IsMap, lookup-remove, insert-IsMap}
use cordn_rs.Coordinator.Subscriber.{Subscriber}
use cordn_rs.Coordinator.Registry.{
  SubscriberRegistry, join_groups, leave_groups, remove_subscriber, add_subscriber, register_many,
}
use cordn_rs.Coordinator.Registry.Members.{is_member}
use cordn_rs.Coordinator.Registry.Presence.{Present, join_groups-Present, leave_groups-Present}
use cordn_rs.Coordinator.Registry.Events.{Event, happen_all, are_apart, happen_all-Present}

removed_last :
    (id : ℕ) (gids : List Str) (reg : SubscriberRegistry)
    → lookup ℕ_discrete id (leave_groups id gids reg).refcounts ≡ none
    → remove_subscriber id gids reg ≡ (record (leave_groups id gids reg) {
      subscribers = remove ℕ_discrete id (leave_groups id gids reg).subscribers;
    })
unfolding remove_subscriber
removed_last id gids reg e = rw (remove_subscriber, e) refl

closed_at :
    (id : ℕ) (subs : Assoc ℕ Subscriber)
    → IsMap subs
    → lookup ℕ_discrete id (remove ℕ_discrete id subs) ≡ none
closed_at id subs h = ground (arith, lookup-remove ℕ_discrete id id subs h)

-- A subscriber of some groups that is registered under an id that the registry does not know is gone once
-- it is removed from these groups, however others register and leave and messages are published in
-- between under other ids: it is in the set of no group, it is not counted, and its channel is closed.
pub remove_subscriber-register_many :
    (gids : List Str) (sub : Subscriber) (es : List Event) (reg : SubscriberRegistry)
    → Present reg.next_id 0 (λ g. false) reg
    → are_apart reg.next_id es (register_many gids sub reg).1 ≡ true
    → let after =
        remove_subscriber reg.next_id gids (happen_all es (register_many gids sub reg).1) in
      ((g : Str) → is_member reg.next_id g after ≡ false)
      × (lookup ℕ_discrete reg.next_id after.refcounts ≡ none)
      × (lookup ℕ_discrete reg.next_id after.subscribers ≡ none)
unfolding register_many
remove_subscriber-register_many gids sub es reg w a =
    let id = reg.next_id in
    let joined =
      join_groups-Present id gids 0 (λ g. false) (add_subscriber sub reg)
        (record {
          groups = w.groups;
          counts = w.counts;
          known = insert-IsMap ℕ_discrete id sub reg.subscribers w.known;
          member = w.member;
          count = w.count;
        }) in
    let reg' = happen_all es (join_groups id gids (add_subscriber sub reg)) in
    let still =
      happen_all-Present id _ _ es (join_groups id gids (add_subscriber sub reg)) a joined in
    let left = leave_groups-Present id gids _ _ reg' still in
    let end = leave_groups id gids reg' in
    let uncounted : lookup ℕ_discrete id end.refcounts ≡ none = ground (arith, left.count) in
    rw (removed_last id gids reg' uncounted)
      ((λ g. ground (arith, left.member g)), uncounted, closed_at id end.subscribers left.known)
