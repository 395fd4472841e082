-- ===== src/Coordinator/Registry.antt =====
-- `struct SubscriberRegistry` and the methods that lock it. A HashSet of ids is a list with no id
-- twice; the counts are of entries held in memory, so they cannot wrap, and ids are u64.
pub mod Members
pub mod Presence
pub mod Events
pub mod Leaks
use cordn_rs.Common.{
  ℕ, ◌+◌, ◌-◌, ◌%◌, ◌^◌, ◌==◌, none, some, List, [], ◌∷◌, ◌++◌, not, any, retain, is_empty, length,
  Str, str_discrete, ℕ_discrete, if◌then◌else◌,
}
use cordn_rs.Common.Assoc.{Assoc, lookup, adjust, upsert, insert, remove}
use cordn_rs.Types.{GroupMessageRecord}
use cordn_rs.Coordinator.Subscriber.{Subscriber, push}

pub record SubscriberRegistry : Type 0 where
  pub group_subscribers : Assoc Str (List ℕ)
  pub subscribers : Assoc ℕ Subscriber
  pub refcounts : Assoc ℕ ℕ
  pub next_id : ℕ

unfoldable pub new_registry : SubscriberRegistry
new_registry = record { group_subscribers = []; subscribers = []; refcounts = []; next_id = 1 }

-- `HashSet::insert`
abbrev pub add_id : ℕ → List ℕ → List ℕ
add_id id ids = if any (λ i. i == id) ids then ids else ids ++ id ∷ []

-- `HashSet::remove`
abbrev pub drop_id : ℕ → List ℕ → List ℕ
drop_id id ids = retain (λ i. not (i == id)) ids

-- The part of both registrations that is done for each group: its set, and the count.
abbrev pub join_group : ℕ → Str → SubscriberRegistry → SubscriberRegistry
join_group id gid reg = record reg {
  group_subscribers = upsert str_discrete gid [] (add_id id) reg.group_subscribers;
  refcounts = upsert ℕ_discrete id 0 (λ n. n + 1) reg.refcounts;
}

abbrev pub add_subscriber : Subscriber → SubscriberRegistry → SubscriberRegistry
add_subscriber sub reg = record reg {
  next_id = (reg.next_id + 1) % 2 ^ 64;
  subscribers = insert ℕ_discrete reg.next_id sub reg.subscribers;
}

unfoldable pub register_subscriber : Str → Subscriber → SubscriberRegistry → ℕ × SubscriberRegistry
register_subscriber gid sub reg = (reg.next_id, join_group reg.next_id gid (add_subscriber sub reg))

unfoldable pub join_groups : ℕ → List Str → SubscriberRegistry → SubscriberRegistry
join_groups id [] reg = reg
join_groups id (gid ∷ gids) reg = join_groups id gids (join_group id gid reg)

unfoldable pub register_many : List Str → Subscriber → SubscriberRegistry → ℕ × SubscriberRegistry
unfolding join_groups
register_many gids sub reg = (reg.next_id, join_groups reg.next_id gids (add_subscriber sub reg))

-- One group of `remove_subscriber`: the id leaves its set, which goes if that empties it, and the
-- count falls by one, and goes at 0.
unfoldable pub leave_group : ℕ → Str → SubscriberRegistry → SubscriberRegistry
leave_group id gid reg =
    let groups = adjust str_discrete gid (drop_id id) reg.group_subscribers in
    let counts = adjust ℕ_discrete id (λ n. n - 1) reg.refcounts in
    record reg {
      group_subscribers = elim (lookup str_discrete gid groups) [
        | none ↦ groups
        | some ids ↦ if is_empty ids then remove str_discrete gid groups else groups
      ];
      refcounts = elim (lookup ℕ_discrete id counts) [
        | none ↦ counts
        | some n ↦ if n == 0 then remove ℕ_discrete id counts else counts
      ];
    }

unfoldable pub leave_groups : ℕ → List Str → SubscriberRegistry → SubscriberRegistry
leave_groups id [] reg = reg
leave_groups id (gid ∷ gids) reg = leave_groups id gids (leave_group id gid reg)

unfoldable pub remove_subscriber : ℕ → List Str → SubscriberRegistry → SubscriberRegistry
unfolding leave_group leave_groups
remove_subscriber id gids reg =
    let reg' = leave_groups id gids reg in
    elim (lookup ℕ_discrete id reg'.refcounts) [
      | some n ↦ reg'
      | none ↦ record reg' { subscribers = remove ℕ_discrete id reg'.subscribers }
    ]

unfoldable pub push_each : GroupMessageRecord → List ℕ → Assoc ℕ Subscriber → Assoc ℕ Subscriber
push_each r [] subs = subs
push_each r (id ∷ ids) subs = push_each r ids (adjust ℕ_discrete id (push r) subs)

-- Each subscriber of the record's group is pushed the record, in the set's order.
unfoldable pub publish_live : GroupMessageRecord → SubscriberRegistry → SubscriberRegistry
unfolding push_each
publish_live r reg = elim (lookup str_discrete r.group_id reg.group_subscribers) [
  | none ↦ reg
  | some ids ↦ record reg { subscribers = push_each r ids reg.subscribers }
]

unfoldable pub get_active_subscription_count : SubscriberRegistry → ℕ
get_active_subscription_count reg = length reg.refcounts
