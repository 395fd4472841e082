-- ===== src/Coordinator/Registry/Events.antt =====
-- What happens to the registry between the registration of a subscriber and its removal.
use cordn_rs.Common.{
  ℕ, ◌==◌, List, [], ◌∷◌, Bool, true, false, not, ◌&&◌, Str, str_discrete, ℕ_discrete, ◌≡◌, arith,
  Option-cases, inl, inr,
}
use cordn_rs.Common.Assoc.{
  Assoc, lookup, adjust, remove, IsMap, adjust-IsMap, remove-IsMap, insert-IsMap,
}
use cordn_rs.Types.{GroupMessageRecord}
use cordn_rs.Coordinator.Subscriber.{Subscriber, push, replay_backlog, finish_buffering}
use cordn_rs.Coordinator.Registry.{
  SubscriberRegistry, join_group, leave_group, join_groups, leave_groups, remove_subscriber,
  add_subscriber, register_many, push_each, publish_live,
}
use cordn_rs.Coordinator.Registry.Presence.{Present, join-Present, leave-Present}

-- What happens to the registry meanwhile: others register and leave, messages are published, and
-- backlogs are replayed.
pub data Event : Type 0 where
  registered : List Str → Subscriber → Event
  removed : ℕ → List Str → Event
  published : GroupMessageRecord → Event
  replayed : ℕ → List GroupMessageRecord → Event

unfoldable pub happen : Event → SubscriberRegistry → SubscriberRegistry
happen (registered gids sub) reg = (register_many gids sub reg).1
happen (removed i gids) reg = remove_subscriber i gids reg
happen (published r) reg = publish_live r reg
happen (replayed i backlog) reg = record reg {
  subscribers =
      adjust ℕ_discrete i (λ s. finish_buffering (replay_backlog backlog s)) reg.subscribers;
}

unfoldable pub happen_all : List Event → SubscriberRegistry → SubscriberRegistry
unfolding happen
happen_all [] reg = reg
happen_all (e ∷ es) reg = happen_all es (happen e reg)

-- Each registration and removal in the run is of another id.
abbrev pub is_apart : ℕ → Event → SubscriberRegistry → Bool
is_apart id (registered gids sub) reg = not (reg.next_id == id)
is_apart id (removed i gids) reg = not (i == id)
is_apart id (published r) reg = true
is_apart id (replayed i backlog) reg = true

unfoldable pub are_apart : ℕ → List Event → SubscriberRegistry → Bool
are_apart id [] reg = true
are_apart id (e ∷ es) reg = let rest = are_apart id es (happen e reg) in is_apart id e reg && rest

-- The same knowledge of one id, with the rest as it is.
with_known :
    (id n : ℕ) (asked : Str → Bool) (reg : SubscriberRegistry) (subs : Assoc ℕ Subscriber)
    → Present id n asked reg
    → IsMap subs
    → Present id n asked (record reg { subscribers = subs })
with_known id n asked reg subs w h = record {
  groups = w.groups;
  counts = w.counts;
  known = h;
  member = w.member;
  count = w.count;
}

push_each-IsMap :
    (r : GroupMessageRecord) (ids : List ℕ) (subs : Assoc ℕ Subscriber)
    → IsMap subs
    → IsMap (push_each r ids subs)
unfolding push_each
push_each-IsMap r [] subs h = h
push_each-IsMap r (i ∷ ids) subs h =
    push_each-IsMap r ids _ (adjust-IsMap ℕ_discrete i (push r) subs h)

publish_live-Present :
    (id n : ℕ) (asked : Str → Bool) (r : GroupMessageRecord) (reg : SubscriberRegistry)
    → Present id n asked reg
    → Present id n asked (publish_live r reg)
unfolding publish_live
publish_live-Present id n asked r reg w =
    elim (Option-cases (lookup str_discrete r.group_id reg.group_subscribers)) [
      | inl e ↦ rw (publish_live, e) w
      | inr (ids, e) ↦
          rw (publish_live, e)
            (with_known id n asked reg (push_each r ids reg.subscribers) w
              (push_each-IsMap r ids reg.subscribers w.known))
    ]

-- A run over groups by another id.
others-join :
    (id i : ℕ) (gids : List Str) (n : ℕ) (asked : Str → Bool) (reg : SubscriberRegistry)
    → i == id ≡ false
    → Present id n asked reg
    → Present id n asked (join_groups i gids reg)
unfolding join_groups
others-join id i [] n asked reg a w = w
others-join id i (h ∷ gids) n asked reg a w =
    let first = join-Present id i n asked h reg w in
    others-join id i gids n asked (join_group i h reg) a (record {
      groups = first.groups;
      counts = first.counts;
      known = first.known;
      member = λ g. ground (arith, first.member g, a);
      count = ground (arith, first.count, a);
    })

others-leave :
    (id i : ℕ) (gids : List Str) (n : ℕ) (asked : Str → Bool) (reg : SubscriberRegistry)
    → i == id ≡ false
    → Present id n asked reg
    → Present id n asked (leave_groups i gids reg)
unfolding leave_groups
others-leave id i [] n asked reg a w = w
others-leave id i (h ∷ gids) n asked reg a w =
    let first = leave-Present id i n asked h reg w in
    others-leave id i gids n asked (leave_group i h reg) a (record {
      groups = first.groups;
      counts = first.counts;
      known = first.known;
      member = λ g. ground (arith, first.member g, a);
      count = ground (arith, first.count, a);
    })

-- The subscriber itself goes if its count is gone.
remove_subscriber-Present :
    (id i n : ℕ) (asked : Str → Bool) (gids : List Str) (reg : SubscriberRegistry)
    → Present id n asked (leave_groups i gids reg)
    → Present id n asked (remove_subscriber i gids reg)
unfolding remove_subscriber
remove_subscriber-Present id i n asked gids reg w =
    let left = leave_groups i gids reg in
    elim (Option-cases (lookup ℕ_discrete i left.refcounts)) [
      | inl e ↦
          rw (remove_subscriber, e)
            (with_known id n asked left (remove ℕ_discrete i left.subscribers) w
              (remove-IsMap ℕ_discrete i left.subscribers w.known))
      | inr (m, e) ↦ rw (remove_subscriber, e) w
    ]

happen-Present :
    (id n : ℕ) (asked : Str → Bool) (e : Event) (reg : SubscriberRegistry)
    → is_apart id e reg ≡ true
    → Present id n asked reg
    → Present id n asked (happen e reg)
unfolding happen register_many
happen-Present id n asked (registered gids sub) reg a w =
    others-join id reg.next_id gids n asked (add_subscriber sub reg) (ground (arith, a)) (record {
      groups = w.groups;
      counts = w.counts;
      known = insert-IsMap ℕ_discrete reg.next_id sub reg.subscribers w.known;
      member = w.member;
      count = w.count;
    })
happen-Present id n asked (removed i gids) reg a w =
    remove_subscriber-Present id i n asked gids reg
      (others-leave id i gids n asked reg (ground (arith, a)) w)
happen-Present id n asked (published r) reg a w = publish_live-Present id n asked r reg w
happen-Present id n asked (replayed i backlog) reg a w =
    with_known id n asked reg _ w (adjust-IsMap ℕ_discrete i _ reg.subscribers w.known)

pub happen_all-Present :
    (id n : ℕ) (asked : Str → Bool) (es : List Event) (reg : SubscriberRegistry)
    → are_apart id es reg ≡ true
    → Present id n asked reg
    → Present id n asked (happen_all es reg)
unfolding happen_all are_apart
happen_all-Present id n asked [] reg a w = w
happen_all-Present id n asked (e ∷ es) reg a w =
    let here : is_apart id e reg ≡ true = ground (arith, a) in
    let later : are_apart id es (happen e reg) ≡ true = ground (arith, a) in
    happen_all-Present id n asked es (happen e reg) later (happen-Present id n asked e reg here w)
