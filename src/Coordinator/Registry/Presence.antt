-- ===== src/Coordinator/Registry/Presence.antt =====
-- What the registry knows of one subscriber, while others come, go and are sent messages.
use cordn_rs.Common.{
  ℕ, ◌+◌, ◌-◌, ◌==◌, none, some, Option, List, [], ◌∷◌, Bool, true, false, not, ◌&&◌, ◌||◌, any,
  length, Str, str_eq, str_discrete, ℕ_discrete, if◌then◌else◌, ◌≡◌, arith, is_empty,
}
use cordn_rs.Common.Assoc.{Assoc, lookup, adjust, IsMap, adjust-IsMap, upsert-IsMap, remove-IsMap}
use cordn_rs.Coordinator.Registry.{
  SubscriberRegistry, add_id, drop_id, join_group, leave_group, join_groups, leave_groups,
}
use cordn_rs.Coordinator.Registry.Members.{
  is_member, counted, is_member-join, is_member-leave, count-join, count-leave,
}

-- The id is in the sets of the groups of `asked`, and is counted `n` times.
pub record Present (id n : ℕ) (asked : Str → Bool) (reg : SubscriberRegistry) : Type 0 where
  pub groups : IsMap reg.group_subscribers
  pub counts : IsMap reg.refcounts
  pub known : IsMap reg.subscribers
  pub member : (g : Str) → is_member id g reg ≡ asked g
  pub count : lookup ℕ_discrete id reg.refcounts ≡ counted n

pub join-Present :
    (id i n : ℕ) (asked : Str → Bool) (h : Str) (reg : SubscriberRegistry)
    → Present id n asked reg
    → Present id
        (if i == id then n + 1 else n)
        (λ g. asked g || (str_eq h g && i == id))
        (join_group i h reg)
join-Present id i n asked h reg w = record {
  groups = upsert-IsMap str_discrete h [] (add_id i) _ w.groups;
  counts = upsert-IsMap ℕ_discrete i 0 (λ n. n + 1) _ w.counts;
  known = w.known;
  member = λ g. ground (arith, is_member-join id i g h reg, w.member g);
  count = count-join id i n h reg w.count;
}

if-IsMap :
    {K V : Type 0} (b : Bool) (m m' : Assoc K V) → IsMap m → IsMap m' → IsMap (if b then m else m')
if-IsMap true m m' h h' = h
if-IsMap false m m' h h' = h'

-- A map from which an entry goes, if there is one and its value asks for that.
dropped-IsMap :
    {K V : Type 0} (o : Option V) (p : V → Bool) (m m' : Assoc K V)
    → IsMap m
    → IsMap m'
    → IsMap (elim o [ none ↦ m' | some v ↦ if p v then m else m' ])
dropped-IsMap none p m m' h h' = h'
dropped-IsMap (some v) p m m' h h' = if-IsMap (p v) m m' h h'

leave-maps :
    (i : ℕ) (h : Str) (reg : SubscriberRegistry)
    → IsMap reg.group_subscribers
    → IsMap reg.refcounts
    → IsMap (leave_group i h reg).group_subscribers × IsMap (leave_group i h reg).refcounts
unfolding leave_group
leave-maps i h reg groups counts =
    let groups' = adjust str_discrete h (drop_id i) reg.group_subscribers in
    let counts' = adjust ℕ_discrete i (λ n. n - 1) reg.refcounts in
    let g = adjust-IsMap str_discrete h (drop_id i) _ groups in
    let c = adjust-IsMap ℕ_discrete i (λ n. n - 1) _ counts in
    let g' = remove-IsMap str_discrete h groups' g in
    let c' = remove-IsMap ℕ_discrete i counts' c in
    (
      dropped-IsMap (lookup str_discrete h groups') is_empty _ groups' g' g,
      dropped-IsMap (lookup ℕ_discrete i counts') (λ n. n == 0) _ counts' c' c,
    )

pub leave-Present :
    (id i n : ℕ) (asked : Str → Bool) (h : Str) (reg : SubscriberRegistry)
    → Present id n asked reg
    → Present id
        (if i == id then n - 1 else n)
        (λ g. asked g && not (str_eq h g && i == id))
        (leave_group i h reg)
unfolding leave_group
leave-Present id i n asked h reg w =
    let maps = leave-maps i h reg w.groups w.counts in
    record {
      groups = maps.0;
      counts = maps.1;
      known = w.known;
      member = λ g. ground (arith, is_member-leave id i g h reg w.groups, w.member g);
      count = count-leave id i n h reg w.counts w.count;
    }

pub join_groups-Present :
    (id : ℕ) (gids : List Str) (n : ℕ) (asked : Str → Bool) (reg : SubscriberRegistry)
    → Present id n asked reg
    → Present id
        (n + length gids)
        (λ g. asked g || any (λ h. str_eq h g) gids)
        (join_groups id gids reg)
unfolding join_groups any length
join_groups-Present id [] n asked reg w = record {
  groups = w.groups;
  counts = w.counts;
  known = w.known;
  member = λ g. ground (arith, w.member g);
  count = ground (arith, w.count);
}
join_groups-Present id (h ∷ gids) n asked reg w =
    let first = join-Present id id n asked h reg w in
    let rest = join_groups-Present id gids _ _ (join_group id h reg) first in
    record {
      groups = rest.groups;
      counts = rest.counts;
      known = rest.known;
      member = λ g. ground (arith, rest.member g);
      count = ground (arith, rest.count);
    }

pub leave_groups-Present :
    (id : ℕ) (gids : List Str) (n : ℕ) (asked : Str → Bool) (reg : SubscriberRegistry)
    → Present id n asked reg
    → Present id
        (n - length gids)
        (λ g. asked g && not (any (λ h. str_eq h g) gids))
        (leave_groups id gids reg)
unfolding leave_groups any length
leave_groups-Present id [] n asked reg w = record {
  groups = w.groups;
  counts = w.counts;
  known = w.known;
  member = λ g. ground (arith, w.member g);
  count = ground (arith, w.count);
}
leave_groups-Present id (h ∷ gids) n asked reg w =
    let first = leave-Present id id n asked h reg w in
    let rest = leave_groups-Present id gids _ _ (leave_group id h reg) first in
    record {
      groups = rest.groups;
      counts = rest.counts;
      known = rest.known;
      member = λ g. ground (arith, rest.member g);
      count = ground (arith, rest.count);
    }
