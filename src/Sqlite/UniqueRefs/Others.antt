-- ===== src/Sqlite/UniqueRefs/Others.antt =====
-- The other methods of sqlite.rs leave the key-package table alone.
use cordn_rs.Common.{
  ℕ, ◌≤◌, ◌≡◌, refl, Bool-cases, inl, inr, List, [], ◌∷◌, ◌++◌, Str, str_discrete, ok, any, retain,
  count_if, if◌then◌else◌, map, leb, length, subst, sym, ◌&&◌,
}
use cordn_rs.Common.Int.{pos, leb_ℤ, int_eq, add_i64}
use cordn_rs.Common.Assoc.{Assoc, insert}
use cordn_rs.Types.{
  StorageResult, backend, partition_consumed_join_requests, max_pending_join_requests_per_group,
  too_many_pending_join_requests,
}
use cordn_rs.Sqlite.{Driver, Tables, Sql, return, execute, query, fail, ◌>>=◌}
use cordn_rs.Sqlite.Preserves.{
  Preserves, return-Preserves, bind-Preserves, execute-Preserves, transaction-Preserves,
  if-Preserves,
}
use cordn_rs.Memory.Messages.{or_zero, numbered_as}
use cordn_rs.Sqlite.KeyPackages as KeyPackages
use cordn_rs.Sqlite.Welcomes as Welcomes
use cordn_rs.Sqlite.JoinRequests as JoinRequests
use cordn_rs.Sqlite.Messages as Messages
use cordn_rs.Types.{
  AppendGroupMessageParams, ConsumedWelcomeRef, JoinRequestRecord, ConsumedJoinRequestRef,
  ConsumedJoinRequestWithGroupRef, GroupMessageRecord,
}
use cordn_rs.Sqlite.UniqueRefs.{HasUniqueRefs, query_unique}

-- The statements on the other tables.
pub other_unique :
    {A : Type 0} (sql : Tables → StorageResult A × Tables)
    → ((t : Tables) → (sql t).1.key_packages ≡ t.key_packages)
    → Preserves HasUniqueRefs (execute sql)
other_unique sql same =
    execute-Preserves HasUniqueRefs sql (λ t h ref.
      subst (λ rows. count_if (KeyPackages.has_ref ref) rows ≤ 1) (sym (same t)) (h ref))

welcomes_retired :
    (pk : Str) (cs : List ConsumedWelcomeRef) → Preserves HasUniqueRefs (Welcomes.retire_loop pk cs)
unfolding Welcomes.retire_loop
welcomes_retired pk [] = λ conn h. h
welcomes_retired pk (c ∷ cs) =
    bind-Preserves HasUniqueRefs _ _ (other_unique _ (λ t. refl)) (λ _. welcomes_retired pk cs)

requests_retired :
    (g : Str) (cs : List ConsumedJoinRequestRef)
    → Preserves HasUniqueRefs (JoinRequests.retire_loop g cs)
unfolding JoinRequests.retire_loop
requests_retired g [] = λ conn h. h
requests_retired g (c ∷ cs) =
    bind-Preserves HasUniqueRefs _ _ (other_unique _ (λ t. refl)) (λ _. requests_retired g cs)

requests_retired_each :
    (m : Assoc Str (List ConsumedJoinRequestRef)) (gs : List Str)
    → Preserves HasUniqueRefs (JoinRequests.retire_each m gs)
unfolding JoinRequests.retire_each
requests_retired_each m [] = λ conn h. h
requests_retired_each m (g ∷ gs) =
    bind-Preserves HasUniqueRefs _ _ (requests_retired g _) (λ _. requests_retired_each m gs)

pub fetch_welcomes_unique :
    (pk : Str) (cs : List ConsumedWelcomeRef)
    → Preserves HasUniqueRefs (Welcomes.fetch_pending_welcomes pk cs)
unfolding Welcomes.fetch_pending_welcomes
fetch_welcomes_unique pk cs = transaction-Preserves HasUniqueRefs _ (
    bind-Preserves HasUniqueRefs (Welcomes.retire_loop pk cs) _ (welcomes_retired pk cs)
      (λ _. other_unique _ (λ t. refl)))

pub fetch_requests_unique :
    (g : Str) (cs : List ConsumedJoinRequestRef)
    → Preserves HasUniqueRefs (JoinRequests.fetch_pending_join_requests g cs)
unfolding JoinRequests.fetch_pending_join_requests
fetch_requests_unique g cs = transaction-Preserves HasUniqueRefs _ (
    bind-Preserves HasUniqueRefs (JoinRequests.retire_loop g cs) _ (requests_retired g cs)
      (λ _. other_unique _ (λ t. refl)))

pub fetch_many_requests_unique :
    (gs : List Str) (cs : List ConsumedJoinRequestWithGroupRef)
    → Preserves HasUniqueRefs (JoinRequests.fetch_many_pending_join_requests gs cs)
unfolding JoinRequests.fetch_many_pending_join_requests
fetch_many_requests_unique [] cs = λ conn h. h
fetch_many_requests_unique (g ∷ gs) cs = transaction-Preserves HasUniqueRefs _ (
    bind-Preserves HasUniqueRefs
      (JoinRequests.retire_each (partition_consumed_join_requests cs) (g ∷ gs)) _
      (requests_retired_each (partition_consumed_join_requests cs) (g ∷ gs))
      (λ _. other_unique _ (λ t. refl)))

pub store_request_unique :
    (r : JoinRequestRecord) → Preserves HasUniqueRefs (JoinRequests.store_join_request r)
unfolding JoinRequests.store_join_request
store_request_unique r = transaction-Preserves HasUniqueRefs _ (
    bind-Preserves HasUniqueRefs (query (λ t. ok (any (JoinRequests.is_same r) t.join_requests))) _
      (other_unique _ (λ t. refl))
      (λ existing.
        if-Preserves HasUniqueRefs existing (refresh >>= λ _. return r) counted
          (bind-Preserves HasUniqueRefs refresh (λ _. return r) (other_unique _ (λ t. refl))
            (λ _. return-Preserves HasUniqueRefs r))
          (bind-Preserves HasUniqueRefs count_rows capped (query_unique _) (λ count.
            if-Preserves HasUniqueRefs (leb max_pending_join_requests_per_group count)
              (fail too_many_pending_join_requests) (push >>= λ _. return r) (λ conn h. h)
              (bind-Preserves HasUniqueRefs push (λ _. return r) (other_unique _ (λ t. refl))
                (λ _. return-Preserves HasUniqueRefs r))))))
  where
    refresh : Sql (Unit {0})
    refresh =
        execute (λ t.
          (ok tt, record t { join_requests = map (JoinRequests.refreshed r) t.join_requests }))

    push : Sql (Unit {0})
    push = execute (λ t. (ok tt, record t { join_requests = t.join_requests ++ r ∷ [] }))

    capped : ℕ → Sql JoinRequestRecord
    capped count =
        if leb max_pending_join_requests_per_group count
        then fail too_many_pending_join_requests
        else push >>= λ _. return r

    count_rows : Sql ℕ
    count_rows = query (λ t. ok (length (retain (JoinRequests.is_in r.group_id) t.join_requests)))

    counted : Sql JoinRequestRecord
    counted = count_rows >>= capped

module _ {Value : Type 0} (driver : Driver Value) where
  pub append_unique :
      (p : AppendGroupMessageParams)
      → Preserves HasUniqueRefs (Messages.append_group_message driver p)
  unfolding Messages.append_group_message
  append_unique p = transaction-Preserves HasUniqueRefs _ (
      bind-Preserves HasUniqueRefs _ _ (query_unique _) (λ last.
        let cursor = add_i64 (or_zero last) (pos 1) in
        let m = numbered_as cursor p in
        let row : Sql (Unit {0}) = execute (Messages.insert_message driver m) in
        let routing : Sql (Unit {0}) = execute (λ t. (
          ok tt,
          record t { group_routing = insert str_discrete p.group_id cursor t.group_routing },
        )) in
        let route : Sql GroupMessageRecord = routing >>= λ _. return m in
        if-Preserves HasUniqueRefs (leb_ℤ cursor (pos 0))
          (fail (backend Messages.unable_to_allocate)) (row >>= λ _. route) (λ conn h. h)
          (bind-Preserves HasUniqueRefs row (λ _. route)
            (execute-Preserves HasUniqueRefs (Messages.insert_message driver m) (inserted m))
            (λ _.
              bind-Preserves HasUniqueRefs routing (λ _. return m)
                (execute-Preserves HasUniqueRefs _ (λ t h. h))
                (λ _. return-Preserves HasUniqueRefs m)))))
    where
      inserted :
          (m : GroupMessageRecord) (t : Tables)
          → HasUniqueRefs t
          → HasUniqueRefs (Messages.insert_message driver m t).1
      inserted m t h =
          elim (Bool-cases (
            any (λ row. Messages.is_in m.group_id row && int_eq row.cursor m.cursor)
              t.group_messages)) [ inl taken ↦ rw taken h | inr free ↦ rw free h ]
