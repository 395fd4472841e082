-- ===== src/Memory/JoinRequests.antt =====
-- The join-request operations of the in-memory backend.
pub mod Laws
pub mod Bounds
pub mod Admission
pub mod Many
use cordn_rs.Common.{
  ℕ, Option, none, some, List, [], ◌∷◌, ◌++◌, Bool, not, ◌&&◌, Outcome, ok, err, panic, Str,
  str_discrete, str_eq, any, leb, length, retain, is_empty, or_default, find, update_first,
  if◌then◌else◌,
}
use cordn_rs.Common.Int.{ℤ, pos, int_eq, leb_ℤ}
use cordn_rs.Common.Assoc.{Assoc, lookup, adjust, upsert, remove}
use cordn_rs.Common.Buckets.{bucket, remove_all, retain_each}
use cordn_rs.Types.{
  JoinRequestRecord, ConsumedJoinRequestRef, ConsumedJoinRequestWithGroupRef, StorageResult,
  StorageError, too_many_pending_join_requests, max_pending_join_requests_per_group,
  partition_consumed_join_requests,
}
use cordn_rs.Memory.State.{InMemoryInner}

abbrev pub is_from : Str → JoinRequestRecord → Bool
is_from requester r = str_eq r.requester_stable_pubkey requester

-- Re-request: the two fields that are refreshed in place.
abbrev pub refresh : JoinRequestRecord → JoinRequestRecord → JoinRequestRecord
refresh new existing = record existing {
  key_package_ref = new.key_package_ref;
  created_at = new.created_at;
}

module _ {Value : Type 0} where
  -- No request of that requester is pending for the group: `entry(..).or_default()`, the cap, `push`.
  store_new :
      JoinRequestRecord
      → InMemoryInner Value
      → StorageResult JoinRequestRecord × InMemoryInner Value
  store_new r inner =
      let m = upsert str_discrete r.group_id [] (λ records. records) inner.join_requests_by_group in
      if leb max_pending_join_requests_per_group (length (bucket str_discrete r.group_id m))
      then (err too_many_pending_join_requests, record inner { join_requests_by_group = m })
      else (
        ok r,
        record inner {
          join_requests_by_group = adjust str_discrete r.group_id (λ records. records ++ r ∷ []) m;
        },
      )

  unfoldable pub store_join_request :
      JoinRequestRecord
      → InMemoryInner Value
      → StorageResult JoinRequestRecord × InMemoryInner Value
  unfolding store_new
  store_join_request r inner =
      let requester = is_from r.requester_stable_pubkey in
      elim (find requester (bucket str_discrete r.group_id inner.join_requests_by_group)) [
        | some existing ↦ (
          ok r,
          record inner {
            join_requests_by_group =
                adjust str_discrete r.group_id (update_first requester (refresh r))
                  inner.join_requests_by_group;
          },
        )
        | none ↦ store_new r inner
      ]

abbrev pub retires : JoinRequestRecord → ConsumedJoinRequestRef → Bool
retires r c =
    str_eq c.requester_stable_pubkey r.requester_stable_pubkey && int_eq c.created_at r.created_at

abbrev pub is_unconsumed : List ConsumedJoinRequestRef → JoinRequestRecord → Bool
is_unconsumed consumed r = not (any (retires r) consumed)

module _ {Value : Type 0} where
  unfoldable pub fetch_pending_join_requests :
      Str
      → List ConsumedJoinRequestRef
      → InMemoryInner Value
      → StorageResult (List JoinRequestRecord) × InMemoryInner Value
  fetch_pending_join_requests group_id consumed inner =
      elim (lookup str_discrete group_id inner.join_requests_by_group) [
        | none ↦ (ok [], inner)
        | some records ↦
            let kept =
              if is_empty consumed then records else retain (is_unconsumed consumed) records in
            let m = adjust str_discrete group_id (λ _. kept) inner.join_requests_by_group in
            (
              ok kept,
              record inner {
                join_requests_by_group =
                    if is_empty kept then remove str_discrete group_id m else m;
              },
            )
      ]

  -- The loop over the groups: `out` is what was collected, and an error ends it.
  fetch_loop :
      Assoc Str (List ConsumedJoinRequestRef)
      → List Str
      → List JoinRequestRecord
      → InMemoryInner Value
      → StorageResult (List JoinRequestRecord) × InMemoryInner Value
  fetch_loop by_group [] out inner = (ok out, inner)
  fetch_loop by_group (group_id ∷ group_ids) out inner =
      let (result, inner') =
        fetch_pending_join_requests group_id (bucket str_discrete group_id by_group) inner in
      elim result [
        | ok found ↦ fetch_loop by_group group_ids (out ++ found) inner'
        | err e ↦ (err e, inner')
        | panic ↦ (panic, inner')
      ]

  unfoldable pub fetch_many_pending_join_requests :
      List Str
      → List ConsumedJoinRequestWithGroupRef
      → InMemoryInner Value
      → StorageResult (List JoinRequestRecord) × InMemoryInner Value
  unfolding fetch_loop
  fetch_many_pending_join_requests group_ids consumed inner =
      fetch_loop (partition_consumed_join_requests consumed) group_ids [] inner

  unfoldable pub delete_expired_join_requests :
      ℤ → InMemoryInner Value → StorageResult ℕ × InMemoryInner Value
  delete_expired_join_requests max_age_threshold inner =
      if leb_ℤ max_age_threshold (pos 0)
      then (ok 0, inner)
      else let (deleted, empty_keys, m) =
          retain_each (λ r. leb_ℤ max_age_threshold r.created_at) inner.join_requests_by_group in
        (ok deleted, record inner { join_requests_by_group = remove_all str_discrete empty_keys m })
