-- ===== src/Sqlite/JoinRequests.antt =====
-- The join-request operations of the SQLite backend.
pub mod Effects
use cordn_rs.Common.{
  ℕ, List, [], ◌∷◌, ◌++◌, Bool, not, ◌&&◌, ok, Str, str_eq, str_discrete, any, retain, length, map,
  flatten, leb, ◌-◌, or_default, if◌then◌else◌,
}
use cordn_rs.Common.Int.{ℤ, pos, int_eq, leb_ℤ, ltb_ℤ}
use cordn_rs.Common.Assoc.{Assoc, lookup}
use cordn_rs.Types.{
  JoinRequestRecord, ConsumedJoinRequestRef, ConsumedJoinRequestWithGroupRef, StorageResult,
  too_many_pending_join_requests, max_pending_join_requests_per_group,
  partition_consumed_join_requests,
}
use cordn_rs.Sqlite.{Tables, Sql, return, fail, execute, query, transaction, ◌>>=◌, ◌>>◌}

abbrev pub is_in : Str → JoinRequestRecord → Bool
is_in group_id row = str_eq row.group_id group_id

-- WHERE group_id = ?1 AND requester_stable_pubkey = ?2
abbrev pub is_same : JoinRequestRecord → JoinRequestRecord → Bool
is_same r row = is_in r.group_id row && str_eq row.requester_stable_pubkey r.requester_stable_pubkey

-- UPDATE join_requests SET key_package_ref = ?1, created_at = ?2
abbrev pub refreshed : JoinRequestRecord → JoinRequestRecord → JoinRequestRecord
refreshed r row =
    if is_same r row
    then record row { key_package_ref = r.key_package_ref; created_at = r.created_at }
    else row

unfoldable pub store_join_request : JoinRequestRecord → Sql JoinRequestRecord
store_join_request r = transaction (do
  existing ← query (λ t. ok (any (is_same r) t.join_requests))
  if existing
      then (do
        execute (λ t. (ok tt, record t { join_requests = map (refreshed r) t.join_requests }))
        return r)
      else (do
        count ← query (λ t. ok (length (retain (is_in r.group_id) t.join_requests)))
        if leb max_pending_join_requests_per_group count
            then fail too_many_pending_join_requests
            else (do
              execute (λ t. (ok tt, record t { join_requests = t.join_requests ++ r ∷ [] }))
              return r)))

-- DELETE FROM join_requests WHERE group_id = ?1 AND requester_stable_pubkey = ?2 AND created_at = ?3
abbrev pub names : Str → ConsumedJoinRequestRef → JoinRequestRecord → Bool
names group_id c row =
    is_in group_id row
    && (str_eq row.requester_stable_pubkey c.requester_stable_pubkey
        && int_eq row.created_at c.created_at)

-- `for c in consumed`, and `for c in list`
unfoldable pub retire_loop : Str → List ConsumedJoinRequestRef → Sql (Unit {0})
retire_loop group_id [] = return tt
retire_loop group_id (c ∷ cs) = do
  execute (λ t. (
    ok tt,
    record t { join_requests = retain (λ row. not (names group_id c row)) t.join_requests },
  ))
  retire_loop group_id cs

unfoldable pub fetch_pending_join_requests :
    Str → List ConsumedJoinRequestRef → Sql (List JoinRequestRecord)
unfolding retire_loop
fetch_pending_join_requests group_id consumed =
    transaction
      (do retire_loop group_id consumed; query (λ t. ok (retain (is_in group_id) t.join_requests)))

-- `for group_id in group_ids`
unfoldable pub retire_each : Assoc Str (List ConsumedJoinRequestRef) → List Str → Sql (Unit {0})
retire_each consumed_by_group [] = return tt
retire_each consumed_by_group (group_id ∷ group_ids) = do
  retire_loop group_id (or_default (lookup str_discrete group_id consumed_by_group))
  retire_each consumed_by_group group_ids

unfoldable pub fetch_many_pending_join_requests :
    List Str → List ConsumedJoinRequestWithGroupRef → Sql (List JoinRequestRecord)
unfolding retire_loop retire_each
fetch_many_pending_join_requests [] consumed = return []
fetch_many_pending_join_requests (g ∷ gs) consumed = transaction (do
  retire_each (partition_consumed_join_requests consumed) (g ∷ gs)
  query (λ t. ok (flatten (map (λ group_id. retain (is_in group_id) t.join_requests) (g ∷ gs)))))

unfoldable pub delete_expired_join_requests : ℤ → Sql ℕ
delete_expired_join_requests max_age_threshold =
    if leb_ℤ max_age_threshold (pos 0)
    then return 0
    else execute (λ t.
      let kept = retain (λ row. not (ltb_ℤ row.created_at max_age_threshold)) t.join_requests in
      (ok (length t.join_requests - length kept), record t { join_requests = kept }))
