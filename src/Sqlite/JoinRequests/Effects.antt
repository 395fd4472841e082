-- ===== src/Sqlite/JoinRequests/Effects.antt =====
-- What the join-request operations do to the table and answer, while the driver does not fail.
use cordn_rs.Common.{
  ◌≡◌, refl, Bool, true, false, not, ◌&&◌, ◌-◌, ◌≤◌, List, [], ◌∷◌, ◌++◌, ok, err, Str, str_eq, any,
  map, leb, retain, arith, if◌then◌else◌, count_if, update_first, length, flatten, str_discrete,
  retain_idem,
}
use cordn_rs.Common.Int.{ℤ, pos, leb_ℤ, ltb_ℤ, int_eq}
use cordn_rs.Common.Assoc.{Assoc}
use cordn_rs.Common.Buckets.{bucket}
use cordn_rs.Common.Rows.{rows_of, rows_of-delete}
use cordn_rs.Types.{JoinRequestRecord, ConsumedJoinRequestRef, too_many_pending_join_requests}
use cordn_rs.Memory.JoinRequests.{is_from, refresh, is_unconsumed}
use cordn_rs.Memory.JoinRequests.Laws.{unconsumed-nil}
use cordn_rs.Memory.JoinRequests.Many.Left.{is_asked}
use cordn_rs.Sqlite.{Tables, quiet, transaction}
use cordn_rs.Sqlite.JoinRequests.{
  names, is_same, refreshed, retire_loop, retire_each, store_join_request,
  fetch_pending_join_requests, fetch_many_pending_join_requests, delete_expired_join_requests,
  ConsumedJoinRequestWithGroupRef, partition_consumed_join_requests,
}

abbrev pub group_of : JoinRequestRecord → Str
group_of r = r.group_id

-- What the loop of deletions leaves.
unfoldable pub retired :
    Str → List ConsumedJoinRequestRef → List JoinRequestRecord → List JoinRequestRecord
retired g [] rows = rows
retired g (c ∷ cs) rows = retired g cs (retain (λ row. not (names g c row)) rows)

retire_loop_lem :
    (g : Str) (cs : List ConsumedJoinRequestRef) (t : Tables)
    → retire_loop g cs (quiet t)
      ≡ (ok tt, quiet (record t { join_requests = retired g cs t.join_requests }))
unfolding retire_loop retired
retire_loop_lem g [] t = refl
retire_loop_lem g (c ∷ cs) t =
    retire_loop_lem g cs
      (record t { join_requests = retain (λ row. not (names g c row)) t.join_requests })

pub store_again :
    (r : JoinRequestRecord) (t : Tables)
    → any (is_same r) t.join_requests ≡ true
    → store_join_request r (quiet t)
      ≡ (ok r, quiet (record t { join_requests = map (refreshed r) t.join_requests }))
unfolding store_join_request transaction
store_again r t h = rw h refl

pub store_refused :
    (r : JoinRequestRecord) (t : Tables)
    → any (is_same r) t.join_requests ≡ false
    → leb 100 (length (rows_of group_of r.group_id t.join_requests)) ≡ true
    → store_join_request r (quiet t) ≡ (err too_many_pending_join_requests, quiet t)
unfolding store_join_request transaction
store_refused r t h k = rw (h, k) refl

pub store_fresh :
    (r : JoinRequestRecord) (t : Tables)
    → any (is_same r) t.join_requests ≡ false
    → leb 100 (length (rows_of group_of r.group_id t.join_requests)) ≡ false
    → store_join_request r (quiet t)
      ≡ (ok r, quiet (record t { join_requests = t.join_requests ++ r ∷ [] }))
unfolding store_join_request transaction
store_fresh r t h k = rw (h, k) refl

pub fetch_pending_join_requests_effect :
    (g : Str) (cs : List ConsumedJoinRequestRef) (t : Tables)
    → fetch_pending_join_requests g cs (quiet t) ≡ (
      ok (rows_of group_of g (retired g cs t.join_requests)),
      quiet (record t { join_requests = retired g cs t.join_requests }),
    )
unfolding fetch_pending_join_requests transaction
fetch_pending_join_requests_effect g cs t = rw (retire_loop_lem g cs t) refl

-- What the loop over the groups leaves, with the references that the partition has under each.
unfoldable pub retired_each :
    Assoc Str (List ConsumedJoinRequestRef)
    → List Str
    → List JoinRequestRecord
    → List JoinRequestRecord
retired_each by_group [] rows = rows
retired_each by_group (g ∷ gs) rows =
    retired_each by_group gs (retired g (bucket str_discrete g by_group) rows)

retire_each_lem :
    (by_group : Assoc Str (List ConsumedJoinRequestRef)) (gs : List Str) (t : Tables)
    → retire_each by_group gs (quiet t)
      ≡ (ok tt, quiet (record t { join_requests = retired_each by_group gs t.join_requests }))
unfolding retire_each retired_each
retire_each_lem by_group [] t = refl
retire_each_lem by_group (g ∷ gs) t =
    let refs = bucket str_discrete g by_group in
    let rest = record t { join_requests = retired g refs t.join_requests } in
    rw (retire_loop_lem g refs t) (retire_each_lem by_group gs rest)

abbrev pub retired_by :
    List ConsumedJoinRequestWithGroupRef
    → List Str
    → List JoinRequestRecord
    → List JoinRequestRecord
retired_by cs gs rows = retired_each (partition_consumed_join_requests cs) gs rows

pub fetch_many_pending_join_requests_effect :
    (g : Str) (gs : List Str) (cs : List ConsumedJoinRequestWithGroupRef) (t : Tables)
    → fetch_many_pending_join_requests (g ∷ gs) cs (quiet t) ≡ (
      ok (
          flatten
            (map (λ j. rows_of group_of j (retired_by cs (g ∷ gs) t.join_requests)) (g ∷ gs))),
      quiet (record t { join_requests = retired_by cs (g ∷ gs) t.join_requests }),
    )
unfolding fetch_many_pending_join_requests transaction
fetch_many_pending_join_requests_effect g gs cs t =
    rw (retire_each_lem (partition_consumed_join_requests cs) (g ∷ gs) t) refl

abbrev is_named : ConsumedJoinRequestRef → JoinRequestRecord → Bool
is_named c row =
    str_eq row.requester_stable_pubkey c.requester_stable_pubkey
    && int_eq row.created_at c.created_at

-- One deletion drops what the reference retires.
unnamed :
    (c : ConsumedJoinRequestRef) (cs : List ConsumedJoinRequestRef) (rows : List JoinRequestRecord)
    → retain (is_unconsumed cs) (retain (λ row. not (is_named c row)) rows)
      ≡ retain (is_unconsumed (c ∷ cs)) rows
unfolding retain any
unnamed c cs [] = refl
unnamed c cs (r ∷ rows) = ground (arith, unnamed c cs rows)

-- The deletions leave their group the rows that no reference names, and every other group all of its.
pub rows_of-retired :
    (g j : Str) (cs : List ConsumedJoinRequestRef) (rows : List JoinRequestRecord)
    → rows_of group_of j (retired g cs rows) ≡ (
        if str_eq g j
        then retain (is_unconsumed cs) (rows_of group_of j rows)
        else rows_of group_of j rows)
unfolding retired
rows_of-retired g j [] rows = ground (arith, unconsumed-nil (rows_of group_of j rows))
rows_of-retired g j (c ∷ cs) rows =
    let rest = retain (λ row. not (names g c row)) rows in
    ground (
      arith,
      rows_of-retired g j cs rest,
      rows_of-delete group_of g j (is_named c) rows,
      unnamed c cs (rows_of group_of j rows),
    )

pub delete_expired_join_requests_effect :
    (age : ℤ) (t : Tables)
    → leb_ℤ age (pos 0) ≡ false
    → delete_expired_join_requests age (quiet t) ≡ (
      ok (
          length t.join_requests
          - length (retain (λ row. not (ltb_ℤ row.created_at age)) t.join_requests)),
      quiet (record t {
        join_requests = retain (λ row. not (ltb_ℤ row.created_at age)) t.join_requests;
      }),
    )
unfolding delete_expired_join_requests
delete_expired_join_requests_effect age t h = rw h refl

pub delete_expired_join_requests_off :
    (age : ℤ) (t : Tables)
    → leb_ℤ age (pos 0) ≡ true
    → delete_expired_join_requests age (quiet t) ≡ (ok 0, quiet t)
unfolding delete_expired_join_requests
delete_expired_join_requests_off age t h = rw h refl

-- `created_at < t` is the negation of `created_at >= t`.
pub kept-eq :
    (age : ℤ) (rows : List JoinRequestRecord)
    → retain (λ row. not (ltb_ℤ row.created_at age)) rows
      ≡ retain (λ row. leb_ℤ age row.created_at) rows
unfolding retain
kept-eq age [] = refl
kept-eq age (r ∷ rows) = ground (arith, kept-eq age rows)

-- A request of that requester is found in the table just if one is found among the rows of the group.
pub any-is_same :
    (r : JoinRequestRecord) (rows : List JoinRequestRecord)
    → any (is_same r) rows
      ≡ any (is_from r.requester_stable_pubkey) (rows_of group_of r.group_id rows)
unfolding any retain
any-is_same r [] = refl
any-is_same r (x ∷ rows) = ground (arith, any-is_same r rows)

untouched :
    (p : JoinRequestRecord → Bool) (f : JoinRequestRecord → JoinRequestRecord)
    (xs : List JoinRequestRecord)
    → count_if p xs ≡ 0
    → map (λ x. if p x then f x else x) xs ≡ xs
unfolding count_if
untouched p f [] h = refl
untouched p f (x ∷ xs) h = ground (arith, untouched p f xs)

-- Where one row at most passes, an update of all that pass is an update of the first.
pub map-update_first :
    (p : JoinRequestRecord → Bool) (f : JoinRequestRecord → JoinRequestRecord)
    (xs : List JoinRequestRecord)
    → count_if p xs ≤ 1
    → map (λ x. if p x then f x else x) xs ≡ update_first p f xs
unfolding count_if update_first
map-update_first p f [] h = refl
map-update_first p f (x ∷ xs) h = ground (arith, map-update_first p f xs, untouched p f xs)

-- The update reaches the rows of its group alone.
pub rows_of-refreshed :
    (r : JoinRequestRecord) (j : Str) (rows : List JoinRequestRecord)
    → rows_of group_of j (map (refreshed r) rows) ≡ (
        if str_eq r.group_id j
        then map
            (λ x. if is_from r.requester_stable_pubkey x then refresh r x else x)
            (rows_of group_of j rows)
        else rows_of group_of j rows)
unfolding retain
rows_of-refreshed r j [] = ground arith
rows_of-refreshed r j (x ∷ rows) = ground (arith, rows_of-refreshed r j rows)

-- Of each group asked for, the loop over the groups leaves what its references do not retire.
pub rows_of-retired_each :
    (by_group : Assoc Str (List ConsumedJoinRequestRef)) (gs : List Str)
    (rows : List JoinRequestRecord) (j : Str)
    → rows_of group_of j (retired_each by_group gs rows) ≡ (
        if is_asked gs j
        then retain (is_unconsumed (bucket str_discrete j by_group)) (rows_of group_of j rows)
        else rows_of group_of j rows)
unfolding retired_each any
rows_of-retired_each by_group [] rows j = refl
rows_of-retired_each by_group (g ∷ gs) rows j =
    let refs = bucket str_discrete g by_group in
    ground (
      arith,
      rows_of-retired_each by_group gs (retired g refs rows) j,
      rows_of-retired g j refs rows,
      retain_idem (is_unconsumed (bucket str_discrete j by_group)) (rows_of group_of j rows),
    )
