-- ===== src/Memory/JoinRequests/Laws.antt =====
-- The join requests pending for one group under each operation.
use cordn_rs.Common.{
  ℕ, ◌+◌, ◌≡◌, refl, sym, ap, Option, none, some, List, [], ◌∷◌, ◌++◌, inl, inr, Option-cases,
  Bool-cases, ok, err, Str, str_discrete, str_eq, any, retain, is_empty, arith, ◌&&◌, leb, length,
  find, update_first, if◌then◌else◌, Bool, not,
}
use cordn_rs.Common.Int.{ℤ, pos, leb_ℤ, int_eq}
use cordn_rs.Common.Assoc.{
  IsMap, lookup, adjust, upsert, upsert-IsMap, adjust-IsMap, lookup-adjust, lookup-upsert,
}
use cordn_rs.Common.Buckets.{
  total, bucket, refile, refile-IsMap, bucket-refile, sieve-IsMap, bucket-sieve, retain_each,
  remove_all-sieve, deleted-total,
}
use cordn_rs.Types.{
  JoinRequestRecord, ConsumedJoinRequestRef, StorageResult, too_many_pending_join_requests,
  max_pending_join_requests_per_group,
}
use cordn_rs.Memory.State.{InMemoryInner}
use cordn_rs.Memory.JoinRequests.{
  is_from, refresh, store_new, store_join_request, is_unconsumed, fetch_pending_join_requests,
  delete_expired_join_requests,
}

pub unconsumed-nil : (rs : List JoinRequestRecord) → retain (is_unconsumed []) rs ≡ rs
unfolding retain any
unconsumed-nil [] = refl
unconsumed-nil (r ∷ rs) = ap (◌∷◌ r) (unconsumed-nil rs)

kept-retain :
    (consumed : List ConsumedJoinRequestRef) (rs : List JoinRequestRecord)
    → (if is_empty consumed then rs else retain (is_unconsumed consumed) rs)
      ≡ retain (is_unconsumed consumed) rs
kept-retain [] rs = sym (unconsumed-nil rs)
kept-retain (c ∷ cs) rs = refl

-- None of the references names the requester and the time of the request.
abbrev pub outlasts : List ConsumedJoinRequestRef → JoinRequestRecord → Bool
outlasts consumed r = not (
    any
      (λ c.
        str_eq c.requester_stable_pubkey r.requester_stable_pubkey
        && int_eq c.created_at r.created_at)
      consumed)

-- What a store answers and what is pending for its group afterwards: a re-request is refreshed in
-- place, a new one is refused at the cap and else appended.
abbrev pub stored_as :
    JoinRequestRecord
    → Option JoinRequestRecord
    → List JoinRequestRecord
    → StorageResult JoinRequestRecord × List JoinRequestRecord
stored_as r (some existing) rs =
    (ok r, update_first (is_from r.requester_stable_pubkey) (refresh r) rs)
stored_as r none rs =
    if leb max_pending_join_requests_per_group (length rs)
    then (err too_many_pending_join_requests, rs)
    else (ok r, rs ++ r ∷ [])

update_first-nil :
    (r : JoinRequestRecord) → update_first (is_from r.requester_stable_pubkey) (refresh r) [] ≡ []
unfolding update_first
update_first-nil r = refl

module _ {Value : Type 0} where
  -- the requests pending for a group, oldest first
  abbrev pub pending : InMemoryInner Value → Str → List JoinRequestRecord
  pending s g = bucket str_discrete g s.join_requests_by_group

  abbrev pub IsQueue : InMemoryInner Value → Type 0
  IsQueue s = IsMap s.join_requests_by_group

  abbrev pub outcome :
      JoinRequestRecord
      → InMemoryInner Value
      → StorageResult JoinRequestRecord × List JoinRequestRecord
  outcome r s =
      let rs = pending s r.group_id in stored_as r (find (is_from r.requester_stable_pubkey) rs) rs

  store_again :
      (r : JoinRequestRecord) (s : InMemoryInner Value) {existing : JoinRequestRecord}
      → find (is_from r.requester_stable_pubkey) (pending s r.group_id) ≡ some existing
      → store_join_request r s ≡ (
        ok r,
        record s {
          join_requests_by_group =
              adjust str_discrete r.group_id
                (update_first (is_from r.requester_stable_pubkey) (refresh r))
                s.join_requests_by_group;
        },
      )
  unfolding store_join_request
  store_again r s h = ground arith

  store_fresh :
      (r : JoinRequestRecord) (s : InMemoryInner Value)
      → find (is_from r.requester_stable_pubkey) (pending s r.group_id) ≡ none
      → store_join_request r s ≡ store_new r s
  unfolding store_join_request
  store_fresh r s h = ground arith

  -- `entry(..).or_default()` alone changes what is pending for no group.
  pending-touch :
      (g j : Str) (s : InMemoryInner Value)
      → bucket str_discrete j (upsert str_discrete g [] (λ rs. rs) s.join_requests_by_group)
        ≡ pending s j
  pending-touch g j s =
      ground (arith, lookup-upsert str_discrete g j [] (λ rs. rs) s.join_requests_by_group)

  pending-push :
      (r : JoinRequestRecord) (j : Str) (s : InMemoryInner Value)
      → bucket str_discrete j (
          adjust str_discrete r.group_id
            (λ rs. rs ++ r ∷ [])
            (upsert str_discrete r.group_id [] (λ rs. rs) s.join_requests_by_group))
        ≡ (if str_eq r.group_id j then pending s r.group_id ++ r ∷ [] else pending s j)
  pending-push r j s =
      let m = upsert str_discrete r.group_id [] (λ rs. rs) s.join_requests_by_group in
      ground (
        arith,
        lookup-upsert str_discrete r.group_id j [] (λ rs. rs) s.join_requests_by_group,
        lookup-adjust str_discrete r.group_id j (λ rs. rs ++ r ∷ []) m,
      )

  store_new_lem :
      (r : JoinRequestRecord) (s : InMemoryInner Value)
      → IsQueue s
      → ((store_new r s).0 ≡ (stored_as r none (pending s r.group_id)).0)
        × ((j : Str)
            → pending (store_new r s).1 j ≡ (
                if str_eq r.group_id j
                then (stored_as r none (pending s r.group_id)).1
                else pending s j))
        × IsQueue (store_new r s).1
  unfolding store_new
  store_new_lem r s w =
      let m = upsert str_discrete r.group_id [] (λ rs. rs) s.join_requests_by_group in
      let w' = upsert-IsMap str_discrete r.group_id [] (λ rs. rs) s.join_requests_by_group w in
      let here = pending-touch r.group_id r.group_id s in
      (
        ground (arith, here),
        (λ j. ground (arith, here, pending-touch r.group_id j s, pending-push r j s)),
        ground (arith, adjust-IsMap str_discrete r.group_id (λ rs. rs ++ r ∷ []) m w'),
      )

  -- A store answers and changes its group's requests as the outcome says, and changes no other group.
  pub store_join_request-outcome :
      (r : JoinRequestRecord) (s : InMemoryInner Value)
      → IsQueue s
      → ((store_join_request r s).0 ≡ (outcome r s).0)
        × ((j : Str)
            → pending (store_join_request r s).1 j
              ≡ (if str_eq r.group_id j then (outcome r s).1 else pending s j))
        × IsQueue (store_join_request r s).1
  store_join_request-outcome r s w =
      let m = s.join_requests_by_group in
      let g = r.group_id in
      elim (Option-cases (find (is_from r.requester_stable_pubkey) (pending s g))) [
        | inl none_yet ↦ rw (store_fresh r s none_yet, none_yet) (store_new_lem r s w)
        | inr (existing, found) ↦
            let up = update_first (is_from r.requester_stable_pubkey) (refresh r) in
            rw (store_again r s found, found)
              (
                refl,
                (λ j. ground (arith, lookup-adjust str_discrete g j up m, update_first-nil r)),
                adjust-IsMap str_discrete g up m w,
              )
      ]

  fetch_found :
      (g : Str) (consumed : List ConsumedJoinRequestRef) (s : InMemoryInner Value)
      {rs : List JoinRequestRecord}
      → lookup str_discrete g s.join_requests_by_group ≡ some rs
      → fetch_pending_join_requests g consumed s ≡ (
        ok (retain (is_unconsumed consumed) rs),
        record s {
          join_requests_by_group =
              refile str_discrete g (retain (is_unconsumed consumed) rs) s.join_requests_by_group;
        },
      )
  unfolding fetch_pending_join_requests refile
  fetch_found g consumed s {rs} h = ground (arith, kept-retain consumed rs)

  fetch_missing :
      (g : Str) (consumed : List ConsumedJoinRequestRef) (s : InMemoryInner Value)
      → lookup str_discrete g s.join_requests_by_group ≡ none
      → fetch_pending_join_requests g consumed s ≡ (ok [], s)
  unfolding fetch_pending_join_requests
  fetch_missing g consumed s h = ground arith

  -- A fetch returns what is pending for the group and was not consumed, in order. Afterwards just that
  -- is pending for the group, and what is pending for every other group is what it was.
  pub fetch_pending_join_requests_lem :
      (g : Str) (consumed : List ConsumedJoinRequestRef) (s : InMemoryInner Value)
      → IsQueue s
      → ((fetch_pending_join_requests g consumed s).0
          ≡ ok (retain (outlasts consumed) (pending s g)))
        × ((j : Str)
            → pending (fetch_pending_join_requests g consumed s).1 j
              ≡ (if str_eq g j then retain (outlasts consumed) (pending s j) else pending s j))
        × IsQueue (fetch_pending_join_requests g consumed s).1
  unfolding retain
  fetch_pending_join_requests_lem g consumed s w =
      elim (Option-cases (lookup str_discrete g s.join_requests_by_group)) [
        | inl missing ↦
            rw (fetch_missing g consumed s missing, missing) (refl, (λ j. ground arith), w)
        | inr (rs, found) ↦
            let kept = retain (is_unconsumed consumed) rs in
            let m = s.join_requests_by_group in
            rw (fetch_found g consumed s found, found)
              (
                refl,
                (λ j. ground (arith, bucket-refile str_discrete g j kept m w found)),
                refile-IsMap str_discrete g kept m w,
              )
      ]

  -- An expiry with a positive threshold drops from every group just the requests older than it, and
  -- counts them; with a threshold of 0 or less nothing changes.
  pub delete_expired_join_requests_lem :
      (t : ℤ) (s : InMemoryInner Value)
      → IsQueue s
      → (n : ℕ) × ((delete_expired_join_requests t s).0 ≡ ok n)
        × (n + total (delete_expired_join_requests t s).1.join_requests_by_group
            ≡ total s.join_requests_by_group)
        × ((j : Str)
            → pending (delete_expired_join_requests t s).1 j ≡ (
                if leb_ℤ t (pos 0)
                then pending s j
                else retain (λ r. leb_ℤ t r.created_at) (pending s j)))
        × IsQueue (delete_expired_join_requests t s).1
  unfolding delete_expired_join_requests
  delete_expired_join_requests_lem t s w =
      let m = s.join_requests_by_group in
      let keep = λ (r : JoinRequestRecord). leb_ℤ t r.created_at in
      elim (Bool-cases (leb_ℤ t (pos 0))) [
        | inl off ↦ rw off (0, refl, omega arith, (λ j. refl), w)
        | inr on ↦
            rw (on, remove_all-sieve str_discrete keep m w)
              (
                (retain_each keep m).0,
                refl,
                deleted-total str_discrete keep m,
                (λ j. bucket-sieve str_discrete keep j m w),
                sieve-IsMap str_discrete keep m w,
              )
      ]
