-- ===== src/Memory/JoinRequests/Bounds.antt =====
-- What bounds the requests that a group can have pending: the cap, and one request to a requester.
use cordn_rs.Common.{
  ◌≡◌, refl, ◌≤◌, List, [], ◌∷◌, Str, arith, length, find, count_if, Option-cases, inl, inr,
  length-append, none, count_if-update_first, length-retain-le, length-update_first, str_discrete,
  count_if-retain-le, count_if-eq-zero_of_find, subst, count_if-append,
}
use cordn_rs.Common.Int.{ℤ, leb_ℤ}
use cordn_rs.Types.{JoinRequestRecord, ConsumedJoinRequestRef}
use cordn_rs.Memory.State.{InMemoryInner}
use cordn_rs.Memory.JoinRequests.{
  is_from, is_unconsumed, store_join_request, fetch_pending_join_requests,
  delete_expired_join_requests, refresh,
}
use cordn_rs.Memory.JoinRequests.Laws.{
  pending, IsQueue, stored_as, store_join_request-outcome, fetch_pending_join_requests_lem,
  delete_expired_join_requests_lem,
}

module _ {Value : Type 0} where
  pub record IsBounded (s : InMemoryInner Value) : Type 0 where
    pub queue : IsQueue s
    pub capped : (g : Str) → length (pending s g) ≤ 100
    pub single : (g requester : Str) → count_if (is_from requester) (pending s g) ≤ 1

stored_as-capped :
    (r : JoinRequestRecord) (rs : List JoinRequestRecord)
    → length rs ≤ 100
    → length (stored_as r (find (is_from r.requester_stable_pubkey) rs) rs).1 ≤ 100
stored_as-capped r rs h = elim (Option-cases (find (is_from r.requester_stable_pubkey) rs)) [
  | inl none_yet ↦ rw none_yet (ground (arith, length-append rs (r ∷ [])))
  | inr (e, found) ↦
      rw found
        (omega (arith, length-update_first (is_from r.requester_stable_pubkey) (refresh r) rs))
]

one_more :
    (r : JoinRequestRecord) (requester : Str) (rs : List JoinRequestRecord)
    → find (is_from r.requester_stable_pubkey) rs ≡ none
    → count_if (is_from requester) rs ≤ 1
    → count_if (is_from requester) (stored_as r none rs).1 ≤ 1
unfolding count_if
one_more r requester rs none_yet h = elim (str_discrete r.requester_stable_pubkey requester) [
  | yes e ↦
      let none_here = count_if-eq-zero_of_find (is_from r.requester_stable_pubkey) rs none_yet in
      let zero_here : count_if (is_from requester) rs ≡ 0 =
        subst (λ (q : Str). count_if (is_from q) rs ≡ 0) e none_here in
      ground (arith, count_if-append (is_from requester) rs (r ∷ []))
  | no n ↦ ground (arith, count_if-append (is_from requester) rs (r ∷ []))
]

stored_as-single :
    (r : JoinRequestRecord) (requester : Str) (rs : List JoinRequestRecord)
    → count_if (is_from requester) rs ≤ 1
    → count_if (is_from requester) (stored_as r (find (is_from r.requester_stable_pubkey) rs) rs).1
      ≤ 1
stored_as-single r requester rs h =
    elim (Option-cases (find (is_from r.requester_stable_pubkey) rs)) [
      | inl none_yet ↦ rw none_yet (one_more r requester rs none_yet h)
      | inr (e, found) ↦
          let same =
            count_if-update_first (is_from requester) (is_from r.requester_stable_pubkey)
              (refresh r) rs (λ x. refl) in
          rw found (omega (arith, same))
    ]

module _ {Value : Type 0} where
  -- If every group is within the cap of 100 and each requester stands once in it, a store keeps it so.
  pub store_join_request-IsBounded :
      (r : JoinRequestRecord) (s : InMemoryInner Value)
      → IsBounded s
      → IsBounded (store_join_request r s).1
  store_join_request-IsBounded r s b =
      let (answer, each, queue) = store_join_request-outcome r s b.queue in
      record {
        queue = queue;
        capped = λ g. rw (each g) (
            ground
              (arith, b.capped g, stored_as-capped r (pending s r.group_id) (b.capped r.group_id)));
        single = λ g q. rw (each g) (
            ground (
              arith,
              b.single g q,
              stored_as-single r q (pending s r.group_id) (b.single r.group_id q),
            ));
      }

  -- A fetch, whatever it consumes, keeps every group within the cap and each requester in one place.
  pub fetch_pending_join_requests-IsBounded :
      (g : Str) (consumed : List ConsumedJoinRequestRef) (s : InMemoryInner Value)
      → IsBounded s
      → IsBounded (fetch_pending_join_requests g consumed s).1
  fetch_pending_join_requests-IsBounded g consumed s b =
      let (answer, each, queue) = fetch_pending_join_requests_lem g consumed s b.queue in
      let keep = is_unconsumed consumed in
      record {
        queue = queue;
        capped = λ j. rw (each j) (ground (arith, b.capped j, length-retain-le keep (pending s j)));
        single = λ j q.
            rw (each j)
              (ground (arith, b.single j q, count_if-retain-le (is_from q) keep (pending s j)));
      }

  -- An expiry keeps every group within the cap and each requester in one place.
  pub delete_expired_join_requests-IsBounded :
      (t : ℤ) (s : InMemoryInner Value)
      → IsBounded s
      → IsBounded (delete_expired_join_requests t s).1
  delete_expired_join_requests-IsBounded t s b =
      let (n, answer, count, each, queue) = delete_expired_join_requests_lem t s b.queue in
      let keep = λ (r : JoinRequestRecord). leb_ℤ t r.created_at in
      record {
        queue = queue;
        capped = λ j. rw (each j) (ground (arith, b.capped j, length-retain-le keep (pending s j)));
        single = λ j q.
            rw (each j)
              (ground (arith, b.single j q, count_if-retain-le (is_from q) keep (pending s j)));
      }
