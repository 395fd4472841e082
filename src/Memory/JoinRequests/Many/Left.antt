-- ===== src/Memory/JoinRequests/Many/Left.antt =====
-- What the fetch over several groups leaves in the queues.
use cordn_rs.Common.{
  ◌≡◌, refl, ap, ◌∙◌, Bool, Option-cases, inl, inr, List, [], ◌∷◌, ◌++◌, Str, str_eq, str_discrete,
  any, ok, retain, retain_idem, arith, if◌then◌else◌, length-retain-le, count_if-retain-le,
}
use cordn_rs.Common.Assoc.{Assoc, lookup}
use cordn_rs.Common.Buckets.{bucket}
use cordn_rs.Types.{
  JoinRequestRecord, ConsumedJoinRequestRef, ConsumedJoinRequestWithGroupRef,
  partition_consumed_join_requests,
}
use cordn_rs.Memory.State.{InMemoryInner}
use cordn_rs.Memory.JoinRequests.{
  is_unconsumed, fetch_loop, fetch_pending_join_requests, fetch_many_pending_join_requests, is_from,
}
use cordn_rs.Memory.JoinRequests.Laws.{pending, IsQueue, fetch_pending_join_requests_lem}
use cordn_rs.Memory.JoinRequests.Many.{loop_step}
use cordn_rs.Memory.JoinRequests.Bounds.{IsBounded}

-- Whether a group is among those asked for.
abbrev pub is_asked : List Str → Str → Bool
is_asked gs j = any (λ g. str_eq g j) gs

module _ {Value : Type 0} where
  abbrev with_requests :
      Assoc Str (List JoinRequestRecord) → InMemoryInner Value → InMemoryInner Value
  with_requests m s = record s { join_requests_by_group = m }

  pub fetch_frame :
      (g : Str) (cs : List ConsumedJoinRequestRef) (s : InMemoryInner Value)
      → (fetch_pending_join_requests g cs s).1 ≡ record s {
        join_requests_by_group = (fetch_pending_join_requests g cs s).1.join_requests_by_group;
      }
  unfolding fetch_pending_join_requests
  fetch_frame g cs s = elim (Option-cases (lookup str_discrete g s.join_requests_by_group)) [
    | inl missing ↦ rw (missing, fetch_pending_join_requests) refl
    | inr (rs, found) ↦ rw (found, fetch_pending_join_requests) refl
  ]

  -- what is left of group `j`
  abbrev pub left_of :
      Assoc Str (List ConsumedJoinRequestRef)
      → List Str
      → InMemoryInner Value
      → Str
      → List JoinRequestRecord
  left_of by_group gs s j =
      if is_asked gs j
      then retain (is_unconsumed (bucket str_discrete j by_group)) (pending s j)
      else pending s j

  loop_leaves :
      (by_group : Assoc Str (List ConsumedJoinRequestRef)) (gs : List Str)
      (out : List JoinRequestRecord) (s : InMemoryInner Value)
      → IsQueue s
      → ((j : Str) → pending (fetch_loop by_group gs out s).1 j ≡ left_of by_group gs s j)
        × IsQueue (fetch_loop by_group gs out s).1
        × ((fetch_loop by_group gs out s).1 ≡ record s {
          join_requests_by_group = (fetch_loop by_group gs out s).1.join_requests_by_group;
        })
  unfolding fetch_loop any
  loop_leaves by_group [] out s w = ((λ j. refl), w, refl)
  loop_leaves by_group (g ∷ gs) out s w =
      let refs = bucket str_discrete g by_group in
      let s' = (fetch_pending_join_requests g refs s).1 in
      let (answer, each, w') = fetch_pending_join_requests_lem g refs s w in
      let end = (fetch_loop by_group gs (out ++ retain (is_unconsumed refs) (pending s g)) s').1 in
      let (ih, q, frame) =
        loop_leaves by_group gs (out ++ retain (is_unconsumed refs) (pending s g)) s' w' in
      rw (loop_step by_group g gs out s answer) (
        (λ j. ground (
          arith,
          ih j,
          each j,
          retain_idem (is_unconsumed (bucket str_discrete j by_group)) (pending s j),
        )),
        q,
        frame ∙ ap (with_requests end.join_requests_by_group) (fetch_frame g refs s),
      )

  -- Of each group asked for, what its references do not retire is left; the other groups, and the rest
  -- of the state, are what they were.
  pub fetch_many-left :
      (gs : List Str) (cs : List ConsumedJoinRequestWithGroupRef) (s : InMemoryInner Value)
      → IsQueue s
      → ((j : Str)
          → pending (fetch_many_pending_join_requests gs cs s).1 j
            ≡ left_of (partition_consumed_join_requests cs) gs s j)
        × IsQueue (fetch_many_pending_join_requests gs cs s).1
        × ((fetch_many_pending_join_requests gs cs s).1 ≡ record s {
          join_requests_by_group =
              (fetch_many_pending_join_requests gs cs s).1.join_requests_by_group;
        })
  unfolding fetch_many_pending_join_requests
  fetch_many-left gs cs s w = loop_leaves (partition_consumed_join_requests cs) gs [] s w

  -- With no group asked for, nothing is shown and nothing changes.
  pub fetch_many-none :
      (cs : List ConsumedJoinRequestWithGroupRef) (s : InMemoryInner Value)
      → fetch_many_pending_join_requests [] cs s ≡ (ok [], s)
  unfolding fetch_many_pending_join_requests fetch_loop
  fetch_many-none cs s = refl

  -- Every group stays within the cap of 100, with each requester in one place.
  pub fetch_many-IsBounded :
      (gs : List Str) (cs : List ConsumedJoinRequestWithGroupRef) (s : InMemoryInner Value)
      → IsBounded s
      → IsBounded (fetch_many_pending_join_requests gs cs s).1
  fetch_many-IsBounded gs cs s b =
      let (each, queue, frame) = fetch_many-left gs cs s b.queue in
      let unretired =
        λ (j : Str). is_unconsumed (bucket str_discrete j (partition_consumed_join_requests cs)) in
      record {
        queue = queue;
        capped = λ j.
            rw (each j) (ground (arith, b.capped j, length-retain-le (unretired j) (pending s j)));
        single = λ j q. rw (each j) (
            ground
              (arith, b.single j q, count_if-retain-le (is_from q) (unretired j) (pending s j)));
      }
