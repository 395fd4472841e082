-- ===== src/Memory/JoinRequests/Many.antt =====
-- The fetch over several groups is the sequence of the single fetches, and shows what the store held
-- before it.
pub mod Left
use mathlib.Core.Path.{fun_ext}
use cordn_rs.Types.Partition.{refs_of, bucket-partition}
use cordn_rs.Common.{
  ◌≡◌, ap, sym, ◌∙◌, List, [], ◌∷◌, ◌++◌, map, append_assoc, Str, str_discrete, arith, ok, retain,
  retain_idem, flatten, append-nil, subst,
}
use cordn_rs.Common.Buckets.{bucket}
use cordn_rs.Types.{
  JoinRequestRecord, ConsumedJoinRequestRef, ConsumedJoinRequestWithGroupRef,
  partition_consumed_join_requests,
}
use cordn_rs.Memory.State.{InMemoryInner}
use cordn_rs.Memory.JoinRequests.{
  is_unconsumed, fetch_loop, fetch_pending_join_requests, fetch_many_pending_join_requests, Assoc,
}
use cordn_rs.Memory.JoinRequests.Laws.{pending, IsQueue, fetch_pending_join_requests_lem, outlasts}

module _ {Value : Type 0} where
  -- what a fetch of group `g` shows, with the references that are under `g` in the partition
  abbrev shown :
      Assoc Str (List ConsumedJoinRequestRef) → InMemoryInner Value → Str → List JoinRequestRecord
  shown by_group s g = retain (is_unconsumed (bucket str_discrete g by_group)) (pending s g)

  shown_next :
      (by_group : Assoc Str (List ConsumedJoinRequestRef)) (g j : Str) (s : InMemoryInner Value)
      → IsQueue s
      → shown by_group (fetch_pending_join_requests g (bucket str_discrete g by_group) s).1 j
        ≡ shown by_group s j
  shown_next by_group g j s w =
      let refs = bucket str_discrete g by_group in
      let (_, each, _) = fetch_pending_join_requests_lem g refs s w in
      ground (arith, each j, retain_idem (is_unconsumed refs) (pending s j))

  -- One round of the loop, after a fetch that succeeded.
  loop_step :
      (by_group : Assoc Str (List ConsumedJoinRequestRef)) (g : Str) (gs : List Str)
      (out : List JoinRequestRecord) (s : InMemoryInner Value) {found : List JoinRequestRecord}
      → (fetch_pending_join_requests g (bucket str_discrete g by_group) s).0 ≡ ok found
      → fetch_loop by_group (g ∷ gs) out s
        ≡ fetch_loop by_group gs
            (out ++ found)
            (fetch_pending_join_requests g (bucket str_discrete g by_group) s).1
  unfolding fetch_loop
  loop_step by_group g gs out s h = ground arith

  loop_shows :
      (by_group : Assoc Str (List ConsumedJoinRequestRef)) (gs : List Str)
      (out : List JoinRequestRecord) (s : InMemoryInner Value)
      → IsQueue s
      → ((fetch_loop by_group gs out s).0 ≡ ok (out ++ flatten (map (shown by_group s) gs)))
        × IsQueue (fetch_loop by_group gs out s).1
  unfolding flatten fetch_loop
  loop_shows by_group [] out s w = (ap ok (sym (append-nil out)), w)
  loop_shows by_group (g ∷ gs) out s w =
      let refs = bucket str_discrete g by_group in
      let s' = (fetch_pending_join_requests g refs s).1 in
      let (answer, each, w') = fetch_pending_join_requests_lem g refs s w in
      let now = shown by_group s g in
      let ih = loop_shows by_group gs (out ++ now) s' w' in
      let later : map (shown by_group s') gs ≡ map (shown by_group s) gs =
        ap (λ h. map h gs) (fun_ext (λ j. shown_next by_group g j s w)) in
      let joined : out ++ now ++ flatten (map (shown by_group s') gs)
          ≡ out ++ (now ++ flatten (map (shown by_group s) gs)) =
        append_assoc out now (flatten (map (shown by_group s') gs))
        ∙ ap (λ t. out ++ (now ++ flatten t)) later in
      let step = loop_step by_group g gs out s answer in
      (ap (λ t. t.0) step ∙ ih.0 ∙ ap ok joined, subst (λ t. IsQueue t.1) (sym step) ih.1)

  -- The fetch over several groups never fails: it shows, group by group in the order asked, what was
  -- pending before the call and is not consumed by a reference that names the group.
  pub fetch_many_pending_join_requests_lem :
      (gs : List Str) (consumed : List ConsumedJoinRequestWithGroupRef) (s : InMemoryInner Value)
      → IsQueue s
      → (fetch_many_pending_join_requests gs consumed s).0
        ≡ ok (flatten (map (λ g. retain (outlasts (refs_of g consumed)) (pending s g)) gs))
  unfolding fetch_many_pending_join_requests
  fetch_many_pending_join_requests_lem gs consumed s w =
      let refs = λ (g : Str).
        retain (is_unconsumed (bucket str_discrete g (partition_consumed_join_requests consumed)))
          (pending s g) in
      (loop_shows (partition_consumed_join_requests consumed) gs [] s w).0
      ∙ ap (λ (h : Str → List JoinRequestRecord). ok (flatten (map h gs)))
          (fun_ext (λ g.
            ap (λ refs. retain (is_unconsumed refs) (pending s g)) (bucket-partition g consumed)))
