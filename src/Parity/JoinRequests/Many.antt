-- ===== src/Parity/JoinRequests/Many.antt =====
-- The fetch of many groups in sqlite.rs and in_memory.rs agree.
use cordn_rs.Sqlite.JoinRequests.{is_same, refreshed}
use cordn_rs.Common.{
  ◌≡◌, true, refl, sym, ap, ◌∙◌, List, [], ◌∷◌, ok, Str, retain, any, arith, map, flatten,
}
use cordn_rs.Common.Rows.{rows_of}
use cordn_rs.Types.{ConsumedJoinRequestWithGroupRef, partition_consumed_join_requests}
use cordn_rs.Types.Partition.{refs_of, bucket-partition}
use cordn_rs.Memory.State.{InMemoryInner}
use cordn_rs.Memory.JoinRequests as Memory
use cordn_rs.Memory.JoinRequests.{is_unconsumed, is_from, refresh}
use cordn_rs.Memory.JoinRequests.Laws.{pending}
use cordn_rs.Memory.JoinRequests.Many.{fetch_many_pending_join_requests_lem}
use cordn_rs.Memory.JoinRequests.Many.Left.{
  fetch_many-left, is_asked, fetch_many-none, fetch_many-IsBounded,
}
use cordn_rs.Sqlite.{Tables, quiet}
use cordn_rs.Sqlite.JoinRequests as Sqlite
use cordn_rs.Sqlite.JoinRequests.Effects.{
  group_of, retired_by, fetch_many_pending_join_requests_effect, rows_of-retired_each,
}
use cordn_rs.Parity.{Related, Same}
use cordn_rs.Parity.JoinRequests.{bounded, with_requests}

module _ {Value : Type 0} (text : Value → Str) where
  -- What the query shows of groups that are all among those asked for.
  shown :
      (hs gs : List Str) (cs : List ConsumedJoinRequestWithGroupRef) (t : Tables)
      (s : InMemoryInner Value)
      → Related text t s
      → ((j : Str) → is_asked hs j ≡ true → is_asked gs j ≡ true)
      → map (λ j. rows_of group_of j (retired_by cs gs t.join_requests)) hs
        ≡ map (λ j. retain (is_unconsumed (refs_of j cs)) (pending s j)) hs
  unfolding any
  shown [] gs cs t s w f = refl
  shown (h ∷ hs) gs cs t s w f =
      let asked : is_asked gs h ≡ true = f h (ground arith) in
      let here : rows_of group_of h (retired_by cs gs t.join_requests)
          ≡ retain (is_unconsumed (refs_of h cs)) (pending s h) =
        ground (
          arith,
          asked,
          rows_of-retired_each (partition_consumed_join_requests cs) gs t.join_requests h,
          bucket-partition h cs,
          w.requests.held.each h,
        ) in
      cc (here, shown hs gs cs t s w (λ j e. f j (ground (arith, e))))

  pub fetch_many_pending_join_requests-Same :
      (gs : List Str) (cs : List ConsumedJoinRequestWithGroupRef) (t : Tables)
      (s : InMemoryInner Value)
      → Related text t s
      → Same text
          (Sqlite.fetch_many_pending_join_requests gs cs (quiet t))
          (Memory.fetch_many_pending_join_requests gs cs s)
  unfolding Sqlite.fetch_many_pending_join_requests
  fetch_many_pending_join_requests-Same [] cs t s w =
      rw (fetch_many-none cs s) (record { answer = refl; faults = refl; related = w })
  fetch_many_pending_join_requests-Same (g ∷ gs) cs t s w =
      let s' = (Memory.fetch_many_pending_join_requests (g ∷ gs) cs s).1 in
      let by_group = partition_consumed_join_requests cs in
      let (each, queue, frame) = fetch_many-left (g ∷ gs) cs s w.requests.held.filing in
      let answer = fetch_many_pending_join_requests_lem (g ∷ gs) cs s w.requests.held.filing in
      rw (fetch_many_pending_join_requests_effect g gs cs t) (record {
        answer =
            ap (λ l. ok (flatten l)) (shown (g ∷ gs) (g ∷ gs) cs t s w (λ j e. e)) ∙ sym answer;
        faults = refl;
        related =
            with_requests text t s s' (retired_by cs (g ∷ gs) t.join_requests) w frame
              (λ j. ground (
                arith,
                each j,
                rows_of-retired_each by_group (g ∷ gs) t.join_requests j,
                w.requests.held.each j,
              ))
              (fetch_many-IsBounded (g ∷ gs) cs s (bounded text t s w));
      })
