-- ===== src/Types/Partition.antt =====
-- What `partition_consumed_join_requests` files under a group.
use cordn_rs.Common.{
  ◌≡◌, sym, List, [], ◌∷◌, ◌++◌, append-nil, append_assoc, Str, str_eq, str_discrete, arith,
  if◌then◌else◌,
}
use cordn_rs.Common.Assoc.{Assoc, upsert, lookup}
use cordn_rs.Common.Buckets.{bucket, bucket-push}
use cordn_rs.Types.{
  ConsumedJoinRequestRef, ConsumedJoinRequestWithGroupRef, without_group, partition_loop,
  partition_consumed_join_requests,
}

-- The references that name a group, in order.
unfoldable pub refs_of : Str → List ConsumedJoinRequestWithGroupRef → List ConsumedJoinRequestRef
refs_of g [] = []
refs_of g (c ∷ cs) = if str_eq c.group_id g then without_group c ∷ refs_of g cs else refs_of g cs

partition_loop-refs :
    (g : Str) (by_group : Assoc Str (List ConsumedJoinRequestRef))
    (cs : List ConsumedJoinRequestWithGroupRef)
    → bucket str_discrete g (partition_loop by_group cs)
      ≡ bucket str_discrete g by_group ++ refs_of g cs
unfolding partition_loop refs_of
partition_loop-refs g by_group [] = sym (append-nil (bucket str_discrete g by_group))
partition_loop-refs g by_group (c ∷ cs) =
    let next = upsert str_discrete c.group_id [] (λ refs. refs ++ without_group c ∷ []) by_group in
    ground (
      arith,
      partition_loop-refs g next cs,
      bucket-push str_discrete c.group_id g (without_group c) by_group,
      append_assoc (bucket str_discrete g by_group) (without_group c ∷ []) (refs_of g cs),
    )

pub bucket-partition :
    (g : Str) (cs : List ConsumedJoinRequestWithGroupRef)
    → bucket str_discrete g (partition_consumed_join_requests cs) ≡ refs_of g cs
unfolding partition_consumed_join_requests lookup
bucket-partition g cs = partition_loop-refs g [] cs
