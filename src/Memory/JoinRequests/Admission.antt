-- ===== src/Memory/JoinRequests/Admission.antt =====
-- A store against a description of it that goes through the group's requests once.
use cordn_rs.Common.{
  ℕ, ◌+◌, ◌≡◌, refl, sym, none, some, List, [], ◌∷◌, ◌++◌, inl, inr, Option-cases, ok, err, Str,
  str_eq, arith, ltb, leb, length, find, update_first, if◌then◌else◌, Bool-cases,
}
use cordn_rs.Types.{JoinRequestRecord, StorageResult, too_many_pending_join_requests}
use cordn_rs.Memory.State.{InMemoryInner}
use cordn_rs.Memory.JoinRequests.{is_from, refresh, store_join_request}
use cordn_rs.Memory.JoinRequests.Laws.{pending, IsQueue, stored_as, store_join_request-outcome}

-- The answer to a store, and the group's requests after it, when `n` older ones have been passed. The
-- requester's own request keeps its place, its group and its requester, and has the key package and the
-- time of the new one; if there is none, the new request goes to the end, unless that makes more than
-- 100.
unfoldable pub admitted :
    JoinRequestRecord
    → ℕ
    → List JoinRequestRecord
    → StorageResult JoinRequestRecord × List JoinRequestRecord
admitted r n [] = if ltb n 100 then (ok r, r ∷ []) else (err too_many_pending_join_requests, [])
admitted r n (x ∷ xs) =
    let (answer, rest) = admitted r (n + 1) xs in
    if str_eq x.requester_stable_pubkey r.requester_stable_pubkey
    then (
      ok r,
      record {
        group_id = x.group_id;
        requester_stable_pubkey = x.requester_stable_pubkey;
        key_package_ref = r.key_package_ref;
        created_at = r.created_at;
      }
          ∷ xs,
    )
    else (answer, x ∷ rest)

admitted_again :
    (r : JoinRequestRecord) (n : ℕ) (rs : List JoinRequestRecord) {existing : JoinRequestRecord}
    → find (is_from r.requester_stable_pubkey) rs ≡ some existing
    → admitted r n rs ≡ (ok r, update_first (is_from r.requester_stable_pubkey) (refresh r) rs)
unfolding admitted find update_first
admitted_again r n [] h = absurd (cc)
admitted_again r n (x ∷ xs) {existing} h =
    elim (Bool-cases (str_eq x.requester_stable_pubkey r.requester_stable_pubkey)) [
      | inl own ↦ rw own refl
      | inr other ↦
          let later : find (is_from r.requester_stable_pubkey) xs ≡ some existing =
            ground (arith, h, other) in
          let rest = admitted_again r (n + 1) xs later in rw other (ground (arith, rest))
    ]

admitted_fresh :
    (r : JoinRequestRecord) (n : ℕ) (rs : List JoinRequestRecord)
    → find (is_from r.requester_stable_pubkey) rs ≡ none
    → admitted r n rs ≡ (
        if leb 100 (n + length rs)
        then (err too_many_pending_join_requests, rs)
        else (ok r, rs ++ r ∷ []))
unfolding admitted find
admitted_fresh r n [] h = ground arith
admitted_fresh r n (x ∷ xs) h = ground (arith, admitted_fresh r (n + 1) xs)

admitted-stored_as :
    (r : JoinRequestRecord) (rs : List JoinRequestRecord)
    → stored_as r (find (is_from r.requester_stable_pubkey) rs) rs ≡ admitted r 0 rs
admitted-stored_as r rs = elim (Option-cases (find (is_from r.requester_stable_pubkey) rs)) [
  | inl none_yet ↦ rw none_yet (ground (arith, admitted_fresh r 0 rs none_yet))
  | inr (existing, found) ↦ rw found (sym (admitted_again r 0 rs found))
]

module _ {Value : Type 0} where
  -- A store refreshes the requester's pending request in its place, with the key package and the time
  -- of the new one, appends a request of a new requester, or refuses it if 100 are pending; it answers
  -- with the request or the refusal, and changes what is pending for no other group.
  pub store_join_request_lem :
      (r : JoinRequestRecord) (s : InMemoryInner Value)
      → IsQueue s
      → ((store_join_request r s).0 ≡ (admitted r 0 (pending s r.group_id)).0)
        × ((j : Str)
            → pending (store_join_request r s).1 j ≡ (
                if str_eq r.group_id j
                then (admitted r 0 (pending s r.group_id)).1
                else pending s j))
        × IsQueue (store_join_request r s).1
  store_join_request_lem r s w =
      rw (sym (admitted-stored_as r (pending s r.group_id))) (store_join_request-outcome r s w)
