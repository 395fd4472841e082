-- ===== src/Parity/JoinRequests.antt =====
-- The join-request operations of sqlite.rs and in_memory.rs agree.
pub mod Many
use cordn_rs.Sqlite.JoinRequests.{is_same, refreshed}
use cordn_rs.Common.{
  ◌-◌, ◌≡◌, true, refl, sym, ap, subst, ◌∙◌, Option-cases, Bool-cases, inl, inr, List, [], ◌∷◌,
  ◌++◌, ok, not, Str, retain, length, any, any-find-none, any-find-some, arith, map, flatten, find,
  leb,
}
use cordn_rs.Common.Int.{ℤ, pos, leb_ℤ, ltb_ℤ}
use cordn_rs.Common.Rows.{Holds, rows_of, rows_of-push, retain_comm, has_key}
use cordn_rs.Common.Holdings.{Holds-total}
use cordn_rs.Types.{
  JoinRequestRecord, ConsumedJoinRequestRef, ConsumedJoinRequestWithGroupRef,
  partition_consumed_join_requests,
}
use cordn_rs.Types.Partition.{refs_of, bucket-partition}
use cordn_rs.Memory.State.{InMemoryInner}
use cordn_rs.Memory.JoinRequests as Memory
use cordn_rs.Memory.JoinRequests.{is_unconsumed, is_from, refresh}
use cordn_rs.Memory.JoinRequests.Laws.{
  store_join_request-outcome, fetch_pending_join_requests_lem, delete_expired_join_requests_lem,
  pending,
}
use cordn_rs.Memory.JoinRequests.Bounds.{
  IsBounded, store_join_request-IsBounded, fetch_pending_join_requests-IsBounded,
  delete_expired_join_requests-IsBounded,
}
use cordn_rs.Memory.JoinRequests.Many.{fetch_many_pending_join_requests_lem}
use cordn_rs.Memory.JoinRequests.Many.Left.{
  fetch_many-left, fetch_frame, is_asked, fetch_many-none, fetch_many-IsBounded,
}
use cordn_rs.Sqlite.{Tables, quiet}
use cordn_rs.Sqlite.JoinRequests as Sqlite
use cordn_rs.Sqlite.JoinRequests.Effects.{
  group_of, any-is_same, store_again, store_refused, store_fresh, rows_of-refreshed,
  fetch_pending_join_requests_effect, delete_expired_join_requests_off, map-update_first,
  rows_of-retired, kept-eq, retired, delete_expired_join_requests_effect, retired_by,
  fetch_many_pending_join_requests_effect, rows_of-retired_each,
}
use cordn_rs.Parity.{Related, Same}

module _ {Value : Type 0} (text : Value → Str) where
  pub bounded : (t : Tables) (s : InMemoryInner Value) → Related text t s → IsBounded s
  bounded t s w = record {
    queue = w.requests.held.filing;
    capped = w.requests.capped;
    single = w.requests.single;
  }

  -- With the requests related again after a call that left the rest alone, all is.
  pub with_requests :
      (t : Tables) (s s' : InMemoryInner Value) (rows : List JoinRequestRecord)
      → Related text t s
      → s' ≡ record s { join_requests_by_group = s'.join_requests_by_group }
      → ((j : Str) → rows_of group_of j rows ≡ pending s' j)
      → IsBounded s'
      → Related text (record t { join_requests = rows }) s'
  with_requests t s s' rows w e h b =
      subst (Related text (record t { join_requests = rows })) (sym e) (record {
        packages = w.packages;
        welcomes = w.welcomes;
        requests = record {
          held = record { filing = b.queue; each = h };
          capped = b.capped;
          single = b.single;
        };
        logs = w.logs;
      })

  store_frame :
      (r : JoinRequestRecord) (s : InMemoryInner Value)
      → (Memory.store_join_request r s).1 ≡ record s {
        join_requests_by_group = (Memory.store_join_request r s).1.join_requests_by_group;
      }
  unfolding Memory.store_join_request
  store_frame r s = ground arith

  pub store_join_request-Same :
      (r : JoinRequestRecord) (t : Tables) (s : InMemoryInner Value)
      → Related text t s
      → Same text (Sqlite.store_join_request r (quiet t)) (Memory.store_join_request r s)
  store_join_request-Same r t s w =
      let from = is_from r.requester_stable_pubkey in
      let s' = (Memory.store_join_request r s).1 in
      let xs = pending s r.group_id in
      let (answer, each, queue) = store_join_request-outcome r s w.requests.held.filing in
      let bounds = store_join_request-IsBounded r s (bounded t s w) in
      let mine : rows_of group_of r.group_id t.join_requests ≡ xs =
        w.requests.held.each r.group_id in
      let asked : any (is_same r) t.join_requests ≡ any from xs =
        any-is_same r t.join_requests ∙ ap (any from) mine in
      elim (Option-cases (find from xs)) [
        | inr (existing, found) ↦
            rw (store_again r t (asked ∙ any-find-some from xs found)) (record {
              answer = ground (arith, answer, found);
              faults = refl;
              related =
                  with_requests t s s' (map (refreshed r) t.join_requests) w (store_frame r s)
                    (λ j. ground (
                      arith,
                      each j,
                      found,
                      rows_of-refreshed r j t.join_requests,
                      w.requests.held.each j,
                      map-update_first from (refresh r) (pending s j)
                          (w.requests.single j r.requester_stable_pubkey),
                    ))
                    bounds;
            })
        | inl missing ↦
            let fresh = asked ∙ any-find-none from xs missing in
            elim (Bool-cases (leb 100 (length xs))) [
              | inl full ↦
                  rw (store_refused r t fresh (ap (λ l. leb 100 (length l)) mine ∙ full)) (record {
                    answer = ground (arith, answer, missing, full);
                    faults = refl;
                    related =
                        with_requests t s s' t.join_requests w (store_frame r s)
                          (λ j. ground (arith, each j, missing, full, w.requests.held.each j))
                          bounds;
                  })
              | inr room ↦
                  rw (store_fresh r t fresh (ap (λ l. leb 100 (length l)) mine ∙ room)) (record {
                    answer = ground (arith, answer, missing, room);
                    faults = refl;
                    related =
                        with_requests t s s' (t.join_requests ++ r ∷ []) w (store_frame r s)
                          (λ j. ground (
                            arith,
                            each j,
                            missing,
                            room,
                            w.requests.held.each j,
                            rows_of-push group_of j t.join_requests r,
                          ))
                          bounds;
                  })
            ]
      ]

  pub fetch_pending_join_requests-Same :
      (g : Str) (cs : List ConsumedJoinRequestRef) (t : Tables) (s : InMemoryInner Value)
      → Related text t s
      → Same text
          (Sqlite.fetch_pending_join_requests g cs (quiet t))
          (Memory.fetch_pending_join_requests g cs s)
  fetch_pending_join_requests-Same g cs t s w =
      let (answer, each, queue) = fetch_pending_join_requests_lem g cs s w.requests.held.filing in
      let s' = (Memory.fetch_pending_join_requests g cs s).1 in
      rw (fetch_pending_join_requests_effect g cs t) (record {
        answer =
            ground (arith, answer, rows_of-retired g g cs t.join_requests, w.requests.held.each g);
        faults = refl;
        related =
            with_requests t s s' (retired g cs t.join_requests) w (fetch_frame g cs s)
              (λ j.
                ground
                  (arith, each j, rows_of-retired g j cs t.join_requests, w.requests.held.each j))
              (fetch_pending_join_requests-IsBounded g cs s (bounded t s w));
      })

  expire_frame :
      (age : ℤ) (s : InMemoryInner Value)
      → (Memory.delete_expired_join_requests age s).1 ≡ record s {
        join_requests_by_group =
            (Memory.delete_expired_join_requests age s).1.join_requests_by_group;
      }
  unfolding Memory.delete_expired_join_requests
  expire_frame age s = elim (Bool-cases (leb_ℤ age (pos 0))) [
    | inl off ↦ rw off refl
    | inr on ↦ rw on refl
  ]

  not_expired :
      (age : ℤ) (s : InMemoryInner Value)
      → leb_ℤ age (pos 0) ≡ true
      → Memory.delete_expired_join_requests age s ≡ (ok 0, s)
  unfolding Memory.delete_expired_join_requests
  not_expired age s off = rw off refl

  pub delete_expired_join_requests-Same :
      (age : ℤ) (t : Tables) (s : InMemoryInner Value)
      → Related text t s
      → Same text
          (Sqlite.delete_expired_join_requests age (quiet t))
          (Memory.delete_expired_join_requests age s)
  delete_expired_join_requests-Same age t s w =
      let kept = retain (λ row. not (ltb_ℤ row.created_at age)) t.join_requests in
      let s' = (Memory.delete_expired_join_requests age s).1 in
      let (n, answer, count, each, queue) =
        delete_expired_join_requests_lem age s w.requests.held.filing in
      elim (Bool-cases (leb_ℤ age (pos 0))) [
        | inl off ↦
            rw (delete_expired_join_requests_off age t off, not_expired age s off)
              (record { answer = refl; faults = refl; related = w })
        | inr on ↦
            let held : Holds group_of kept s'.join_requests_by_group = record {
              filing = queue;
              each = λ k. ground (
                arith,
                each k,
                kept-eq age t.join_requests,
                retain_comm (has_key group_of k) (λ row. leb_ℤ age row.created_at) t.join_requests,
                w.requests.held.each k,
              );
            } in
            let before =
              Holds-total group_of t.join_requests s.join_requests_by_group w.requests.held in
            let after = Holds-total group_of kept s'.join_requests_by_group held in
            let gone : length t.join_requests - length kept ≡ n =
              omega (arith, count, before, after) in
            rw (delete_expired_join_requests_effect age t on) (record {
              answer = ap ok gone ∙ sym answer;
              faults = refl;
              related =
                  with_requests t s s' kept w (expire_frame age s) held.each
                    (delete_expired_join_requests-IsBounded age s (bounded t s w));
            })
      ]
