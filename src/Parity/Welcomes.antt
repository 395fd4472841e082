-- ===== src/Parity/Welcomes.antt =====
-- The welcome operations of sqlite.rs and in_memory.rs agree.
use cordn_rs.Common.{
  subst, ◌-◌, ◌≡◌, refl, sym, ap, ◌∙◌, Option-cases, Bool-cases, inl, inr, List, [], ◌∷◌, ◌++◌, ok,
  not, Str, str_discrete, retain, length, arith, true,
}
use cordn_rs.Common.Int.{ℤ, pos, leb_ℤ, ltb_ℤ}
use cordn_rs.Common.Assoc.{lookup, upsert-IsMap}
use cordn_rs.Common.Rows.{Holds, rows_of-push, retain_comm, has_key}
use cordn_rs.Common.Holdings.{Holds-total}
use cordn_rs.Types.{WelcomeQueueRecord, ConsumedWelcomeRef}
use cordn_rs.Memory.State.{InMemoryInner}
use cordn_rs.Memory.Welcomes as Memory
use cordn_rs.Memory.Welcomes.{is_unconsumed}
use cordn_rs.Memory.Welcomes.Laws.{
  store_welcome_lem, fetch_pending_welcomes_lem, delete_expired_welcomes_lem,
}
use cordn_rs.Sqlite.{Tables, quiet}
use cordn_rs.Sqlite.Welcomes as Sqlite
use cordn_rs.Sqlite.Welcomes.Effects.{
  store_welcome_effect, fetch_pending_welcomes_effect, delete_expired_welcomes_effect,
  delete_expired_welcomes_off, retired, rows_of-retired, kept-eq, target_of,
}
use cordn_rs.Parity.{Related, Same}

module _ {Value : Type 0} (text : Value → Str) where
  -- With the queues related again after a call that left the rest alone, all is.
  with_queues :
      (t : Tables) (s s' : InMemoryInner Value) (rows : List WelcomeQueueRecord)
      → Related text t s
      → s' ≡ record s { welcomes_by_identity = s'.welcomes_by_identity }
      → Holds target_of rows s'.welcomes_by_identity
      → Related text (record t { welcomes = rows }) s'
  with_queues t s s' rows w e h =
      subst (Related text (record t { welcomes = rows })) (sym e)
        (record { packages = w.packages; welcomes = h; requests = w.requests; logs = w.logs })

  pub store_welcome-Same :
      (r : WelcomeQueueRecord) (t : Tables) (s : InMemoryInner Value)
      → Related text t s
      → Same text (Sqlite.store_welcome r (quiet t)) (Memory.store_welcome r s)
  unfolding Memory.store_welcome
  store_welcome-Same r t s w = rw (store_welcome_effect r t) (record {
    answer = refl;
    faults = refl;
    related = with_queues t s (Memory.store_welcome r s).1 (t.welcomes ++ r ∷ []) w refl (record {
      filing =
          upsert-IsMap str_discrete r.target_stable_pubkey [] (λ rs. rs ++ r ∷ [])
            s.welcomes_by_identity w.welcomes.filing;
      each = λ k. ground (
        arith,
        store_welcome_lem r s k,
        rows_of-push target_of k t.welcomes r,
        w.welcomes.each k,
      );
    });
  })

  fetch_frame :
      (pk : Str) (cs : List ConsumedWelcomeRef) (s : InMemoryInner Value)
      → (Memory.fetch_pending_welcomes pk cs s).1 ≡ record s {
        welcomes_by_identity = (Memory.fetch_pending_welcomes pk cs s).1.welcomes_by_identity;
      }
  unfolding Memory.fetch_pending_welcomes
  fetch_frame pk cs s = elim (Option-cases (lookup str_discrete pk s.welcomes_by_identity)) [
    | inl missing ↦ rw (missing, Memory.fetch_pending_welcomes) refl
    | inr (rs, found) ↦ rw (found, Memory.fetch_pending_welcomes) refl
  ]

  pub fetch_pending_welcomes-Same :
      (pk : Str) (cs : List ConsumedWelcomeRef) (t : Tables) (s : InMemoryInner Value)
      → Related text t s
      → Same text
          (Sqlite.fetch_pending_welcomes pk cs (quiet t))
          (Memory.fetch_pending_welcomes pk cs s)
  fetch_pending_welcomes-Same pk cs t s w =
      let (answer, each, w') = fetch_pending_welcomes_lem pk cs s w.welcomes.filing in
      rw (fetch_pending_welcomes_effect pk cs t) (record {
        answer = ground (arith, answer, rows_of-retired pk pk cs t.welcomes, w.welcomes.each pk);
        faults = refl;
        related =
            with_queues t s (Memory.fetch_pending_welcomes pk cs s).1 (retired pk cs t.welcomes) w
              (fetch_frame pk cs s)
              (record {
                filing = w';
                each = λ k.
                    ground (arith, each k, rows_of-retired pk k cs t.welcomes, w.welcomes.each k);
              });
      })

  expire_frame :
      (age : ℤ) (s : InMemoryInner Value)
      → (Memory.delete_expired_welcomes age s).1 ≡ record s {
        welcomes_by_identity = (Memory.delete_expired_welcomes age s).1.welcomes_by_identity;
      }
  unfolding Memory.delete_expired_welcomes
  expire_frame age s = elim (Bool-cases (leb_ℤ age (pos 0))) [
    | inl off ↦ rw off refl
    | inr on ↦ rw on refl
  ]

  not_expired :
      (age : ℤ) (s : InMemoryInner Value)
      → leb_ℤ age (pos 0) ≡ true
      → Memory.delete_expired_welcomes age s ≡ (ok 0, s)
  unfolding Memory.delete_expired_welcomes
  not_expired age s off = rw off refl

  pub delete_expired_welcomes-Same :
      (age : ℤ) (t : Tables) (s : InMemoryInner Value)
      → Related text t s
      → Same text
          (Sqlite.delete_expired_welcomes age (quiet t))
          (Memory.delete_expired_welcomes age s)
  delete_expired_welcomes-Same age t s w =
      let kept = retain (λ row. not (ltb_ℤ row.created_at age)) t.welcomes in
      let s' = (Memory.delete_expired_welcomes age s).1 in
      let (n, answer, count, each, w') = delete_expired_welcomes_lem age s w.welcomes.filing in
      elim (Bool-cases (leb_ℤ age (pos 0))) [
        | inl off ↦
            rw (delete_expired_welcomes_off age t off, not_expired age s off)
              (record { answer = refl; faults = refl; related = w })
        | inr on ↦
            let held : Holds target_of kept s'.welcomes_by_identity = record {
              filing = w';
              each = λ k. ground (
                arith,
                each k,
                kept-eq age t.welcomes,
                retain_comm (has_key target_of k) (λ row. leb_ℤ age row.created_at) t.welcomes,
                w.welcomes.each k,
              );
            } in
            let before = Holds-total target_of t.welcomes s.welcomes_by_identity w.welcomes in
            let after = Holds-total target_of kept s'.welcomes_by_identity held in
            let gone : length t.welcomes - length kept ≡ n = omega (arith, count, before, after) in
            rw (delete_expired_welcomes_effect age t on) (record {
              answer = ap ok gone ∙ sym answer;
              faults = refl;
              related = with_queues t s s' kept w (expire_frame age s) held;
            })
      ]
