-- ===== src/Coordinator/Subscriber/Late.antt =====
-- What becomes of a message that is published after a later one of its group.
use cordn_rs.Common.{
  ◌≡◌, refl, sym, subst, ◌∙◌, arith, true, false, str_discrete, Bool-cases, inl, inr,
}
use cordn_rs.Common.Int.{ℤ, ltb_ℤ, ◌≤ℤ◌}
use cordn_rs.Common.Assoc.{lookup, insert, lookup-insert}
use cordn_rs.Types.{GroupMessageRecord}
use cordn_rs.Coordinator.Subscriber.{Subscriber, emit_if_new, or_zero}
use cordn_rs.Coordinator.Subscriber.Dedup.{seen, emit-dedup}

not_past : (a b : ℤ) → b ≤ℤ a → ltb_ℤ a b ≡ false
not_past a b h = ground arith

le_trans : (a b c : ℤ) → a ≤ℤ b → b ≤ℤ c → a ≤ℤ c
le_trans a b c h k = omega arith

emit-stale_cursor :
    (r : GroupMessageRecord) (sub : Subscriber)
    → sub.dedup ≡ true
    → r.cursor ≤ℤ seen r.group_id sub
    → emit_if_new r sub ≡ sub
unfolding emit_if_new
emit-stale_cursor r sub d h = rw (d, not_past (seen r.group_id sub) r.cursor h) refl

seen_after_insert :
    (r : GroupMessageRecord) (sub : Subscriber)
    → or_zero (
        lookup str_discrete r.group_id
          (insert str_discrete r.group_id r.cursor sub.cursors_by_group))
      ≡ r.cursor
seen_after_insert r sub =
    rw (lookup-insert str_discrete r.group_id r.group_id r.cursor sub.cursors_by_group)
      (ground arith)

emit-raises :
    (r : GroupMessageRecord) (sub : Subscriber)
    → sub.dedup ≡ true
    → r.cursor ≤ℤ seen r.group_id (emit_if_new r sub)
unfolding emit_if_new
emit-raises r sub d = elim (Bool-cases (ltb_ℤ (seen r.group_id sub) r.cursor)) [
  | inl new ↦ rw (d, new, seen_after_insert r sub) (omega arith)
  | inr old ↦ rw (d, old) (ground arith)
]

-- Two messages of one group that are published in the reverse order of their cursors: a deduplicating
-- subscriber that was handed the later one first ignores the earlier one, whatever it sent before.
pub emit_if_new-late :
    (earlier later : GroupMessageRecord) (sub : Subscriber)
    → sub.dedup ≡ true
    → earlier.group_id ≡ later.group_id
    → earlier.cursor ≤ℤ later.cursor
    → emit_if_new earlier (emit_if_new later sub) ≡ emit_if_new later sub
emit_if_new-late earlier later sub d same le =
    let sub' = emit_if_new later sub in
    let last = seen later.group_id sub' in
    let raised = emit-raises later sub d in
    let reached = le_trans earlier.cursor later.cursor last le raised in
    emit-stale_cursor earlier sub' (emit-dedup later sub ∙ d)
      (subst (λ g. earlier.cursor ≤ℤ seen g sub') (sym same) reached)
