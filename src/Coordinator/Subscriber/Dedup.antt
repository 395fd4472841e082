-- ===== src/Coordinator/Subscriber/Dedup.antt =====
-- What a deduplicating subscriber sends of one group, when it is handed records of any groups.
use Prim.Native.Nat.{max}
use cordn_rs.Common.{
  ℕ, zero, suc, ◌+◌, ◌-◌, ◌≤◌, ◌<◌, ◌≡◌, ◌≢◌, refl, ap, sym, ◌∙◌, List, [], ◌∷◌, ◌++◌, append-nil,
  append_assoc, true, Str, str_eq, str_discrete, arith, length, drop, retain, retain-append, subst,
  dec_lt,
}
use cordn_rs.Common.Int.{ℤ, pos}
use cordn_rs.Common.Assoc.{lookup, lookup-insert}
use cordn_rs.Types.{GroupMessageRecord}
use cordn_rs.Memory.Messages.Numbering.{Numbered}
use cordn_rs.Coordinator.Subscriber.{Subscriber, or_zero, emit_if_new, replay_backlog}

abbrev pub of_group : Str → List GroupMessageRecord → List GroupMessageRecord
of_group g = retain (λ r. str_eq r.group_id g)

abbrev pub sent_of : Str → Subscriber → List GroupMessageRecord
sent_of g sub = of_group g sub.sent

abbrev pub seen : Str → Subscriber → ℤ
seen g sub = or_zero (lookup str_discrete g sub.cursors_by_group)

-- A record of another group leaves the group's part as it was.
emit-other :
    (g : Str) (r : GroupMessageRecord) (sub : Subscriber)
    → r.group_id ≢ g
    → (sent_of g (emit_if_new r sub) ≡ sent_of g sub) × (seen g (emit_if_new r sub) ≡ seen g sub)
unfolding emit_if_new retain
emit-other g r sub n = ground (
  arith,
  retain-append (λ m. str_eq m.group_id g) sub.sent (r ∷ []),
  append-nil (sent_of g sub),
  lookup-insert str_discrete r.group_id g r.cursor sub.cursors_by_group,
)

-- A record of the group is sent, and its cursor noted, when the cursor is past the last one sent.
emit-new :
    (g : Str) (c s : ℕ) (r : GroupMessageRecord) (sub : Subscriber)
    → sub.dedup ≡ true
    → r.group_id ≡ g
    → r.cursor ≡ pos c
    → seen g sub ≡ pos s
    → s < c
    → (sent_of g (emit_if_new r sub) ≡ sent_of g sub ++ r ∷ [])
      × (seen g (emit_if_new r sub) ≡ pos c)
unfolding emit_if_new retain
emit-new g c s r sub d e n k lt = ground (
  arith,
  retain-append (λ m. str_eq m.group_id g) sub.sent (r ∷ []),
  lookup-insert str_discrete r.group_id g r.cursor sub.cursors_by_group,
)

-- Else nothing happens.
emit-stale :
    (g : Str) (c s : ℕ) (r : GroupMessageRecord) (sub : Subscriber)
    → sub.dedup ≡ true
    → r.group_id ≡ g
    → r.cursor ≡ pos c
    → seen g sub ≡ pos s
    → c ≤ s
    → emit_if_new r sub ≡ sub
unfolding emit_if_new
emit-stale g c s r sub d e n k le = ground arith

pub emit-dedup : (r : GroupMessageRecord) (sub : Subscriber) → (emit_if_new r sub).dedup ≡ sub.dedup
unfolding emit_if_new
emit-dedup r sub = ground arith

-- Handed the messages `a + 1`, `a + 2`, … of the group, among others, a subscriber whose last cursor
-- is `s`, not less than `a`, sends those after `s`, in order.
pub record Sends (g : Str) (a s : ℕ) (rs : List GroupMessageRecord) (sub sub' : Subscriber)
    : Type 0 where
  pub sent : sent_of g sub' ≡ sent_of g sub ++ drop (s - a) (of_group g rs)
  pub last : seen g sub' ≡ pos (max s (a + length (of_group g rs)))
  pub dedup : sub'.dedup ≡ true

drop-none : (k : ℕ) → drop {A = GroupMessageRecord} k [] ≡ []
drop-none zero = refl
drop-none (suc k) = refl

drop-past :
    (a s : ℕ) (r : GroupMessageRecord) (rs : List GroupMessageRecord)
    → a < s
    → drop (s - a) (r ∷ rs) ≡ drop (s - suc a) rs
drop-past a s r rs lt =
    let e : s - a ≡ suc (s - suc a) = omega arith in ap (λ (k : ℕ). drop k (r ∷ rs)) e

drop-all : (a s : ℕ) (rs : List GroupMessageRecord) → s ≤ a → drop (s - a) rs ≡ rs
drop-all a s rs le = let e : s - a ≡ 0 = omega arith in ap (λ (k : ℕ). drop k rs) e

-- The step of the induction where the record is one that was sent before.
Sends-stale :
    (g : Str) (a s : ℕ) (r : GroupMessageRecord) (rs : List GroupMessageRecord)
    (sub sub' : Subscriber)
    → of_group g (r ∷ rs) ≡ r ∷ of_group g rs
    → a < s
    → Sends g (suc a) s rs sub sub'
    → Sends g a s (r ∷ rs) sub sub'
Sends-stale g a s r rs sub sub' split lt ih = record {
  sent =
      ih.sent
      ∙ ap (◌++◌ (sent_of g sub))
          (sym (ap (drop (s - a)) split ∙ drop-past a s r (of_group g rs) lt));
  last =
      ih.last
      ∙ ap pos
          (sym (ap (λ (l : List GroupMessageRecord). max s (a + length l)) split ∙ omega arith));
  dedup = ih.dedup;
}

-- The step where it is new.
Sends-new :
    (g : Str) (a s : ℕ) (r : GroupMessageRecord) (rs : List GroupMessageRecord)
    (sub mid sub' : Subscriber)
    → of_group g (r ∷ rs) ≡ r ∷ of_group g rs
    → s ≡ a
    → sent_of g mid ≡ sent_of g sub ++ r ∷ []
    → Sends g (suc a) (suc a) rs mid sub'
    → Sends g a s (r ∷ rs) sub sub'
Sends-new g a s r rs sub mid sub' split same here ih =
    let rest = of_group g rs in
    record {
      sent =
          ih.sent
          ∙ ap (◌++◌ (sent_of g mid)) (drop-all (suc a) (suc a) rest (omega arith))
          ∙ ap (λ (l : List GroupMessageRecord). l ++ rest) here
          ∙ append_assoc (sent_of g sub) (r ∷ []) rest
          ∙ ap (◌++◌ (sent_of g sub))
              (sym (ap (drop (s - a)) split ∙ drop-all a s (r ∷ rest) (omega arith)));
      last =
          ih.last
          ∙ ap pos (
              sym (ap (λ (l : List GroupMessageRecord). max s (a + length l)) split ∙ omega arith));
      dedup = ih.dedup;
    }

-- A deduplicating subscriber that last sent cursor `s` of a group is replayed records among which those of
-- the group are numbered on from `a + 1`, with `a` up to `s`: it sends just those past `s`, in order, and its
-- cursor for the group is then the larger of `s` and the last of them.
pub replay_backlog-Sends :
    (g : Str) (a s : ℕ) (rs : List GroupMessageRecord) (sub : Subscriber)
    → sub.dedup ≡ true
    → Numbered g (suc a) (of_group g rs)
    → seen g sub ≡ pos s
    → a ≤ s
    → Sends g a s rs sub (replay_backlog rs sub)
unfolding replay_backlog retain
replay_backlog-Sends g a s [] sub d h k le = record {
  sent = sym (ap (◌++◌ (sent_of g sub)) (drop-none (s - a)) ∙ append-nil (sent_of g sub));
  last = k ∙ ap pos (omega arith);
  dedup = d;
}
replay_backlog-Sends g a s (r ∷ rs) sub d h k le = elim (str_discrete r.group_id g) [
  | yes e ↦
      let split : of_group g (r ∷ rs) ≡ r ∷ of_group g rs = ground arith in
      let h' = subst (Numbered g (suc a)) split h in
      elim (dec_lt a s) [
        | yes lt ↦
            let same = emit-stale g (suc a) s r sub d e h'.0 k lt in
            let ih = replay_backlog-Sends g (suc a) s rs sub d h'.2 k lt in
            Sends-stale g a s r rs sub (replay_backlog rs (emit_if_new r sub)) split lt (
              subst (λ (t : Subscriber). Sends g (suc a) s rs sub (replay_backlog rs t)) (sym same)
                ih)
        | no ge ↦
            let same : s ≡ a = omega arith in
            let (here, last) = emit-new g (suc a) s r sub d e h'.0 k (omega arith) in
            let ih =
              replay_backlog-Sends g (suc a) (suc a) rs (emit_if_new r sub) (emit-dedup r sub ∙ d)
                h'.2 last (omega arith) in
            Sends-new g a s r rs sub (emit_if_new r sub) (replay_backlog rs (emit_if_new r sub))
              split same here ih
      ]
  | no n ↦
      let (sent, last) = emit-other g r sub n in
      let ih =
        replay_backlog-Sends g a s rs (emit_if_new r sub) (emit-dedup r sub ∙ d) (ground arith)
          (last ∙ k) le in
      record {
        sent = ground (arith, ih.sent, sent);
        last = ground (arith, ih.last);
        dedup = ih.dedup;
      }
]
