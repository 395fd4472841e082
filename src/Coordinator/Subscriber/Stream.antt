-- ===== src/Coordinator/Subscriber/Stream.antt =====
-- What a subscriber of many groups is sent from its registration on: messages that race in before the
-- backlog is fetched, messages that race in before it is replayed, and the live ones.
use cordn_rs.Common.{
  if◌then◌else◌, ℕ, suc, ◌+◌, ◌-◌, ◌≡◌, refl, ap, sym, ◌∙◌, arith, List, [], ◌∷◌, ◌++◌, Bool, true,
  false, length, drop, length-append, retain-append, append-nil, append_assoc, Str, str_eq,
}
use cordn_rs.Common.Int.{pos}
use cordn_rs.Types.{GroupMessageRecord}
use cordn_rs.Memory.Messages.Numbering.{Numbered}
use cordn_rs.Coordinator.Subscriber.{
  Subscriber, push, emit_if_new, replay_backlog, finish_buffering,
}
use cordn_rs.Coordinator.Subscriber.Dedup.{of_group, sent_of, seen, replay_backlog-Sends}

-- The pushes of the records of a run of posts.
unfoldable pub push_all : List GroupMessageRecord → Subscriber → Subscriber
push_all [] sub = sub
push_all (r ∷ rs) sub = push_all rs (push r sub)

-- A subscriber between its registration and the replay of its backlog.
abbrev pub waiting : Subscriber → List GroupMessageRecord → Subscriber
waiting sub buffer = record sub { buffering = true; buffer = buffer }

push_all-waiting :
    (rs buffer : List GroupMessageRecord) (sub : Subscriber)
    → push_all rs (waiting sub buffer) ≡ waiting sub (buffer ++ rs)
unfolding push_all push
push_all-waiting [] buffer sub = ap (waiting sub) (sym (append-nil buffer))
push_all-waiting (r ∷ rs) buffer sub =
    push_all-waiting rs (buffer ++ r ∷ []) sub ∙ ap (waiting sub) (append_assoc buffer (r ∷ []) rs)

emit-buffer :
    (r : GroupMessageRecord) (sub : Subscriber)
    → ((emit_if_new r sub).buffering ≡ sub.buffering) × ((emit_if_new r sub).buffer ≡ sub.buffer)
unfolding emit_if_new
emit-buffer r sub = ground arith

replay-buffer :
    (rs : List GroupMessageRecord) (sub : Subscriber)
    → ((replay_backlog rs sub).buffering ≡ sub.buffering)
      × ((replay_backlog rs sub).buffer ≡ sub.buffer)
unfolding replay_backlog
replay-buffer [] sub = (refl, refl)
replay-buffer (r ∷ rs) sub =
    let (b, l) = emit-buffer r sub in
    let (b', l') = replay-buffer rs (emit_if_new r sub) in (b' ∙ b, l' ∙ l)

push-live :
    (r : GroupMessageRecord) (sub : Subscriber)
    → sub.buffering ≡ false
    → push r sub ≡ emit_if_new r sub
unfolding push
push-live r sub h =
    ap (λ (b : Bool). if b then record sub { buffer = sub.buffer ++ r ∷ [] } else emit_if_new r sub)
      h

-- Once it does not buffer, a push sends.
push_all-live :
    (rs : List GroupMessageRecord) (sub : Subscriber)
    → sub.buffering ≡ false
    → push_all rs sub ≡ replay_backlog rs sub
unfolding push_all replay_backlog
push_all-live [] sub h = refl
push_all-live (r ∷ rs) sub h =
    ap (push_all rs) (push-live r sub h)
    ∙ push_all-live rs (emit_if_new r sub) ((emit-buffer r sub).0 ∙ h)

-- The whole of a subscription: early messages, the backlog, late ones, and live ones.
abbrev pub stream :
    List GroupMessageRecord
    → List GroupMessageRecord
    → List GroupMessageRecord
    → List GroupMessageRecord
    → Subscriber
    → Subscriber
stream early backlog late live sub =
    push_all live (finish_buffering (replay_backlog backlog (push_all late (push_all early sub))))

drop-length_append : {A : Type 0} (xs ys : List A) → drop (length xs) (xs ++ ys) ≡ ys
drop-length_append [] ys = refl
drop-length_append (x ∷ xs) ys = drop-length_append xs ys

drop_self : {A : Type 0} (a : ℕ) (xs : List A) → drop (a - a) xs ≡ xs
drop_self a xs = ap (λ n. drop n xs) nothing
  where
    nothing : a - a ≡ 0
    nothing = omega arith

drop-raced : {A : Type 0} (n : ℕ) (xs ys : List A) → drop (n + length xs - n) (xs ++ ys) ≡ ys
drop-raced n xs ys = ap (λ k. drop k (xs ++ ys)) known ∙ drop-length_append xs ys
  where
    known : n + length xs - n ≡ length xs
    known = omega arith

-- The subscriber when its backlog is replayed, and what the two replays are of.
stream-replays :
    (early backlog late live : List GroupMessageRecord) (sub : Subscriber)
    → stream early backlog late live (waiting sub []) ≡ (
        let filled = replay_backlog backlog (waiting sub (early ++ late)) in
        replay_backlog live
          (replay_backlog (early ++ late) (record filled { buffering = false; buffer = [] })))
unfolding finish_buffering
stream-replays early backlog late live sub =
    let buffered =
      ap (push_all late) (push_all-waiting early [] sub) ∙ push_all-waiting late early sub in
    let filled = replay_backlog backlog (waiting sub (early ++ late)) in
    let kept = (replay-buffer backlog (waiting sub (early ++ late))).1 in
    let opened = record filled { buffering = false; buffer = [] } in
    let calm = (replay-buffer (early ++ late) opened).0 in
    ap (λ (q : Subscriber). push_all live (finish_buffering (replay_backlog backlog q))) buffered
    ∙ ap (λ (b : List GroupMessageRecord). push_all live (replay_backlog b opened)) kept
    ∙ push_all-live live (replay_backlog (early ++ late) opened) calm

-- The numbers of a group: `c` before the first asked for, `n` posted before the registration.
abbrev pub Posted :
    Str
    → ℕ
    → ℕ
    → List GroupMessageRecord
    → List GroupMessageRecord
    → List GroupMessageRecord
    → List GroupMessageRecord
    → Type 0
Posted g c n early backlog late live =
    Numbered g (suc c) (of_group g backlog)
    × (c + length (of_group g backlog) ≡ n + length (of_group g early))
    × Numbered g (suc n) (of_group g (early ++ late))
    × Numbered g (suc (n + length (of_group g (early ++ late)))) (of_group g live)

-- A deduplicating subscriber that asked for a group after cursor `c`, when `n` messages of it were posted,
-- waits with an empty buffer. The early, the late and the live messages of the group are published in the
-- order of their cursors without a gap, and the backlog is the group's messages from `c + 1` to the last
-- early one; messages of other groups come in between. Then it sends the backlog, the late messages and
-- the live ones, each once and in order: the messages that raced in before the fetch are not sent again.
pub sent_of-stream :
    (g : Str) (c n : ℕ) (early backlog late live : List GroupMessageRecord) (sub : Subscriber)
    → sub.dedup ≡ true
    → seen g sub ≡ pos c
    → Posted g c n early backlog late live
    → sent_of g (stream early backlog late live (waiting sub []))
      ≡ sent_of g sub ++ of_group g backlog ++ of_group g late ++ of_group g live
sent_of-stream g c n early backlog late live sub d k (numbered, whole, raced, after) =
    let begun = waiting sub (early ++ late) in
    let filled = replay_backlog backlog begun in
    let opened = record filled { buffering = false; buffer = [] } in
    let first = replay_backlog-Sends g c c backlog begun d numbered k (omega arith) in
    let F = n + length (of_group g early) in
    let seen1 : seen g filled ≡ pos F = first.last ∙ ap pos (omega (arith, whole)) in
    let second =
      replay_backlog-Sends g n F (early ++ late) opened first.dedup raced seen1 (omega arith) in
    let L = n + length (of_group g (early ++ late)) in
    let split = retain-append (λ r. str_eq r.group_id g) early late in
    let len =
      ap (λ (rs : List GroupMessageRecord). length rs) split
      ∙ length-append (of_group g early) (of_group g late) in
    let seen2 : seen g (replay_backlog (early ++ late) opened) ≡ pos L =
      second.last ∙ ap pos (omega (arith, len)) in
    let third =
      replay_backlog-Sends g L L live (replay_backlog (early ++ late) opened) second.dedup after
        seen2 (omega arith) in
    let sent1 = first.sent ∙ ap (◌++◌ (sent_of g sub)) (drop_self c (of_group g backlog)) in
    let sent2 =
      second.sent
      ∙ ap (◌++◌ (sent_of g filled))
          (ap (drop (F - n)) split ∙ drop-raced n (of_group g early) (of_group g late)) in
    let sent3 =
      third.sent
      ∙ ap (◌++◌ (sent_of g (replay_backlog (early ++ late) opened)))
          (drop_self L (of_group g live)) in
    ap (sent_of g) (stream-replays early backlog late live sub)
    ∙ sent3
    ∙ ap (λ (rs : List GroupMessageRecord). rs ++ of_group g live)
        (sent2 ∙ ap (λ (rs : List GroupMessageRecord). rs ++ of_group g late) sent1)
