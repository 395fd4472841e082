-- ===== src/Memory/Messages/Delivery.antt =====
-- What a reader gets: by its cursor it resumes exactly behind the last message that it saw.
use mathlib.Core.Path.{fun_ext}
use cordn_rs.Common.{
  true, false, ℕ, zero, suc, ◌+◌, ◌<◌, ◌≡◌, refl, ap, ◌∙◌, sym, List, [], ◌∷◌, ◌++◌, map,
  append_assoc, append-nil, Str, str_eq, arith, ok, some, length, length-append, drop, retain,
  flatten, if◌then◌else◌, Option, Bool,
}
use cordn_rs.Common.Int.{ℤ, pos, ltb_ℤ}
use cordn_rs.Types.{GroupMessageRecord, AppendGroupMessageParams, FetchGroupMessagesInput}
use cordn_rs.Memory.State.{new_log, InMemoryInner}
use cordn_rs.Memory.Messages.{
  or_zero, numbered_as, append_group_message, after, fetch_loop, fetch_group_messages,
  fetch_many_group_messages,
}
use cordn_rs.Memory.Messages.Numbering.{
  Numbered, IsLogged, HasRoom, messages, append_group_message_lem,
}

-- Behind the cursor nothing is filtered, and up to it all is.
retain-later :
    (g : Str) (n k : ℕ) (ms : List GroupMessageRecord)
    → Numbered g n ms
    → k < n
    → retain (λ m. ltb_ℤ (pos k) m.cursor) ms ≡ ms
unfolding retain
retain-later g n k [] h lt = refl
retain-later g n k (m ∷ ms) h lt = ground (arith, h.0, retain-later g (suc n) k ms h.2)

retain-Numbered :
    (g : Str) (n k c : ℕ) (ms : List GroupMessageRecord)
    → Numbered g (suc n) ms
    → k ≡ n + c
    → retain (λ m. ltb_ℤ (pos k) m.cursor) ms ≡ drop c ms
unfolding retain
retain-Numbered g n k zero ms h e = retain-later g (suc n) k ms h (omega arith)
retain-Numbered g n k (suc c) [] h e = refl
retain-Numbered g n k (suc c) (m ∷ ms) h e =
    ground (arith, h.0, retain-Numbered g (suc n) k c ms h.2)

drop-append_length : (xs ys : List GroupMessageRecord) → drop (length xs) (xs ++ ys) ≡ ys
drop-append_length [] ys = refl
drop-append_length (x ∷ xs) ys = drop-append_length xs ys

module _ {Value : Type 0} where
  after-messages :
      (g : Str) (c : Option ℤ) (s : InMemoryInner Value)
      → after g c s.groups ≡ retain (λ m. ltb_ℤ (or_zero c) m.cursor) (messages s g)
  unfolding after retain new_log
  after-messages g c s = ground arith

  pub fetch_group_messages-retain :
      (g : Str) (c : Option ℤ) (s : InMemoryInner Value)
      → fetch_group_messages g c s
        ≡ (ok (retain (λ m. ltb_ℤ (or_zero c) m.cursor) (messages s g)), s)
  unfolding fetch_group_messages
  fetch_group_messages-retain g c s = ap (λ l. (ok l, s)) (after-messages g c s)

  -- A fetch after cursor `c` returns all of the group's log but its first `c` messages, in order.
  pub fetch_group_messages-drop :
      (g : Str) (c : ℕ) (s : InMemoryInner Value)
      → IsLogged s
      → (fetch_group_messages g (some (pos c)) s).0 ≡ ok (drop c (messages s g))
  unfolding fetch_group_messages
  fetch_group_messages-drop g c s w = ap ok (
      after-messages g (some (pos c)) s
      ∙ retain-Numbered g 0 c c (messages s g) (w.log g).numbered (omega arith))

  -- A run of appends, to any groups.
  unfoldable pub append_all :
      List AppendGroupMessageParams → InMemoryInner Value → InMemoryInner Value
  append_all [] s = s
  append_all (p ∷ ps) s = append_all ps (append_group_message p s).1

-- The records that appends to group `g` make, when `n` is the next cursor.
unfoldable pub records_of : Str → ℕ → List AppendGroupMessageParams → List GroupMessageRecord
records_of g n [] = []
records_of g n (p ∷ ps) =
    if str_eq p.group_id g
    then numbered_as (pos n) p ∷ records_of g (suc n) ps
    else records_of g n ps

room_after :
    (ms ms' : List GroupMessageRecord) (m : GroupMessageRecord) (b : Bool) (k : ℕ)
    → ms' ≡ (if b then ms ++ m ∷ [] else ms)
    → HasRoom (length ms + suc k)
    → HasRoom (length ms' + k)
room_after ms ms' m true k e room = ground (arith, length-append ms (m ∷ []))
room_after ms ms' m false k e room = ground arith

module _ {Value : Type 0} where
  append_all_lem :
      (ps : List AppendGroupMessageParams) (s : InMemoryInner Value)
      → IsLogged s
      → ((g : Str) → HasRoom (length (messages s g) + length ps))
      → ((g : Str)
          → messages (append_all ps s) g
            ≡ messages s g ++ records_of g (suc (length (messages s g))) ps)
        × IsLogged (append_all ps s)
  unfolding append_all records_of
  append_all_lem [] s w room = ((λ g. sym (append-nil (messages s g))), w)
  append_all_lem (p ∷ ps) s w room =
      let s' = (append_group_message p s).1 in
      let fits : HasRoom (length (messages s p.group_id)) = omega (arith, room p.group_id) in
      let (answer, each, w') = append_group_message_lem p s w fits in
      let room' = λ (g : Str).
        room_after (messages s g) (messages s' g)
          (numbered_as (pos (suc (length (messages s g)))) p) (str_eq p.group_id g) (length ps)
          (each g) (room g) in
      let (ih, w'') = append_all_lem ps s' w' room' in
      (
        (λ g. ground (
          arith,
          ih g,
          each g,
          append_assoc (messages s g) (numbered_as (pos (suc (length (messages s g)))) p ∷ [])
              (records_of g (suc (suc (length (messages s g)))) ps),
          length-append (messages s g) (numbered_as (pos (suc (length (messages s g)))) p ∷ []),
        )),
        w'',
      )

  -- A reader that has seen a group's whole log, and asks again with its last cursor after any appends
  -- to any groups, gets exactly the messages appended to its group meanwhile: in order, each once,
  -- none of another group. The logs must stay short of the end of i64.
  pub fetch_group_messages-resume :
      (ps : List AppendGroupMessageParams) (s : InMemoryInner Value) (g : Str)
      → IsLogged s
      → ((j : Str) → HasRoom (length (messages s j) + length ps))
      → (fetch_group_messages g (some (pos (length (messages s g)))) (append_all ps s)).0
        ≡ ok (records_of g (suc (length (messages s g))) ps)
  fetch_group_messages-resume ps s g w room =
      let (each, w') = append_all_lem ps s w room in
      let seen = length (messages s g) in
      let new = records_of g (suc seen) ps in
      fetch_group_messages-drop g seen (append_all ps s) w'
      ∙ ap ok (ap (drop seen) (each g) ∙ drop-append_length (messages s g) new)

  fetch_loop-flatten :
      (gs : List FetchGroupMessagesInput) (out : List GroupMessageRecord) (s : InMemoryInner Value)
      → fetch_loop gs out s
        ≡ out ++ flatten (map (λ f. after f.group_id f.after_cursor s.groups) gs)
  unfolding fetch_loop flatten
  fetch_loop-flatten [] out s = sym (append-nil out)
  fetch_loop-flatten (f ∷ gs) out s =
      let now = after f.group_id f.after_cursor s.groups in
      fetch_loop-flatten gs (out ++ now) s
      ∙ append_assoc out now (flatten (map (λ f. after f.group_id f.after_cursor s.groups) gs))

  -- The fetch over several groups is the single fetches, one after the other in the order asked, each
  -- with its own cursor.
  pub fetch_many_group_messages_lem :
      (gs : List FetchGroupMessagesInput) (s : InMemoryInner Value)
      → fetch_many_group_messages gs s ≡ (
        ok (
            flatten (
              map
                (λ f. retain (λ m. ltb_ℤ (or_zero f.after_cursor) m.cursor) (messages s f.group_id))
                gs)),
        s,
      )
  unfolding fetch_many_group_messages
  fetch_many_group_messages_lem gs s =
      ap (λ t. (ok t, s))
        (fetch_loop-flatten gs [] s
          ∙ ap (λ (h : FetchGroupMessagesInput → List GroupMessageRecord). flatten (map h gs))
              (fun_ext (λ f. after-messages f.group_id f.after_cursor s)))
