-- ===== src/Memory/Messages/Numbering.antt =====
-- Cursors: each group's log is numbered 1, 2, 3, …, whatever happens to the other groups.
use cordn_rs.Common.{
  ℕ, suc, ◌+◌, ◌<◌, ◌^◌, ◌≡◌, refl, List, [], ◌∷◌, ◌++◌, Str, str_eq, str_discrete, arith, ok,
  length, length-append, if◌then◌else◌, subst, ◌∙◌, sym, ap,
}
use cordn_rs.Common.Int.{pos, add_i64-pos}
use cordn_rs.Common.Assoc.{lookup, lookup-upsert}
use cordn_rs.Types.{GroupMessageRecord, AppendGroupMessageParams}
use cordn_rs.Memory.State.{GroupLog, new_log, InMemoryInner, new_inner}
use cordn_rs.Memory.Messages.{or_new_log, numbered_as, appended, append_group_message}

-- The cursors are n, n + 1, …, and the messages are the group's.
abbrev pub Numbered : Str → ℕ → List GroupMessageRecord → Type 0
Numbered g n [] = Unit
Numbered g n (m ∷ ms) = (m.cursor ≡ pos n) × (m.group_id ≡ g) × Numbered g (suc n) ms

pub record IsLog (g : Str) (log : GroupLog) : Type 0 where
  pub next : log.next_cursor ≡ pos (suc (length log.messages))
  pub numbered : Numbered g 1 log.messages

Numbered-append :
    (g : Str) (n : ℕ) (ms : List GroupMessageRecord) (m : GroupMessageRecord)
    → Numbered g n ms
    → m.cursor ≡ pos (n + length ms)
    → m.group_id ≡ g
    → Numbered g n (ms ++ m ∷ [])
Numbered-append g n [] m h c e = ground arith
Numbered-append g n (x ∷ ms) m h c e =
    (h.0, h.1, Numbered-append g (suc n) ms m h.2 (ground arith) e)

-- The next cursor fits, and the one after it.
abbrev pub HasRoom : ℕ → Type 0
HasRoom n = n + 2 < 2 ^ 63

pub new_log-IsLog : (g : Str) → IsLog g new_log
unfolding new_log
new_log-IsLog g = record { next = refl; numbered = tt }

appended-IsLog :
    (p : AppendGroupMessageParams) (log : GroupLog)
    → IsLog p.group_id log
    → HasRoom (length log.messages)
    → IsLog p.group_id (appended p log)
appended-IsLog p log h room = record {
  next = ground (
    arith,
    h.next,
    add_i64-pos (suc (length log.messages)) 1,
    length-append log.messages (numbered_as log.next_cursor p ∷ []),
  );
  numbered =
      Numbered-append p.group_id 1 log.messages (numbered_as log.next_cursor p) h.numbered
        (ground (arith, h.next)) refl;
}

module _ {Value : Type 0} where
  abbrev pub log_of : InMemoryInner Value → Str → GroupLog
  log_of s g = or_new_log (lookup str_discrete g s.groups)

  abbrev pub messages : InMemoryInner Value → Str → List GroupMessageRecord
  messages s g = (log_of s g).messages

  pub record IsLogged (s : InMemoryInner Value) : Type 0 where
    pub log : (g : Str) → IsLog g (log_of s g)

  new_inner-IsLogged : IsLogged (new_inner Value)
  unfolding new_inner lookup
  new_inner-IsLogged = record { log = new_log-IsLog }

  log_of-append :
      (p : AppendGroupMessageParams) (s : InMemoryInner Value) (j : Str)
      → log_of (append_group_message p s).1 j
        ≡ (if str_eq p.group_id j then appended p (log_of s p.group_id) else log_of s j)
  unfolding append_group_message
  log_of-append p s j =
      ground (arith, lookup-upsert str_discrete p.group_id j new_log (appended p) s.groups)

  answer :
      (p : AppendGroupMessageParams) (s : InMemoryInner Value)
      → (append_group_message p s).0 ≡ ok (numbered_as (log_of s p.group_id).next_cursor p)
  unfolding append_group_message
  answer p s = refl

  logged :
      (p : AppendGroupMessageParams) (s : InMemoryInner Value)
      → IsLogged s
      → HasRoom (length (messages s p.group_id))
      → (j : Str) → IsLog j (log_of (append_group_message p s).1 j)
  logged p s w room j = elim (str_discrete p.group_id j) [
    | yes e ↦
        let here : log_of (append_group_message p s).1 j ≡ appended p (log_of s p.group_id) =
          ground (arith, log_of-append p s j) in
        subst (IsLog j) (sym here) (
          subst (λ (g : Str). IsLog g (appended p (log_of s p.group_id))) e
            (appended-IsLog p (log_of s p.group_id) (w.log p.group_id) room))
    | no n ↦
        let here : log_of (append_group_message p s).1 j ≡ log_of s j =
          ground (arith, log_of-append p s j) in
        subst (IsLog j) (sym here) (w.log j)
  ]

  -- An append gives the message the next cursor of its group, adds it at the end of the group's log,
  -- changes no other log, and keeps every log numbered; the cursor must not reach the end of i64.
  pub append_group_message_lem :
      (p : AppendGroupMessageParams) (s : InMemoryInner Value)
      → IsLogged s
      → HasRoom (length (messages s p.group_id))
      → ((append_group_message p s).0
          ≡ ok (numbered_as (pos (suc (length (messages s p.group_id)))) p))
        × ((j : Str)
            → messages (append_group_message p s).1 j ≡ (
                if str_eq p.group_id j
                then messages s j ++ numbered_as (pos (suc (length (messages s j)))) p ∷ []
                else messages s j))
        × IsLogged (append_group_message p s).1
  append_group_message_lem p s w room =
      let next = (w.log p.group_id).next in
      (
        answer p s ∙ ap (λ c. ok (numbered_as c p)) next,
        (λ j. ground (arith, log_of-append p s j, next)),
        record { log = λ j. logged p s w room j },
      )
