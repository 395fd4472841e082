-- ===== src/Sqlite/Messages/Effects.antt =====
-- What the message operations do to the tables and answer, while the driver does not fail.
use cordn_rs.Common.{
  ℕ, suc, ◌+◌, ◌≤◌, ◌≡◌, refl, ap, Bool, false, ◌&&◌, List, [], ◌∷◌, ◌++◌, ok, Str, str_discrete,
  any, retain, length, All, All-retain, sym, subst, ◌∙◌, arith,
}
use cordn_rs.Common.Int.{ℤ, pos, ◌≤ℤ◌, leb_ℤ, int_eq, add_i64, ltb_ℤ}
use cordn_rs.Common.Assoc.{lookup, insert}
use cordn_rs.Common.Rows.{rows_of}
use cordn_rs.Types.{GroupMessageRecord, AppendGroupMessageParams}
use cordn_rs.Memory.Messages.{or_zero, numbered_as}
use cordn_rs.Memory.Messages.Numbering.{Numbered}
use cordn_rs.Sqlite.{Driver, Tables, quiet, transaction}
use cordn_rs.Sqlite.Messages.{is_in, place, order_by_cursor, append_group_message, select_after}

abbrev pub group_of : GroupMessageRecord → Str
group_of m = m.group_id

-- In the order of their cursors already.
abbrev IsAbove : ℤ → GroupMessageRecord → Type 0
IsAbove c m = c ≤ℤ m.cursor

abbrev Rising : List GroupMessageRecord → Type 0
Rising [] = Unit
Rising (m ∷ ms) = All (IsAbove m.cursor) ms × Rising ms

place-Rising :
    (m : GroupMessageRecord) (ms : List GroupMessageRecord)
    → All (IsAbove m.cursor) ms
    → place m ms ≡ m ∷ ms
unfolding place
place-Rising m [] h = refl
place-Rising m (x ∷ ms) h = ground (arith, h.0)

order-Rising : (ms : List GroupMessageRecord) → Rising ms → order_by_cursor ms ≡ ms
unfolding order_by_cursor
order-Rising [] h = refl
order-Rising (m ∷ ms) h = rw (order-Rising ms h.1) (place-Rising m ms h.0)

retain-Rising :
    (p : GroupMessageRecord → Bool) (ms : List GroupMessageRecord)
    → Rising ms
    → Rising (retain p ms)
unfolding retain
retain-Rising p [] h = tt
retain-Rising p (m ∷ ms) h =
    ground (arith, retain-Rising p ms h.1, All-retain (IsAbove m.cursor) p ms h.0)

Numbered-IsAbove :
    (g : Str) (k n : ℕ) (ms : List GroupMessageRecord)
    → Numbered g n ms
    → k ≤ n
    → All (IsAbove (pos k)) ms
Numbered-IsAbove g k n [] h le = tt
Numbered-IsAbove g k n (m ∷ ms) h le =
    (ground (arith, h.0), Numbered-IsAbove g k (suc n) ms h.2 (omega arith))

Numbered-Rising : (g : Str) (n : ℕ) (ms : List GroupMessageRecord) → Numbered g n ms → Rising ms
Numbered-Rising g n [] h = tt
Numbered-Rising g n (m ∷ ms) h = (
  subst (λ c. All (IsAbove c) ms) (sym h.0) (Numbered-IsAbove g n (suc n) ms h.2 (omega arith)),
  Numbered-Rising g (suc n) ms h.2,
)

retain-both :
    (g : Str) (q : GroupMessageRecord → Bool) (rows : List GroupMessageRecord)
    → retain (λ row. is_in g row && q row) rows ≡ retain q (rows_of group_of g rows)
unfolding retain
retain-both g q [] = refl
retain-both g q (r ∷ rows) = ground (arith, retain-both g q rows)

-- The query over a log that is numbered selects from it in the order that it has.
pub select_after-log :
    (g : Str) (c : ℤ) (rows ms : List GroupMessageRecord)
    → rows_of group_of g rows ≡ ms
    → Numbered g 1 ms
    → select_after g c rows ≡ retain (λ m. ltb_ℤ c m.cursor) ms
select_after-log g c rows ms e h =
    let later = λ (m : GroupMessageRecord). ltb_ℤ c m.cursor in
    ap order_by_cursor (retain-both g later rows ∙ ap (retain later) e)
    ∙ order-Rising (retain later ms) (retain-Rising later ms (Numbered-Rising g 1 ms h))

any-both :
    (g : Str) (q : GroupMessageRecord → Bool) (rows : List GroupMessageRecord)
    → any (λ row. is_in g row && q row) rows ≡ any q (rows_of group_of g rows)
unfolding any retain
any-both g q [] = refl
any-both g q (r ∷ rows) = ground (arith, any-both g q rows)

unused :
    (g : Str) (n k : ℕ) (ms : List GroupMessageRecord)
    → Numbered g n ms
    → n + length ms ≤ k
    → any (λ row. int_eq row.cursor (pos k)) ms ≡ false
unfolding any
unused g n k [] h le = refl
unused g n k (m ∷ ms) h le = ground (arith, h.0, unused g (suc n) k ms h.2)

-- Behind a numbered log the next cursor is free.
pub next_unused :
    (g : Str) (rows ms : List GroupMessageRecord)
    → rows_of group_of g rows ≡ ms
    → Numbered g 1 ms
    → any (λ row. is_in g row && int_eq row.cursor (pos (suc (length ms)))) rows ≡ false
next_unused g rows ms e h =
    any-both g (λ row. int_eq row.cursor (pos (suc (length ms)))) rows
    ∙ ap (any (λ row. int_eq row.cursor (pos (suc (length ms))))) e
    ∙ unused g 1 (suc (length ms)) ms h (omega arith)

module _ {Value : Type 0} (driver : Driver Value) where
  pub append_group_message_effect :
      (p : AppendGroupMessageParams) (t : Tables) (n : ℕ)
      → add_i64 (or_zero (lookup str_discrete p.group_id t.group_routing)) (pos 1) ≡ pos (suc n)
      → any (λ row. is_in p.group_id row && int_eq row.cursor (pos (suc n))) t.group_messages
        ≡ false
      → append_group_message driver p (quiet t) ≡ (
        ok (numbered_as (pos (suc n)) p),
        quiet (record t {
          group_messages = t.group_messages ++ numbered_as (pos (suc n)) p ∷ [];
          group_routing = insert str_discrete p.group_id (pos (suc n)) t.group_routing;
        }),
      )
  unfolding append_group_message transaction
  append_group_message_effect p t n h free =
      let positive : leb_ℤ (pos (suc n)) (pos 0) ≡ false = ground arith in
      rw (h, positive, free) refl
