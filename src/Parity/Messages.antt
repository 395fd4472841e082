-- ===== src/Parity/Messages.antt =====
-- The message operations of sqlite.rs and in_memory.rs agree, while the cursors fit.
use cordn_rs.Common.{
  suc, ◌≡◌, refl, sym, ap, ◌∙◌, Option, List, [], ◌∷◌, ◌++◌, ok, Str, str_discrete, retain, length,
  length-append, map, flatten, arith, subst,
}
use cordn_rs.Common.Int.{ℤ, pos, ltb_ℤ, add_i64, add_i64-pos}
use cordn_rs.Common.Assoc.{lookup, lookup-insert, insert, Assoc}
use cordn_rs.Common.Rows.{rows_of-push}
use cordn_rs.Types.{GroupMessageRecord, AppendGroupMessageParams, FetchGroupMessagesInput}
use cordn_rs.Memory.State.{InMemoryInner}
use cordn_rs.Memory.Messages as Memory
use cordn_rs.Memory.Messages.{or_zero, numbered_as}
use cordn_rs.Memory.Messages.Numbering.{IsLogged, HasRoom, messages, append_group_message_lem}
use cordn_rs.Memory.Messages.Delivery.{fetch_group_messages-retain, fetch_many_group_messages_lem}
use cordn_rs.Sqlite.{Driver, Tables, quiet}
use cordn_rs.Sqlite.Messages as Sqlite
use cordn_rs.Sqlite.Messages.{select_after}
use cordn_rs.Sqlite.Messages.Effects.{
  group_of, select_after-log, next_unused, append_group_message_effect,
}
use cordn_rs.Parity.{HoldsLogs, Related, Same}

module _ {Value : Type 0} (text : Value → Str) where
  logged : (t : Tables) (s : InMemoryInner Value) → Related text t s → IsLogged s
  logged t s w = record { log = w.logs.log }

  append_frame :
      (p : AppendGroupMessageParams) (s : InMemoryInner Value)
      → (Memory.append_group_message p s).1
        ≡ record s { groups = (Memory.append_group_message p s).1.groups }
  unfolding Memory.append_group_message
  append_frame p s = refl

  with_logs :
      (t : Tables) (s s' : InMemoryInner Value) (rows : List GroupMessageRecord)
      (routing : Assoc Str ℤ)
      → Related text t s
      → s' ≡ record s { groups = s'.groups }
      → HoldsLogs rows routing s'.groups
      → Related text (record t { group_messages = rows; group_routing = routing }) s'
  with_logs t s s' rows routing w e h =
      subst (Related text (record t { group_messages = rows; group_routing = routing })) (sym e)
        (record { packages = w.packages; welcomes = w.welcomes; requests = w.requests; logs = h })

  pub append_group_message-Same :
      (driver : Driver Value) (p : AppendGroupMessageParams) (t : Tables) (s : InMemoryInner Value)
      → HasRoom (length (messages s p.group_id))
      → Related text t s
      → Same text (Sqlite.append_group_message driver p (quiet t)) (Memory.append_group_message p s)
  append_group_message-Same driver p t s room w =
      let g = p.group_id in
      let n = length (messages s g) in
      let m = numbered_as (pos (suc n)) p in
      let s' = (Memory.append_group_message p s).1 in
      let (answer, each, w') = append_group_message_lem p s (logged t s w) room in
      let next : add_i64 (or_zero (lookup str_discrete g t.group_routing)) (pos 1) ≡ pos (suc n) =
        ap (λ c. add_i64 c (pos 1)) (w.logs.cursor g)
        ∙ add_i64-pos n 1 (omega arith)
        ∙ ap pos (omega arith) in
      let free =
        next_unused g t.group_messages (messages s g) (w.logs.rows g) (w.logs.log g).numbered in
      rw (append_group_message_effect driver p t n next free) (record {
        answer = sym answer;
        faults = refl;
        related =
            with_logs t s s' (t.group_messages ++ m ∷ [])
              (insert str_discrete g (pos (suc n)) t.group_routing) w (append_frame p s)
              (record {
                rows = λ j.
                    ground
                      (arith, each j, rows_of-push group_of j t.group_messages m, w.logs.rows j);
                cursor = λ j. ground (
                  arith,
                  each j,
                  lookup-insert str_discrete g j (pos (suc n)) t.group_routing,
                  w.logs.cursor j,
                  length-append (messages s g) (m ∷ []),
                );
                log = w'.log;
              });
      })

  selected :
      (t : Tables) (s : InMemoryInner Value) (g : Str) (c : Option ℤ)
      → Related text t s
      → select_after g (or_zero c) t.group_messages
        ≡ retain (λ m. ltb_ℤ (or_zero c) m.cursor) (messages s g)
  selected t s g c w =
      select_after-log g (or_zero c) t.group_messages (messages s g) (w.logs.rows g)
        (w.logs.log g).numbered

  pub fetch_group_messages-Same :
      (g : Str) (c : Option ℤ) (t : Tables) (s : InMemoryInner Value)
      → Related text t s
      → Same text (Sqlite.fetch_group_messages g c (quiet t)) (Memory.fetch_group_messages g c s)
  unfolding Sqlite.fetch_group_messages
  fetch_group_messages-Same g c t s w =
      rw (fetch_group_messages-retain g c s)
        (record { answer = ap ok (selected t s g c w); faults = refl; related = w })

  selected_all :
      (gs : List FetchGroupMessagesInput) (t : Tables) (s : InMemoryInner Value)
      → Related text t s
      → map (λ f. select_after f.group_id (or_zero f.after_cursor) t.group_messages) gs
        ≡ map
            (λ f. retain (λ m. ltb_ℤ (or_zero f.after_cursor) m.cursor) (messages s f.group_id))
            gs
  selected_all [] t s w = refl
  selected_all (f ∷ gs) t s w = cc (selected t s f.group_id f.after_cursor w, selected_all gs t s w)

  pub fetch_many_group_messages-Same :
      (gs : List FetchGroupMessagesInput) (t : Tables) (s : InMemoryInner Value)
      → Related text t s
      → Same text
          (Sqlite.fetch_many_group_messages gs (quiet t))
          (Memory.fetch_many_group_messages gs s)
  unfolding Sqlite.fetch_many_group_messages flatten
  fetch_many_group_messages-Same [] t s w =
      rw (fetch_many_group_messages_lem [] s) (record { answer = refl; faults = refl; related = w })
  fetch_many_group_messages-Same (g ∷ gs) t s w =
      rw (fetch_many_group_messages_lem (g ∷ gs) s) (record {
        answer = ap (λ l. ok (flatten l)) (selected_all (g ∷ gs) t s w);
        faults = refl;
        related = w;
      })
