-- ===== src/Adapter/Streaming/Finish.antt =====
-- A stream whose sink stays active.
use cordn_rs.Common.{
  List, [], ◌∷◌, ◌++◌, Bool, true, false, Str, ◌≡◌, refl, any, ap, sym, append-nil, ◌∙◌,
  append_assoc,
}
use cordn_rs.Types.{GroupMessageRecord}
use cordn_rs.Adapter.Streaming.{
  MessageSink, Turn, received, drained, slept, stream_loop, close_active, stream_messages,
}
use cordn_rs.Adapter.Streaming.Protocol.{Frame, started, wrote, closed, records, logged, written}

abbrev pub is_drained : Turn → Bool
is_drained drained = true
is_drained (received r) = false
is_drained slept = false

module _ {S : Type 0} (sink : MessageSink S) (wire : GroupMessageRecord → Str) where
  -- Neither a write nor a poll finds the stream inactive.
  abbrev pub StaysActive : Type 0
  StaysActive =
      ((msg : Str) (s : S) → (sink.write msg s).0 ≡ true) × ((s : S) → (sink.is_active s).0 ≡ true)

  stream_loop-log :
      (turns : List Turn) (log : List Frame) (s : S)
      → StaysActive
      → any is_drained turns ≡ true
      → ((stream_loop (logged sink) wire turns (log, s)).0 ≡ true)
        × ((stream_loop (logged sink) wire turns (log, s)).1.0
            ≡ log ++ written sink wire (records turns))
  unfolding stream_loop records any
  stream_loop-log [] log s h d = absurd (cc)
  stream_loop-log (drained ∷ turns) log s h d = (refl, sym (append-nil log))
  stream_loop-log (received r ∷ turns) log s h d =
      let after = log ++ wrote (wire r) ∷ [] in
      let (left, sent) = stream_loop-log turns after (sink.write (wire r) s).1 h d in
      rw (h.0 (wire r) s)
        (left, sent ∙ append_assoc log (wrote (wire r) ∷ []) (written sink wire (records turns)))
  stream_loop-log (slept ∷ turns) log s h d =
      rw (h.1 s) (stream_loop-log turns log (sink.is_active s).1 h d)

  -- If neither a write nor a poll finds the stream inactive, and the channel is closed and drained in
  -- some round, then the stream is left, and all that the sink was told is to start, every record that
  -- the channel yields before, in order, and to close.
  pub stream_messages-records :
      (turns : List Turn) (s : S)
      → StaysActive
      → any is_drained turns ≡ true
      → ((stream_messages (logged sink) wire turns ([], s)).0 ≡ true)
        × ((stream_messages (logged sink) wire turns ([], s)).1.0
            ≡ started ∷ written sink wire (records turns) ++ closed ∷ [])
  unfolding stream_messages close_active
  stream_messages-records turns s h d =
      let begun = (sink.start s).1 in
      let (left, sent) = stream_loop-log turns (started ∷ []) begun h d in
      let s' = (stream_loop (logged sink) wire turns (started ∷ [], begun)).1.1 in
      rw (left, h.1 s') (refl, ap (λ (l : List Frame). l ++ closed ∷ []) sent)
