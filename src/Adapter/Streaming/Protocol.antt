-- ===== src/Adapter/Streaming/Protocol.antt =====
-- What a sink is told in the course of one stream.
use cordn_rs.Common.{
  List, [], ◌∷◌, ◌++◌, map, Bool, true, false, Str, ◌≡◌, refl, if◌then◌else◌, ◌⊎◌, sym, ap,
  append-nil, ◌∙◌, inl, append_assoc, inr,
}
use cordn_rs.Types.{GroupMessageRecord}
use cordn_rs.Adapter.Streaming.{
  MessageSink, Turn, received, drained, slept, stream_loop, stream_messages,
}

pub data Frame : Type 0 where
  started : Frame
  wrote : Str → Frame
  closed : Frame

-- The records that the channel yields before it is drained.
unfoldable pub records : List Turn → List GroupMessageRecord
records [] = []
records (drained ∷ turns) = []
records (received r ∷ turns) = r ∷ records turns
records (slept ∷ turns) = records turns

abbrev pub note : {S : Type 0} → List Frame → Frame → Bool × S → Bool × (List Frame × S)
note log frame (active, s) = (active, (log ++ frame ∷ [], s))

-- A sink that notes what it is told.
abbrev pub logged : {S : Type 0} → MessageSink S → MessageSink (List Frame × S)
logged sink = record {
  start = λ (log, s). note log started (sink.start s);
  write = λ msg (log, s). note log (wrote msg) (sink.write msg s);
  is_active = λ (log, s). let (active, s') = sink.is_active s in (active, (log, s'));
  close = λ (log, s). (log ++ closed ∷ [], sink.close s);
}

module _ {S : Type 0} (sink : MessageSink S) (wire : GroupMessageRecord → Str) where
  abbrev pub written : List GroupMessageRecord → List Frame
  written rs = map (λ r. wrote (wire r)) rs

  -- The loop writes a part of the records, from the first on, and all of them unless it is left.
  record Writes (rs : List GroupMessageRecord) (before : List Frame) (out : Bool × (List Frame × S))
      : Type 0 where
    sent : List GroupMessageRecord
    rest : List GroupMessageRecord
    whole : sent ++ rest ≡ rs
    log : out.1.0 ≡ before ++ written sent
    left : (out.0 ≡ true) ⊎ ((out.0 ≡ false) × (rest ≡ []))

  nothing_written :
      (rs : List GroupMessageRecord) (before : List Frame) (s : S)
      → Writes rs before (true, (before, s))
  nothing_written rs before s = record {
    sent = [];
    rest = rs;
    whole = refl;
    log = sym (append-nil before);
    left = inl refl;
  }

  one_written :
      (r : GroupMessageRecord) (rs : List GroupMessageRecord) (before : List Frame)
      (out : Bool × (List Frame × S))
      → Writes rs (before ++ wrote (wire r) ∷ []) out
      → Writes (r ∷ rs) before out
  one_written r rs before out w = record {
    sent = r ∷ w.sent;
    rest = w.rest;
    whole = ap (◌∷◌ r) w.whole;
    log = w.log ∙ append_assoc before (wrote (wire r) ∷ []) (written w.sent);
    left = w.left;
  }

  if_active-Writes :
      (active : Bool) (rs : List GroupMessageRecord) (before : List Frame) (s : S)
      (rest : Bool × (List Frame × S))
      → Writes rs before rest
      → Writes rs before (if active then rest else (true, (before, s)))
  if_active-Writes true rs before s rest w = w
  if_active-Writes false rs before s rest w = nothing_written rs before s

  stream_loop-Writes :
      (turns : List Turn) (log : List Frame) (s : S)
      → Writes (records turns) log (stream_loop (logged sink) wire turns (log, s))
  unfolding stream_loop records
  stream_loop-Writes [] log s = record {
    sent = [];
    rest = [];
    whole = refl;
    log = sym (append-nil log);
    left = inr (refl, refl);
  }
  stream_loop-Writes (drained ∷ turns) log s = nothing_written [] log s
  stream_loop-Writes (received r ∷ turns) log s =
      let (active, s') = sink.write (wire r) s in
      let after = log ++ wrote (wire r) ∷ [] in
      one_written r (records turns) log _
        (if_active-Writes active (records turns) after s' _ (stream_loop-Writes turns after s'))
  stream_loop-Writes (slept ∷ turns) log s =
      let (active, s') = sink.is_active s in
      if_active-Writes active (records turns) log s' _ (stream_loop-Writes turns log s')

  -- What was told to a sink in one stream: a start; a part of the records, from the first on, each once
  -- and in order; and at most one close, after them. A stream that is not left has written all of them.
  pub record IsStream (rs : List GroupMessageRecord) (out : Bool × (List Frame × S)) : Type 0 where
    pub sent : List GroupMessageRecord
    pub rest : List GroupMessageRecord
    pub ending : List Frame
    pub whole : sent ++ rest ≡ rs
    pub log : out.1.0 ≡ started ∷ written sent ++ ending
    pub ends : (ending ≡ []) ⊎ (ending ≡ closed ∷ [])
    pub left : (out.0 ≡ true) ⊎ ((out.0 ≡ false) × (rest ≡ []) × (ending ≡ []))

  leave :
      (rs : List GroupMessageRecord) (left active : Bool) (log : List Frame) (s s' s'' : S)
      → Writes rs (started ∷ []) (left, (log, s))
      → IsStream rs (
          if left
          then (true, if active then (log ++ closed ∷ [], s') else (log, s''))
          else (false, (log, s)))
  leave rs true true log s s' s'' w = record {
    sent = w.sent;
    rest = w.rest;
    ending = closed ∷ [];
    whole = w.whole;
    log = ap (λ (l : List Frame). l ++ closed ∷ []) w.log;
    ends = inr refl;
    left = inl refl;
  }
  leave rs true false log s s' s'' w = record {
    sent = w.sent;
    rest = w.rest;
    ending = [];
    whole = w.whole;
    log = w.log ∙ ap (◌∷◌ started) (sym (append-nil (written w.sent)));
    ends = inl refl;
    left = inl refl;
  }
  leave rs false active log s s' s'' w = record {
    sent = w.sent;
    rest = w.rest;
    ending = [];
    whole = w.whole;
    log = w.log ∙ ap (◌∷◌ started) (sym (append-nil (written w.sent)));
    ends = inl refl;
    left = elim w.left [ inl e ↦ inl e | inr (e, none_left) ↦ inr (e, none_left, refl) ];
  }

  -- Whatever the sink answers and the select comes to: the sink is told to start, then it is told a part
  -- of the records that the channel yields, from the first on, each once and in order, and at most one
  -- close, after them; as long as the stream is not left, every record was written and none was closed.
  pub stream_messages-IsStream :
      (turns : List Turn) (s : S)
      → IsStream (records turns) (stream_messages (logged sink) wire turns ([], s))
  unfolding stream_messages
  stream_messages-IsStream turns s =
      let begun = (sink.start s).1 in
      let out = stream_loop (logged sink) wire turns (started ∷ [], begun) in
      let (active, s') = sink.is_active out.1.1 in
      leave (records turns) out.0 active out.1.0 out.1.1 (sink.close s') s'
        (stream_loop-Writes turns (started ∷ []) begun)
