-- ===== src/Tests/Streams.antt =====
-- The theorems on the stream of a subscription, at sinks that are simulated.
use cordn_rs.Common.{ℕ, ◌-◌, ltb, List, [], ◌∷◌, true, refl, ◌≡◌, Str, any}
use cordn_rs.Common.Int.{pos}
use cordn_rs.Types.{GroupMessageRecord}
use cordn_rs.Adapter.Streaming.{
  MessageSink, Turn, received, drained, slept, stream_loop, close_active, stream_messages,
}
use cordn_rs.Adapter.Streaming.Protocol.{
  started, wrote, closed, records, logged, IsStream, stream_messages-IsStream,
}
use cordn_rs.Adapter.Streaming.Finish.{stream_messages-records}

-- A sink that is active for a number of writes.
abbrev patient : MessageSink ℕ
patient = record {
  start = λ n. (true, n);
  write = λ msg n. (ltb 1 n, n - 1);
  is_active = λ n. (ltb 0 n, n);
  close = λ n. 0;
}

-- A sink that is always active.
abbrev steady : MessageSink (Unit {0})
steady = record {
  start = λ s. (true, s);
  write = λ msg s. (true, s);
  is_active = λ s. (true, s);
  close = λ s. s;
}

abbrev message : ℕ → GroupMessageRecord
message n = record {
  cursor = pos n;
  group_id = 1 ∷ [];
  opaque_message = n ∷ [];
  created_at = pos 0;
}

abbrev payload : GroupMessageRecord → Str
payload r = r.opaque_message

abbrev turns : List Turn
turns = received (message 1) ∷ slept ∷ received (message 2) ∷ received (message 3) ∷ drained ∷ []

-- The second write finds the stream inactive, and it is not closed again.
left_early :
    stream_messages (logged patient) payload turns ([], 2)
    ≡ (true, (started ∷ wrote (1 ∷ []) ∷ wrote (2 ∷ []) ∷ [], 0))
unfolding stream_messages stream_loop close_active
left_early = refl

stream_messages-IsStream_example :
    IsStream patient payload
      (records turns)
      (stream_messages (logged patient) payload turns ([], 2))
stream_messages-IsStream_example = stream_messages-IsStream patient payload turns 2

stream_messages-records_example :
    ((stream_messages (logged steady) payload turns ([], tt)).0 ≡ true)
    × ((stream_messages (logged steady) payload turns ([], tt)).1.0
        ≡ started ∷ wrote (1 ∷ []) ∷ wrote (2 ∷ []) ∷ wrote (3 ∷ []) ∷ closed ∷ [])
unfolding records any
stream_messages-records_example =
    stream_messages-records steady payload turns tt ((λ msg s. refl), (λ s. refl)) refl
