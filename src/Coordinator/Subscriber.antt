-- ===== src/Coordinator/Subscriber.antt =====
-- `struct Subscriber`. Its channel is tokio's: what the coordinator does to it is to send, so the
-- sender is the list of the records that it was handed, in order.
pub mod Dedup
pub mod Stream
pub mod Late
use cordn_rs.Common.{
  Option, none, some, List, [], ◌∷◌, ◌++◌, Bool, true, false, Str, str_discrete, if◌then◌else◌,
}
use cordn_rs.Common.Int.{ℤ, pos, ltb_ℤ}
use cordn_rs.Common.Assoc.{Assoc, lookup, insert}
use cordn_rs.Types.{GroupMessageRecord}

pub record Subscriber : Type 0 where
  pub sent : List GroupMessageRecord
  pub dedup : Bool
  pub cursors_by_group : Assoc Str ℤ
  pub buffering : Bool
  pub buffer : List GroupMessageRecord

-- `copied().unwrap_or(0)`
abbrev pub or_zero : Option ℤ → ℤ
or_zero none = pos 0
or_zero (some c) = c

unfoldable pub emit_if_new : GroupMessageRecord → Subscriber → Subscriber
emit_if_new r sub =
    if sub.dedup
    then (let last = or_zero (lookup str_discrete r.group_id sub.cursors_by_group) in
        if ltb_ℤ last r.cursor
        then record sub {
          cursors_by_group = insert str_discrete r.group_id r.cursor sub.cursors_by_group;
          sent = sub.sent ++ r ∷ [];
        }
        else sub)
    else record sub { sent = sub.sent ++ r ∷ [] }

unfoldable pub push : GroupMessageRecord → Subscriber → Subscriber
unfolding emit_if_new
push r sub =
    if sub.buffering then record sub { buffer = sub.buffer ++ r ∷ [] } else emit_if_new r sub

unfoldable pub replay_backlog : List GroupMessageRecord → Subscriber → Subscriber
replay_backlog [] sub = sub
replay_backlog (r ∷ rs) sub = replay_backlog rs (emit_if_new r sub)

-- The loop over the buffered records is that of `replay_backlog`.
unfoldable pub finish_buffering : Subscriber → Subscriber
finish_buffering sub = replay_backlog sub.buffer (record sub { buffering = false; buffer = [] })
