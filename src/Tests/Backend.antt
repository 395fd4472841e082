-- ===== src/Tests/Backend.antt =====
-- The theorems on the in-memory backend and on the subscriber, at concrete states.
use cordn_rs.Common.{
  ℕ, ◌≡◌, refl, arith, List, [], ◌∷◌, true, false, none, some, Str, str_discrete, ok, retain,
  flatten, map, length, find, count_if, suc, ◌+◌, ◌<◌, ◌^◌, ◌++◌, any,
}
use cordn_rs.Common.Int.{pos, ltb_ℤ, ℤ_discrete}
use cordn_rs.Common.Assoc.{lookup}
use cordn_rs.Types.{
  GroupMessageRecord, ConsumedWelcomeRef, ConsumedJoinRequestRef, ConsumedJoinRequestWithGroupRef,
  FetchGroupMessagesInput,
}
use cordn_rs.Types.Partition.{refs_of}
use cordn_rs.Memory.State.{new_inner, new_log}
use cordn_rs.Memory.KeyPackages
use cordn_rs.Memory.KeyPackages.Filing.{IsWellFiled}
use cordn_rs.Memory.KeyPackages.Refinement.{stored, remove_key_package_lem}
use cordn_rs.Memory.KeyPackages.Consume.{due, consume_key_package_lem, publish_key_package_lem}
use cordn_rs.Memory.Welcomes
use cordn_rs.Memory.Welcomes.Laws.{fetch_pending_welcomes_lem, delete_expired_welcomes_lem}
use cordn_rs.Memory.JoinRequests
use cordn_rs.Memory.JoinRequests.Laws.{pending, fetch_pending_join_requests_lem}
use cordn_rs.Memory.JoinRequests.Laws as JoinRequestLaws
use cordn_rs.Memory.JoinRequests.Admission.{admitted, store_join_request_lem}
use cordn_rs.Memory.JoinRequests.Bounds.{IsBounded, store_join_request-IsBounded}
use cordn_rs.Memory.JoinRequests.Many.{fetch_many_pending_join_requests_lem}
use cordn_rs.Memory.Messages.{
  append_group_message, fetch_group_messages, fetch_many_group_messages, or_zero, numbered_as,
}
use cordn_rs.Memory.Messages.Numbering.{IsLogged, messages, append_group_message_lem}
use cordn_rs.Memory.Messages.Delivery.{
  append_all, records_of, fetch_group_messages-resume, fetch_many_group_messages_lem,
}
use cordn_rs.Coordinator.Subscriber.Late.{emit_if_new-late}
use cordn_rs.Coordinator.Subscriber.{emit_if_new, Subscriber, replay_backlog}
use cordn_rs.Coordinator.Subscriber.Stream.{stream, waiting, sent_of-stream}
use cordn_rs.Coordinator.Subscriber.Dedup.{sent_of, Sends, replay_backlog-Sends, of_group}
use cordn_rs.Tests.{alice, bob, room, kp, first_ref, request, packages, post, JoinRequestRecord}

packages-IsWellFiled : IsWellFiled packages.key_packages_by_identity
packages-IsWellFiled = ((tt, tt), (refl, (refl, (refl, tt)), tt))

remove_key_package_example :
    (KeyPackages.remove_key_package first_ref packages).0
    ≡ ok (find (KeyPackages.has_ref first_ref) (stored packages))
remove_key_package_example = (remove_key_package_lem first_ref packages packages-IsWellFiled).0

consume_key_package_example :
    (KeyPackages.consume_key_package alice packages).0 ≡ ok (due alice packages)
consume_key_package_example = (consume_key_package_lem alice packages packages-IsWellFiled).0

publish_key_package_example :
    (KeyPackages.publish_key_package (kp first_ref false) packages).0 ≡ ok (kp first_ref false)
publish_key_package_example =
    (publish_key_package_lem (kp first_ref false) packages packages-IsWellFiled).0

-- The reference of the one welcome of alice.
abbrev consumed_welcome : List ConsumedWelcomeRef
consumed_welcome = record { key_package_reference = first_ref; created_at = pos 7 } ∷ []

fetch_pending_welcomes_example :
    (Welcomes.fetch_pending_welcomes alice consumed_welcome packages).0 ≡ ok []
unfolding retain any lookup str_discrete ℤ_discrete
fetch_pending_welcomes_example =
    (fetch_pending_welcomes_lem alice consumed_welcome packages (tt, tt)).0

delete_expired_welcomes_example :
    (n : ℕ) × ((Welcomes.delete_expired_welcomes (pos 8) packages).0 ≡ ok n)
delete_expired_welcomes_example = (
  (delete_expired_welcomes_lem (pos 8) packages (tt, tt)).0,
  (delete_expired_welcomes_lem (pos 8) packages (tt, tt)).1,
)

-- Bob asks again, later and with another key package.
abbrev again : JoinRequestRecord
again = record request { key_package_ref = first_ref; created_at = pos 9 }

store_join_request_example :
    ((JoinRequests.store_join_request again packages).0 ≡ ok again)
    × (pending (JoinRequests.store_join_request again packages).1 room ≡ again ∷ [])
unfolding admitted lookup str_discrete
store_join_request_example = (
  (store_join_request_lem again packages (tt, tt)).0,
  (store_join_request_lem again packages (tt, tt)).1 room,
)

new_inner-IsBounded : IsBounded (new_inner ℕ)
unfolding new_inner lookup count_if
new_inner-IsBounded = record { queue = tt; capped = λ g. omega arith; single = λ g q. omega arith }

store_join_request-IsBounded_example :
    IsBounded (JoinRequests.store_join_request request (new_inner ℕ)).1
store_join_request-IsBounded_example =
    store_join_request-IsBounded request (new_inner ℕ) new_inner-IsBounded

one_waiting : IsBounded (JoinRequests.store_join_request request (new_inner ℕ)).1
one_waiting = store_join_request-IsBounded request (new_inner ℕ) new_inner-IsBounded

abbrev consumed_request : List ConsumedJoinRequestRef
consumed_request = record { requester_stable_pubkey = bob; created_at = pos 8 } ∷ []

fetch_pending_join_requests_example :
    (JoinRequests.fetch_pending_join_requests room consumed_request packages).0
    ≡ ok (retain (JoinRequestLaws.outlasts consumed_request) (pending packages room))
fetch_pending_join_requests_example =
    (fetch_pending_join_requests_lem room consumed_request packages (tt, tt)).0

abbrev consumed_in_room : List ConsumedJoinRequestWithGroupRef
consumed_in_room =
    record { group_id = room; requester_stable_pubkey = bob; created_at = pos 8 } ∷ []

fetch_many_pending_join_requests_example :
    (JoinRequests.fetch_many_pending_join_requests (room ∷ alice ∷ []) consumed_in_room packages).0
    ≡ ok (
        flatten (
          map
            (λ g.
              retain (JoinRequestLaws.outlasts (refs_of g consumed_in_room)) (pending packages g))
            (room ∷ alice ∷ [])))
fetch_many_pending_join_requests_example =
    fetch_many_pending_join_requests_lem (room ∷ alice ∷ []) consumed_in_room packages (tt, tt)

new_inner-IsLogged : IsLogged (new_inner ℕ)
unfolding new_inner lookup new_log
new_inner-IsLogged = record { log = λ g. record { next = refl; numbered = tt } }

nothing_posted : (g : Str) → messages (new_inner ℕ) g ≡ []
unfolding new_inner lookup new_log
nothing_posted g = refl

append_group_message_example :
    (append_group_message (post 1) (new_inner ℕ)).0
    ≡ ok (numbered_as (pos (suc (length (messages (new_inner ℕ) room)))) (post 1))
append_group_message_example =
    (append_group_message_lem (post 1) (new_inner ℕ) new_inner-IsLogged
      (rw (nothing_posted room) (omega arith))).0

posted-IsLogged : IsLogged (append_group_message (post 1) (new_inner ℕ)).1
posted-IsLogged =
    (append_group_message_lem (post 1) (new_inner ℕ) new_inner-IsLogged
      (rw (nothing_posted room) (omega arith))).2

room_for_two : (j : Str) → length (messages (new_inner ℕ) j) + 2 + 2 < 2 ^ 63
room_for_two j = rw (nothing_posted j) (omega arith)

fetch_group_messages-resume_example :
    (fetch_group_messages room
      (some (pos (length (messages (new_inner ℕ) room))))
      (append_all (post 1 ∷ post 2 ∷ []) (new_inner ℕ))).0
    ≡ ok (records_of room (suc (length (messages (new_inner ℕ) room))) (post 1 ∷ post 2 ∷ []))
fetch_group_messages-resume_example =
    fetch_group_messages-resume (post 1 ∷ post 2 ∷ []) (new_inner ℕ) room new_inner-IsLogged
      room_for_two

abbrev from_start : List FetchGroupMessagesInput
from_start = record { group_id = room; after_cursor = none } ∷ []

fetch_many_group_messages_example : fetch_many_group_messages from_start packages ≡ (
  ok (
      flatten (
        map
          (λ f.
            retain (λ m. ltb_ℤ (or_zero f.after_cursor) m.cursor) (messages packages f.group_id))
          from_start)),
  packages,
)
fetch_many_group_messages_example = fetch_many_group_messages_lem from_start packages

abbrev record_at : ℕ → GroupMessageRecord
record_at n = numbered_as (pos n) (post n)

-- A subscriber that has the first of the room's messages.
abbrev subscribed : Subscriber
subscribed = record {
  sent = record_at 1 ∷ [];
  dedup = true;
  cursors_by_group = (room, pos 1) ∷ [];
  buffering = false;
  buffer = [];
}

replay_backlog_example :
    Sends room 0 1
      (record_at 1 ∷ record_at 2 ∷ [])
      subscribed
      (replay_backlog (record_at 1 ∷ record_at 2 ∷ []) subscribed)
unfolding retain lookup str_discrete
replay_backlog_example =
    replay_backlog-Sends room 0 1 (record_at 1 ∷ record_at 2 ∷ []) subscribed refl
      (refl, refl, (refl, refl, tt)) refl (omega arith)

-- A subscriber of the room from its first message on, with one message posted before.
abbrev joining : Subscriber
joining = record {
  sent = [];
  dedup = true;
  cursors_by_group = (room, pos 0) ∷ [];
  buffering = false;
  buffer = [];
}

sent_of-stream_example :
    sent_of room (
      stream
        (record_at 2 ∷ [])
        (record_at 1 ∷ record_at 2 ∷ [])
        (record_at 3 ∷ [])
        (record_at 4 ∷ [])
        (waiting joining []))
    ≡ sent_of room joining
      ++ of_group room (record_at 1 ∷ record_at 2 ∷ [])
      ++ of_group room (record_at 3 ∷ [])
      ++ of_group room (record_at 4 ∷ [])
unfolding retain lookup str_discrete
sent_of-stream_example =
    sent_of-stream room 0 1 (record_at 2 ∷ []) (record_at 1 ∷ record_at 2 ∷ []) (record_at 3 ∷ [])
      (record_at 4 ∷ []) joining refl refl
      ((refl, refl, (refl, refl, tt)), refl, (refl, refl, (refl, refl, tt)), (refl, refl, tt))

emit_if_new-late_example :
    emit_if_new (record_at 2) (emit_if_new (record_at 3) subscribed)
    ≡ emit_if_new (record_at 3) subscribed
emit_if_new-late_example =
    emit_if_new-late (record_at 2) (record_at 3) subscribed refl refl (omega arith)
