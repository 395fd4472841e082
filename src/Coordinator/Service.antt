-- ===== src/Coordinator/Service.antt =====
-- `struct Coordinator` and its methods, over any storage backend. The clock's reading is an argument of
-- a method that reads it. What `&self` changes is the state that a method gives back.
use cordn_rs.Common.{
  ℕ, Option, none, some, List, [], ◌∷◌, Bool, true, false, ok, err, panic, Str, str_discrete,
  if◌then◌else◌, ℕ_discrete,
}
use cordn_rs.Common.Int.{ℤ, pos, ltb_ℤ, sub_i64}
use cordn_rs.Common.Assoc.{Assoc, keys, adjust, insert}
use cordn_rs.Types.{
  PublishedKeyPackageRecord, WelcomeQueueRecord, ConsumedWelcomeRef, JoinRequestRecord,
  ConsumedJoinRequestRef, ConsumedJoinRequestWithGroupRef, GroupMessageRecord,
  FetchGroupMessagesInput, StorageResult,
}
use cordn_rs.Storage.{CoordinatorStorage, Call}
use cordn_rs.Coordinator.Subscriber.{or_zero, replay_backlog, finish_buffering}
use cordn_rs.Coordinator.Registry.{
  SubscriberRegistry, new_registry, register_subscriber, register_many, remove_subscriber,
  publish_live, get_active_subscription_count,
}

abbrev pub default_cleanup_interval_ms : ℤ
default_cleanup_interval_ms = pos 21_600_000

abbrev pub default_max_age_ms : ℤ
default_max_age_ms = pos 2_592_000_000

-- What the spawned cleanup task captured.
pub record CleanupTask : Type 0 where
  pub interval_ms : ℤ
  pub max_age_ms : ℤ

pub record PublishKeyPackageInput (Value : Type 0) : Type 0 where
  pub stable_pubkey : Str
  pub key_package_bytes : List ℕ
  pub key_package_ref : Str
  pub is_last_resort : Bool
  pub publication_event : Value

pub record StoreWelcomeInput : Type 0 where
  pub target_stable_pubkey : Str
  pub key_package_reference : Str
  pub welcome_bytes : List ℕ
  pub join_after_cursor : Option ℤ

pub record StoreJoinRequestInput : Type 0 where
  pub group_id : Str
  pub requester_stable_pubkey : Str
  pub key_package_ref : Str

pub record PostGroupMessageInput : Type 0 where
  pub group_id : Str
  pub opaque_message : List ℕ

-- The handle that a subscriber holds; the receiving end of its channel is tokio's.
pub record GroupMessageSubscription : Type 0 where
  pub subscriber_id : ℕ
  pub group_ids : List Str
  pub unsubscribed : Bool

-- `unwrap_or`
abbrev unwrap_or : {A : Type 0} → Option A → A → A
unwrap_or none d = d
unwrap_or (some a) d = a

-- The map of `subscribe_many_group_messages`: the last cursor given for a group, the groups in order.
unfoldable pub requested_cursors : Assoc Str ℤ → List FetchGroupMessagesInput → Assoc Str ℤ
requested_cursors cursors [] = cursors
requested_cursors cursors (g ∷ gs) =
    requested_cursors (insert str_discrete g.group_id (or_zero g.after_cursor) cursors) gs

module _ {Value : Type 0} (st : CoordinatorStorage Value) where
  open st use {State}

  pub record Coordinator : Type 0 where
    pub storage : State
    pub inner : SubscriberRegistry
    pub cleanup_handle : Option CleanupTask

  -- A method that only calls the storage.
  abbrev pub Method : Type 0 → Type 0
  Method A = Coordinator → StorageResult A × Coordinator

  abbrev pub through : {A : Type 0} → Call State A → Method A
  through call c = let (out, storage) = call c.storage in (out, record c { storage = storage })

  unfoldable pub new : State → Option ℤ → Option ℤ → Coordinator
  new storage cleanup_interval_ms max_age_ms =
      let interval_ms = unwrap_or cleanup_interval_ms default_cleanup_interval_ms in
      record {
        storage = storage;
        inner = new_registry;
        cleanup_handle =
            if ltb_ℤ (pos 0) interval_ms
            then some (record {
              interval_ms = interval_ms;
              max_age_ms = unwrap_or max_age_ms default_max_age_ms;
            })
            else none;
      }

  -- One round of the cleanup task, after its sleep.
  unfoldable pub cleanup_round : ℤ → CleanupTask → Coordinator → Coordinator
  cleanup_round now task c =
      let threshold =
        if ltb_ℤ (pos 0) task.max_age_ms then sub_i64 now task.max_age_ms else pos 0 in
      let c' = (through (st.delete_expired_welcomes threshold) c).1 in
      (through (st.delete_expired_join_requests threshold) c').1

  unfoldable pub close : Coordinator → Coordinator
  close c = record c { cleanup_handle = none }

  unfoldable pub publish_key_package :
      ℤ → PublishKeyPackageInput Value → Method (PublishedKeyPackageRecord Value)
  publish_key_package now input = through (
      st.publish_key_package (record {
        stable_pubkey = input.stable_pubkey;
        key_package_bytes = input.key_package_bytes;
        key_package_ref = input.key_package_ref;
        is_last_resort = input.is_last_resort;
        published_at = now;
        publication_event = input.publication_event;
      }))

  unfoldable pub list_key_packages_for_identity :
      Str → Method (List (PublishedKeyPackageRecord Value))
  list_key_packages_for_identity pk = through (st.list_key_packages_for_identity pk)

  unfoldable pub list_all_key_packages : Method (List (PublishedKeyPackageRecord Value))
  list_all_key_packages = through st.list_all_key_packages

  unfoldable pub get_key_package : Str → Method (Option (PublishedKeyPackageRecord Value))
  get_key_package ref = through (st.get_key_package ref)

  unfoldable pub remove_key_package : Str → Method (Option (PublishedKeyPackageRecord Value))
  remove_key_package ref = through (st.remove_key_package ref)

  unfoldable pub consume_key_package : Str → Method (Option (PublishedKeyPackageRecord Value))
  consume_key_package id = through (st.consume_key_package id)

  unfoldable pub store_welcome : ℤ → StoreWelcomeInput → Method WelcomeQueueRecord
  store_welcome now input = through (
      st.store_welcome (record {
        target_stable_pubkey = input.target_stable_pubkey;
        key_package_reference = input.key_package_reference;
        welcome_bytes = input.welcome_bytes;
        created_at = now;
        join_after_cursor = input.join_after_cursor;
      }))

  unfoldable pub fetch_pending_welcomes :
      Str → List ConsumedWelcomeRef → Method (List WelcomeQueueRecord)
  fetch_pending_welcomes pk consumed = through (st.fetch_pending_welcomes pk consumed)

  unfoldable pub delete_expired_welcomes : ℤ → Method ℕ
  delete_expired_welcomes threshold = through (st.delete_expired_welcomes threshold)

  unfoldable pub store_join_request : ℤ → StoreJoinRequestInput → Method JoinRequestRecord
  store_join_request now input = through (
      st.store_join_request (record {
        group_id = input.group_id;
        requester_stable_pubkey = input.requester_stable_pubkey;
        key_package_ref = input.key_package_ref;
        created_at = now;
      }))

  unfoldable pub fetch_pending_join_requests :
      Str → List ConsumedJoinRequestRef → Method (List JoinRequestRecord)
  fetch_pending_join_requests gid consumed = through (st.fetch_pending_join_requests gid consumed)

  unfoldable pub fetch_many_pending_join_requests :
      List Str → List ConsumedJoinRequestWithGroupRef → Method (List JoinRequestRecord)
  fetch_many_pending_join_requests gids consumed =
      through (st.fetch_many_pending_join_requests gids consumed)

  unfoldable pub delete_expired_join_requests : ℤ → Method ℕ
  delete_expired_join_requests threshold = through (st.delete_expired_join_requests threshold)

  -- The second half of `post_group_message`, under the lock of the registry.
  abbrev pub after_append :
      StorageResult GroupMessageRecord
      → Coordinator
      → StorageResult GroupMessageRecord × Coordinator
  after_append (ok r) c = (ok r, record c { inner = publish_live r c.inner })
  after_append (err e) c = (err e, c)
  after_append panic c = (panic, c)

  unfoldable pub post_group_message : ℤ → PostGroupMessageInput → Method GroupMessageRecord
  post_group_message now input c =
      let (out, c') =
        through
          (st.append_group_message (record {
            group_id = input.group_id;
            opaque_message = input.opaque_message;
            created_at = now;
          }))
          c in
      after_append out c'

  unfoldable pub fetch_group_messages : Str → Option ℤ → Method (List GroupMessageRecord)
  fetch_group_messages gid after_cursor = through (st.fetch_group_messages gid after_cursor)

  unfoldable pub fetch_many_group_messages :
      List FetchGroupMessagesInput → Method (List GroupMessageRecord)
  fetch_many_group_messages groups = through (st.fetch_many_group_messages groups)

  unfoldable pub subscribe_group_messages :
      Str → Coordinator → GroupMessageSubscription × Coordinator
  subscribe_group_messages gid c =
      let (id, inner) =
        register_subscriber gid
          (record {
            sent = [];
            dedup = false;
            cursors_by_group = [];
            buffering = false;
            buffer = [];
          })
          c.inner in
      (
        record { subscriber_id = id; group_ids = gid ∷ []; unsubscribed = false },
        record c { inner = inner },
      )

  -- `subscribe_many_group_messages` up to the fetch: the subscriber is registered, and buffers.
  unfoldable pub subscribe_many_begin :
      List FetchGroupMessagesInput → Coordinator → GroupMessageSubscription × Coordinator
  subscribe_many_begin groups c =
      let cursors = requested_cursors [] groups in
      let (id, inner) =
        register_many (keys cursors)
          (record {
            sent = [];
            dedup = true;
            cursors_by_group = cursors;
            buffering = true;
            buffer = [];
          })
          c.inner in
      (
        record { subscriber_id = id; group_ids = keys cursors; unsubscribed = false },
        record c { inner = inner },
      )

  -- The rest of it, under the lock of the registry again: on a failed fetch the subscriber is removed.
  unfoldable pub subscribe_many_finish :
      GroupMessageSubscription
      → StorageResult (List GroupMessageRecord)
      → Coordinator
      → StorageResult GroupMessageSubscription × Coordinator
  subscribe_many_finish sub (ok backlog) c = (
    ok sub,
    record c {
      inner = record c.inner {
        subscribers =
            adjust ℕ_discrete sub.subscriber_id (λ s. finish_buffering (replay_backlog backlog s))
              c.inner.subscribers;
      };
    },
  )
  subscribe_many_finish sub (err e) c =
      (err e, record c { inner = remove_subscriber sub.subscriber_id sub.group_ids c.inner })
  subscribe_many_finish sub panic c = (panic, c)

  -- With nothing else in between.
  unfoldable pub subscribe_many_group_messages :
      List FetchGroupMessagesInput → Method GroupMessageSubscription
  unfolding subscribe_many_begin subscribe_many_finish
  subscribe_many_group_messages groups c =
      let (sub, c') = subscribe_many_begin groups c in
      let (backlog, c'') = through (st.fetch_many_group_messages groups) c' in
      subscribe_many_finish sub backlog c''

  -- `GroupMessageSubscription::unsubscribe`, and its `drop`.
  unfoldable pub unsubscribe :
      GroupMessageSubscription → Coordinator → GroupMessageSubscription × Coordinator
  unsubscribe sub c = if sub.unsubscribed then (sub, c) else (
    record sub { unsubscribed = true },
    record c { inner = remove_subscriber sub.subscriber_id sub.group_ids c.inner },
  )

  unfoldable pub active_subscription_count : Coordinator → ℕ
  active_subscription_count c = get_active_subscription_count c.inner
