-- ===== src/Adapter/Methods.antt =====
-- The methods of `CoordinatorAdapter`, over any storage and any codec.
use cordn_rs.Common.{ℕ, Option, List, [], ◌∷◌, map, Str, str_eq, ok, is_empty, not}
use cordn_rs.Common.Int.{ℤ}
use cordn_rs.Types.{PublishedKeyPackageRecord}
use cordn_rs.Storage.{CoordinatorStorage}
use cordn_rs.Coordinator.Service
use cordn_rs.MlsParse.{ParsedKeyPackage, parse_key_package}
use cordn_rs.Contracts.{
  NostrEvent, PublishKeyPackageInput, PublishKeyPackageOutput, ConsumeKeyPackageInput,
  ConsumeKeyPackageOutput, ListAvailableKeyPackagesOutput, RemoveKeyPackagesInput,
  RemoveKeyPackagesOutput, FetchPendingWelcomesInput, FetchPendingWelcomesOutput, StoreWelcomeInput,
  StoreWelcomeOutput, StoreJoinRequestInput, StoreJoinRequestOutput,
  FetchManyPendingJoinRequestsInput, FetchManyPendingJoinRequestsOutput, PostGroupMessageInput,
  PostGroupMessageOutput, FetchGroupMessagesOutput, FetchManyGroupMessagesInput,
  SubscribeManyGroupMessagesInput,
}
use cordn_rs.Adapter.Mapping.{
  ok_or, require, as_key_package, unwrap_or, consumed_key_package, pending_welcome,
  map_group_messages, available_key_package, consumed_welcome, core_fetch_input, removed_ref,
  group_of, consumed_join_request, wire_join_request,
}
use cordn_rs.Adapter.{
  Codec, invalid_input, must_be_non_empty, missing_publication_event, signer_mismatch,
  identity_mismatch, invalid_key_package, invalid_welcome, invalid_message, unknown_key_package_ref,
  unauthorized_key_package_ref, require_non_empty, require_positive_cursors, Action, ◌>>=◌, ◌>>◌,
  give, call, assert_within_rate_limit, enforce_key_package_quota, kp_ref, kp_64, id, kp_refs,
  target_pk, welcome_64, gid, msg_64, groups,
}

module _ {Value : Type 0} {st : CoordinatorStorage Value} (codec : Codec Value) where
  open codec use {b64_decode, b64_encode, to_value, from_value, null}

  -- The decoding, and the binding of the package and of its publication event to the caller.
  unfoldable pub admit_key_package :
      PublishKeyPackageInput
      → Str
      → Option NostrEvent
      → Action st (List ℕ × ParsedKeyPackage × NostrEvent)
  admit_key_package input client_pubkey publication_event = do
    give (require_non_empty input.kp_ref kp_ref)
    give (require_non_empty input.kp_64 kp_64)
    key_package_bytes ← give (ok_or (b64_decode input.kp_64) invalid_key_package)
    parsed ← give (as_key_package (parse_key_package key_package_bytes))
    event ← give (ok_or publication_event missing_publication_event)
    give (require (str_eq event.pubkey client_pubkey) signer_mismatch)
    give (require (str_eq parsed.credential_identity event.pubkey) identity_mismatch)
    give (ok (key_package_bytes, parsed, event))

  unfoldable pub publish_key_package :
      ℤ → ℤ → PublishKeyPackageInput → Str → Option NostrEvent → Action st PublishKeyPackageOutput
  unfolding admit_key_package
  publish_key_package checked now input client_pubkey publication_event = do
    assert_within_rate_limit checked client_pubkey
    (key_package_bytes, parsed, event) ← admit_key_package input client_pubkey publication_event
    enforce_key_package_quota parsed.credential_identity parsed.is_last_resort
    r ← call (
        Service.publish_key_package st now (record {
          stable_pubkey = parsed.credential_identity;
          key_package_bytes = key_package_bytes;
          key_package_ref = input.kp_ref;
          is_last_resort = parsed.is_last_resort;
          publication_event = unwrap_or (to_value event) null;
        }))
    give (
        ok (record {
          kp_ref = r.key_package_ref;
          last_resort = r.is_last_resort;
          at = r.published_at;
        }))

  unfoldable pub consume_key_package :
      ℤ → ConsumeKeyPackageInput → Str → Action st ConsumeKeyPackageOutput
  consume_key_package checked input client_pubkey = do
    assert_within_rate_limit checked client_pubkey
    give (require_non_empty input.id id)
    r ← call (Service.consume_key_package st input.id)
    give (consumed_key_package codec r)

  unfoldable pub fetch_pending_welcomes :
      ℤ → FetchPendingWelcomesInput → Str → Action st FetchPendingWelcomesOutput
  fetch_pending_welcomes checked input client_pubkey = do
    assert_within_rate_limit checked client_pubkey
    records ← call (
        Service.fetch_pending_welcomes st client_pubkey
          (map consumed_welcome (unwrap_or input.consumed [])))
    give (ok (record { welcomes = map (pending_welcome codec) records }))

  unfoldable pub store_welcome : ℤ → ℤ → StoreWelcomeInput → Str → Action st StoreWelcomeOutput
  store_welcome checked now input client_pubkey = do
    assert_within_rate_limit checked client_pubkey
    give (require_non_empty input.target_pk target_pk)
    give (require_non_empty input.kp_ref kp_ref)
    give (require_non_empty input.welcome_64 welcome_64)
    welcome_bytes ← give (ok_or (b64_decode input.welcome_64) invalid_welcome)
    r ← call (
        Service.store_welcome st now (record {
          target_stable_pubkey = input.target_pk;
          key_package_reference = input.kp_ref;
          welcome_bytes = welcome_bytes;
          join_after_cursor = input.after;
        }))
    give (ok (record { at = r.created_at }))

  unfoldable pub post_group_message :
      ℤ → ℤ → PostGroupMessageInput → Str → Action st PostGroupMessageOutput
  post_group_message checked now input client_pubkey = do
    assert_within_rate_limit checked client_pubkey
    give (require_non_empty input.gid gid)
    give (require_non_empty input.msg_64 msg_64)
    opaque_message ← give (ok_or (b64_decode input.msg_64) invalid_message)
    r ← call (
        Service.post_group_message st now
          (record { group_id = input.gid; opaque_message = opaque_message }))
    give (ok (record { cursor = r.cursor; gid = r.group_id; at = r.created_at }))

  unfoldable pub fetch_many_group_messages :
      ℤ → FetchManyGroupMessagesInput → Str → Action st FetchGroupMessagesOutput
  fetch_many_group_messages checked input client_pubkey = do
    assert_within_rate_limit checked client_pubkey
    give (require (not (is_empty input.groups)) (invalid_input (must_be_non_empty groups)))
    give (require_positive_cursors input.groups)
    records ← call (Service.fetch_many_group_messages st (map core_fetch_input input.groups))
    give (ok (map_group_messages codec records))

  -- `subscribe_many_group_messages` up to its streaming loop.
  unfoldable pub subscribe_many_start :
      ℤ → SubscribeManyGroupMessagesInput → Str → Action st Service.GroupMessageSubscription
  subscribe_many_start checked input client_pubkey = do
    assert_within_rate_limit checked client_pubkey
    give (require (not (is_empty input.groups)) (invalid_input (must_be_non_empty groups)))
    give (require_positive_cursors input.groups)
    call (Service.subscribe_many_group_messages st (map core_fetch_input input.groups))

module _ {Value : Type 0} {st : CoordinatorStorage Value} where
  -- `get_key_package`, and the check that the package is the caller's.
  unfoldable pub own_key_package : Str → Str → Action st (PublishedKeyPackageRecord Value)
  own_key_package ref client_pubkey = do
    found ← call (Service.get_key_package st ref)
    r ← give (ok_or found (unknown_key_package_ref ref))
    give (require (str_eq r.stable_pubkey client_pubkey) (unauthorized_key_package_ref ref))
    give (ok r)

  -- The loop of `remove_key_packages`.
  unfoldable pub remove_loop : Str → List Str → Action st (List Str)
  unfolding own_key_package
  remove_loop client_pubkey [] = give (ok [])
  remove_loop client_pubkey (ref ∷ refs) = do
    _ ← own_key_package ref client_pubkey
    gone ← call (Service.remove_key_package st ref)
    rest ← remove_loop client_pubkey refs
    give (ok (removed_ref ref gone ∷ rest))

  unfoldable pub remove_key_packages :
      ℤ → RemoveKeyPackagesInput → Str → Action st RemoveKeyPackagesOutput
  unfolding remove_loop
  remove_key_packages checked input client_pubkey = do
    assert_within_rate_limit checked client_pubkey
    give (require (not (is_empty input.kp_refs)) (invalid_input (must_be_non_empty kp_refs)))
    removed ← remove_loop client_pubkey input.kp_refs
    give (ok (record { kp_refs = removed }))

  unfoldable pub list_available_key_packages : ℤ → Str → Action st ListAvailableKeyPackagesOutput
  list_available_key_packages checked client_pubkey = do
    assert_within_rate_limit checked client_pubkey
    records ← call (Service.list_all_key_packages st)
    give (ok (record { key_packages = map available_key_package records }))

  unfoldable pub store_join_request :
      ℤ → ℤ → StoreJoinRequestInput → Str → Action st StoreJoinRequestOutput
  unfolding own_key_package
  store_join_request checked now input client_pubkey = do
    assert_within_rate_limit checked client_pubkey
    give (require_non_empty input.gid gid)
    give (require_non_empty input.kp_ref kp_ref)
    _ ← own_key_package input.kp_ref client_pubkey
    r ← call (
        Service.store_join_request st now (record {
          group_id = input.gid;
          requester_stable_pubkey = client_pubkey;
          key_package_ref = input.kp_ref;
        }))
    give (ok (record { at = r.created_at }))

  unfoldable pub fetch_many_pending_join_requests :
      ℤ → FetchManyPendingJoinRequestsInput → Str → Action st FetchManyPendingJoinRequestsOutput
  fetch_many_pending_join_requests checked input client_pubkey = do
    assert_within_rate_limit checked client_pubkey
    give (require (not (is_empty input.groups)) (invalid_input (must_be_non_empty groups)))
    records ← call (
        Service.fetch_many_pending_join_requests st (map group_of input.groups)
          (map consumed_join_request (unwrap_or input.consumed [])))
    give (ok (record { requests = map wire_join_request records }))
