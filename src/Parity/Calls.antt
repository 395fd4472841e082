-- ===== src/Parity/Calls.antt =====
-- Over any run of calls, but for `list_all_key_packages`, the two backends answer alike.
use cordn_rs.Common.{
  ◌≡◌, ◌∙◌, retain, count_if, Bool, refl, ap, none, List, [], ◌∷◌, ok, Str, find, length, arith,
  Option,
}
use cordn_rs.Common.Assoc.{lookup}
use cordn_rs.Memory.Messages.Numbering.{new_log-IsLog, messages}
use cordn_rs.Common.Rows.{count_if-Agree}
use cordn_rs.Common.Holdings.{Holds-Agree}
use cordn_rs.Types.{PublishedKeyPackageRecord, StorageResult}
use cordn_rs.Memory.State.{InMemoryInner, new_inner, new_log}
use cordn_rs.Memory.KeyPackages.{has_ref, list_all_key_packages}
use cordn_rs.Memory.KeyPackages.Refinement.{stored}
use cordn_rs.Memory.Messages.Numbering.{HasRoom}
use cordn_rs.Sqlite.{Driver, Tables, Connection, empty_tables, quiet}
use cordn_rs.Sqlite.KeyPackages.Rows.{IsLossless, identity_of}
use cordn_rs.Sqlite.KeyPackages.Effects.{list_all_effect}
use cordn_rs.Storage.{memory_storage, sqlite_storage}
use cordn_rs.Storage.Calls.{
  Op, publish_key_package, list_key_packages_for_identity, get_key_package, remove_key_package,
  consume_key_package, store_welcome, fetch_pending_welcomes, delete_expired_welcomes,
  store_join_request, fetch_pending_join_requests, fetch_many_pending_join_requests,
  delete_expired_join_requests, append_group_message, fetch_group_messages,
  fetch_many_group_messages, Answer, map_ok, answer_with, call, run, key_package, key_packages,
  at_most_one, welcome, welcomes, deleted, join_request, join_requests, group_message,
  group_messages,
}
use cordn_rs.Parity.{Related, Same}
use cordn_rs.Parity.Welcomes.{
  store_welcome-Same, fetch_pending_welcomes-Same, delete_expired_welcomes-Same,
}
use cordn_rs.Parity.JoinRequests.Many.{fetch_many_pending_join_requests-Same}
use cordn_rs.Parity.JoinRequests.{
  store_join_request-Same, fetch_pending_join_requests-Same, delete_expired_join_requests-Same,
}
use cordn_rs.Parity.Messages.{
  append_group_message-Same, fetch_group_messages-Same, fetch_many_group_messages-Same,
}
use cordn_rs.Parity.KeyPackages.{
  publish_key_package-Same, list_key_packages_for_identity-Same, get_key_package-Same,
  remove_key_package-Same,
}
use cordn_rs.Parity.KeyPackages.Consume.{consume_key_package-Same}

module _ {Value : Type 0} where
  -- What a call asks of the state: no ref is published while a record has it, and cursors fit i64.
  abbrev pub Admits : Op Value → InMemoryInner Value → Type 0
  Admits (publish_key_package r) s = find (has_ref r.key_package_ref) (stored s) ≡ none
  Admits (append_group_message p) s = HasRoom (length (messages s p.group_id))
  Admits _ s = Unit

  abbrev pub IsAdmissible : List (Op Value) → InMemoryInner Value → Type 0
  IsAdmissible [] s = Unit
  IsAdmissible (op ∷ ops) s = Admits op s × IsAdmissible ops (call (memory_storage Value) op s).1

  new-Related : (text : Value → Str) → Related text empty_tables (new_inner Value)
  unfolding new_inner lookup retain count_if new_log
  new-Related text = record {
    packages = record {
      records = [];
      written = refl;
      held = record { filing = tt; each = λ k. refl };
      filed = (tt, tt);
      single = λ ref. omega arith;
    };
    welcomes = record { filing = tt; each = λ k. refl };
    requests = record {
      held = record { filing = tt; each = λ k. refl };
      capped = λ g. omega arith;
      single = λ g requester. omega arith;
    };
    logs = record { rows = λ g. refl; cursor = λ g. refl; log = new_log-IsLog };
  }

module _ {Value : Type 0} (text : Value → Str) where
  Same-answer :
      {A : Type 0} (f : A → Answer Value) (c : StorageResult A × Connection)
      (m : StorageResult A × InMemoryInner Value)
      → Same text c m
      → Same text (answer_with f c) (answer_with f m)
  Same-answer f c m h = record {
    answer = ap (map_ok f) h.answer;
    faults = h.faults;
    related = h.related;
  }

module _ {Value : Type 0} (driver : Driver Value) (codec : IsLossless driver) where
  call-Same :
      (op : Op Value) (t : Tables) (s : InMemoryInner Value)
      → Admits op s
      → Related codec.text t s
      → Same codec.text
          (call (sqlite_storage driver) op (quiet t))
          (call (memory_storage Value) op s)
  call-Same (publish_key_package r) t s a w =
      Same-answer codec.text key_package _ _ (publish_key_package-Same driver codec r t s a w)
  call-Same (list_key_packages_for_identity pk) t s a w =
      Same-answer codec.text key_packages _ _
        (list_key_packages_for_identity-Same driver codec pk t s w)
  call-Same (get_key_package ref) t s a w =
      Same-answer codec.text at_most_one _ _ (get_key_package-Same driver codec ref t s w)
  call-Same (remove_key_package ref) t s a w =
      Same-answer codec.text at_most_one _ _ (remove_key_package-Same driver codec ref t s w)
  call-Same (consume_key_package id) t s a w =
      Same-answer codec.text at_most_one _ _ (consume_key_package-Same driver codec id t s w)
  call-Same (store_welcome r) t s a w =
      Same-answer codec.text welcome _ _ (store_welcome-Same codec.text r t s w)
  call-Same (fetch_pending_welcomes pk cs) t s a w =
      Same-answer codec.text welcomes _ _ (fetch_pending_welcomes-Same codec.text pk cs t s w)
  call-Same (delete_expired_welcomes age) t s a w =
      Same-answer codec.text deleted _ _ (delete_expired_welcomes-Same codec.text age t s w)
  call-Same (store_join_request r) t s a w =
      Same-answer codec.text join_request _ _ (store_join_request-Same codec.text r t s w)
  call-Same (fetch_pending_join_requests g cs) t s a w =
      Same-answer codec.text join_requests _ _
        (fetch_pending_join_requests-Same codec.text g cs t s w)
  call-Same (fetch_many_pending_join_requests gs cs) t s a w =
      Same-answer codec.text join_requests _ _
        (fetch_many_pending_join_requests-Same codec.text gs cs t s w)
  call-Same (delete_expired_join_requests age) t s a w =
      Same-answer codec.text deleted _ _ (delete_expired_join_requests-Same codec.text age t s w)
  call-Same (append_group_message p) t s a w =
      Same-answer codec.text group_message _ _
        (append_group_message-Same codec.text driver p t s a w)
  call-Same (fetch_group_messages g c) t s a w =
      Same-answer codec.text group_messages _ _ (fetch_group_messages-Same codec.text g c t s w)
  call-Same (fetch_many_group_messages gs) t s a w =
      Same-answer codec.text group_messages _ _ (fetch_many_group_messages-Same codec.text gs t s w)

  abbrev with_faults : Tables → List (Option Str) → Connection
  with_faults t faults = record { tables = t; faults = faults }

  run-Same :
      (ops : List (Op Value)) (t : Tables) (s : InMemoryInner Value)
      → IsAdmissible ops s
      → Related codec.text t s
      → (after : Tables) × (run (sqlite_storage driver) ops (quiet t)
          ≡ ((run (memory_storage Value) ops s).0, quiet after))
        × Related codec.text after (run (memory_storage Value) ops s).1
  unfolding run
  run-Same [] t s a w = (t, refl, w)
  run-Same (op ∷ ops) t s a w =
      let one = call-Same op t s a.0 w in
      let (after, same, w') =
        run-Same ops (call (sqlite_storage driver) op (quiet t)).1.tables
          (call (memory_storage Value) op s).1 a.1 one.related in
      let left = (call (sqlite_storage driver) op (quiet t)).1 in
      let still : left ≡ quiet left.tables = ap (with_faults left.tables) one.faults in
      let step = ap (run (sqlite_storage driver) ops) still ∙ same in
      let later = (run (memory_storage Value) ops (call (memory_storage Value) op s).1).0 in
      let answer = (call (sqlite_storage driver) op (quiet t)).0 in
      (
        after,
        ap (λ x. (answer ∷ x.0, x.1)) step ∙ ap (λ a. (a ∷ later, quiet after)) one.answer,
        w',
      )

  -- From new storage, the two backends give the same answers, errors included, to any run of calls other
  -- than `list_all_key_packages`, as long as no ref is published while a record has it, the cursors fit
  -- i64, serde_json reads what it wrote, and the driver does not fail.
  pub run-sqlite_as_memory :
      (ops : List (Op Value))
      → IsAdmissible ops (new_inner Value)
      → (run (sqlite_storage driver) ops (quiet empty_tables)).0
        ≡ (run (memory_storage Value) ops (new_inner Value)).0
  run-sqlite_as_memory ops a =
      let (after, same, w) =
        run-Same ops empty_tables (new_inner Value) a (new-Related codec.text) in
      ap (λ x. x.0) same

  -- After such a run, on the same conditions, both list the same records, though not in the same order: each test counts as
  -- many in the two lists.
  pub list_all-same_records :
      (ops : List (Op Value)) (p : PublishedKeyPackageRecord Value → Bool)
      → IsAdmissible ops (new_inner Value)
      → (rs : List (PublishedKeyPackageRecord Value)) × (all : List
          (PublishedKeyPackageRecord Value))
        × ((sqlite_storage driver).list_all_key_packages
            (run (sqlite_storage driver) ops (quiet empty_tables)).1).0
          ≡ ok rs
        × ((memory_storage Value).list_all_key_packages
            (run (memory_storage Value) ops (new_inner Value)).1).0
          ≡ ok all
        × (count_if p rs ≡ count_if p all)
  unfolding list_all_key_packages
  list_all-same_records ops p a =
      let (after, same, w) =
        run-Same ops empty_tables (new_inner Value) a (new-Related codec.text) in
      let rs = w.packages.records in
      let s = (run (memory_storage Value) ops (new_inner Value)).1 in
      (
        rs,
        stored s,
        ap (λ x. ((sqlite_storage driver).list_all_key_packages x.1).0) same
            ∙ ap (λ x. x.0) (list_all_effect driver codec after rs w.packages.written),
        refl,
        count_if-Agree (identity_of codec.text) p rs (stored s)
            (Holds-Agree (identity_of codec.text) rs s.key_packages_by_identity w.packages.held),
      )
