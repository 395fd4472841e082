-- ===== src/Tests/Stores.antt =====
-- The theorems on the SQLite backend, and on the two backends side by side, at concrete runs.
use cordn_rs.Common.{
  ℕ, ◌≡◌, refl, arith, List, [], ◌∷◌, true, false, none, some, Str, str_discrete, codes, ok, err,
  Outcome, count_if, Bool, ℕ_discrete, find, position, remove_at, flatten, ◌≤◌,
}
use cordn_rs.Common.Int.{pos, add_i64, wrap_i64, ℤ_discrete}
use cordn_rs.Common.Assoc.{lookup, upsert, adjust, remove, values}
use cordn_rs.Types.{PublishedKeyPackageRecord}
use cordn_rs.Memory.State.{new_inner, new_log}
use cordn_rs.Memory.KeyPackages as MemoryKeyPackages
use cordn_rs.Memory.Welcomes as MemoryWelcomes
use cordn_rs.Memory.JoinRequests as MemoryJoinRequests
use cordn_rs.Memory.Messages as MemoryMessages
use cordn_rs.Sqlite.{Driver, Tables, Connection, empty_tables, quiet, transaction}
use cordn_rs.Sqlite.KeyPackages as KeyPackages
use cordn_rs.Sqlite.KeyPackages.Rows.{IsLossless, row_of}
use cordn_rs.Sqlite.UniqueRefs.{HasUniqueRefs}
use cordn_rs.Storage.UniqueRefs.{run-HasUniqueRefs}
use cordn_rs.Storage.{memory_storage, sqlite_storage}
use cordn_rs.Storage.Calls.{
  Op, publish_key_package, consume_key_package, store_welcome, store_join_request,
  append_group_message, fetch_group_messages, run, call,
}
use cordn_rs.Storage.Atomic.{call-atomic}
use cordn_rs.Storage.Statements.{failed}
use cordn_rs.Parity.Calls.{IsAdmissible, run-sqlite_as_memory, list_all-same_records}
use cordn_rs.Tests.{alice, room, kp, first_ref, spare_ref, welcome, request, post}

-- An event is a number, and its text the byte of that number.
abbrev read_byte : Str → Outcome Str ℕ
read_byte (n ∷ []) = ok n
read_byte s = err s

abbrev bytes : Driver ℕ
bytes = record {
  to_string = λ n. ok (n ∷ []);
  from_str = read_byte;
  duplicate_ref = λ ref. ref;
  duplicate_cursor = λ g c. g;
}

abbrev bytes_lossless : IsLossless bytes
bytes_lossless = record { text = λ n. n ∷ []; writes = λ n. refl; reads = λ n. refl }

-- Alice publishes two packages and one is taken; she is welcomed, bob asks to join, and two messages are
-- posted and read.
abbrev visits : List (Op ℕ)
visits =
    publish_key_package (kp spare_ref true)
    ∷ publish_key_package (kp first_ref false)
    ∷ consume_key_package alice
    ∷ store_welcome welcome
    ∷ store_join_request request
    ∷ append_group_message (post 1)
    ∷ append_group_message (post 2)
    ∷ fetch_group_messages room (some (pos 1))
    ∷ []

visits-IsAdmissible : IsAdmissible visits (new_inner ℕ)
unfolding new_inner new_log MemoryKeyPackages.publish_key_package
    MemoryKeyPackages.consume_key_package MemoryKeyPackages.locate_by_ref MemoryKeyPackages.take_at
    MemoryWelcomes.store_welcome MemoryJoinRequests.store_join_request
    MemoryMessages.append_group_message str_discrete ℕ_discrete lookup upsert adjust remove find
    position remove_at flatten values add_i64 wrap_i64
visits-IsAdmissible = (refl, (refl, (tt, (tt, (tt, (omega arith, (omega arith, (tt, tt))))))))

run-sqlite_as_memory_example :
    (run (sqlite_storage bytes) visits (quiet empty_tables)).0
    ≡ (run (memory_storage ℕ) visits (new_inner ℕ)).0
run-sqlite_as_memory_example = run-sqlite_as_memory bytes bytes_lossless visits visits-IsAdmissible

abbrev is_spare : PublishedKeyPackageRecord ℕ → Bool
is_spare r = r.is_last_resort

list_all-same_records_example :
    (rs : List (PublishedKeyPackageRecord ℕ)) × (all : List (PublishedKeyPackageRecord ℕ))
    × ((sqlite_storage bytes).list_all_key_packages
        (run (sqlite_storage bytes) visits (quiet empty_tables)).1).0
      ≡ ok rs
    × ((memory_storage ℕ).list_all_key_packages (run (memory_storage ℕ) visits (new_inner ℕ)).1).0
      ≡ ok all
    × (count_if is_spare rs ≡ count_if is_spare all)
list_all-same_records_example =
    list_all-same_records bytes bytes_lossless visits is_spare visits-IsAdmissible

-- Two packages of alice, on a connection whose third statement, the DELETE, fails.
abbrev two_rows : Tables
two_rows = record empty_tables {
  key_packages =
      row_of (λ n. n ∷ []) (kp spare_ref true) ∷ row_of (λ n. n ∷ []) (kp first_ref false) ∷ [];
}

abbrev failing_delete : Connection
failing_delete = record { tables = two_rows; faults = none ∷ none ∷ some (codes "disk full") ∷ [] }

fails : failed (call (sqlite_storage bytes) (consume_key_package first_ref) failing_delete).0 ≡ true
unfolding KeyPackages.consume_key_package KeyPackages.row_to_key_package transaction find
    str_discrete ℕ_discrete ℤ_discrete
fails = refl

call-atomic_example :
    (call (sqlite_storage bytes) (consume_key_package first_ref) failing_delete).1.tables ≡ two_rows
call-atomic_example = call-atomic bytes (consume_key_package first_ref) failing_delete fails

-- First the driver refuses a publication, then one of the same ref goes in and the next does not.
abbrev flaky : Connection
flaky = record { tables = empty_tables; faults = some (codes "disk full") ∷ none ∷ [] }

abbrev same_ref_thrice : List (Op ℕ)
same_ref_thrice =
    publish_key_package (kp first_ref true)
    ∷ publish_key_package (kp first_ref false)
    ∷ publish_key_package (kp first_ref true)
    ∷ []

new-HasUniqueRefs : HasUniqueRefs empty_tables
unfolding count_if
new-HasUniqueRefs ref = omega arith

run-HasUniqueRefs_example :
    count_if
      (KeyPackages.has_ref first_ref)
      (run (sqlite_storage bytes) same_ref_thrice flaky).1.tables.key_packages
    ≤ 1
run-HasUniqueRefs_example =
    run-HasUniqueRefs bytes same_ref_thrice flaky new-HasUniqueRefs first_ref
