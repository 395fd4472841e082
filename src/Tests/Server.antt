-- ===== src/Tests/Server.antt =====
-- The theorems on the adapter, at concrete states.
use cordn_rs.Common.{
  ℕ, ◌≡◌, refl, arith, List, [], ◌∷◌, true, false, none, some, ok, str_discrete, retain, count_if,
}
use cordn_rs.Common.Int.{ℤ, pos}
use cordn_rs.Common.Assoc.{lookup}
use cordn_rs.MlsParse.{
  ParsedKeyPackage, parse_key_package, u8, u16, var_bytes, skip, skip_vars, remaining,
  read_var_bytes, length_loop, detect_last_resort, walk,
}
use cordn_rs.MlsParse.Utf8.{is_utf8, is_utf8_from, lead}
use cordn_rs.Storage.{memory_storage}
use cordn_rs.Coordinator.Service.{new}
use cordn_rs.Coordinator.Service
use cordn_rs.Memory.KeyPackages
use cordn_rs.Memory.State.{InMemoryInner, new_inner}
use cordn_rs.RateLimit.{new_limiter, check, clamp_non_negative, evict_idle_buckets}
use cordn_rs.Contracts.{NostrEvent, PublishKeyPackageInput, PublishKeyPackageOutput}
use cordn_rs.Config.{AbuseProtectionConfig}
use cordn_rs.Adapter.{
  Codec, CoordinatorAdapter, new_adapter, assert_within_rate_limit, enforce_key_package_quota,
  remove_each, log_rejection,
}
use cordn_rs.Adapter.Methods.{
  publish_key_package, remove_key_packages, consume_key_package, admit_key_package,
}
use cordn_rs.Adapter.Limited.{Denied, methods-Denied}
use cordn_rs.Adapter.Binding.{Bound, publish_key_package-Bound}
use cordn_rs.Memory.KeyPackages.Filing.{IsWellFiled}
use cordn_rs.Adapter.Quota.{IsWithin, publish_key_package-IsWithin}
use cordn_rs.Adapter.LastResortQuota.{enforce_key_package_quota-off}
use cordn_rs.Adapter.Ownership.{MemoryAdapter, state, OthersKept, remove_key_packages-others}
use cordn_rs.Tests.{alice, packages, first_ref, spare_ref, kp}

-- The identity as base64, and an event that is kept as nothing.
abbrev codec : Codec ℕ
codec = record {
  b64_decode = λ s. some s;
  b64_encode = λ b. b;
  to_value = λ e. none;
  from_value = λ v. none;
  null = 0;
}

abbrev protection : ℤ → AbuseProtectionConfig
protection burst = record {
  rate_limit = record {
    enabled = true;
    refill_per_minute = pos 60;
    burst = burst;
    idle_ttl_ms = pos 0;
  };
  key_package_quota = record { max_per_identity = 2; max_last_resort_per_identity = 1 };
  log_rejections = true;
}

abbrev server : ℤ → InMemoryInner ℕ → CoordinatorAdapter (memory_storage ℕ)
server burst s =
    new_adapter (memory_storage ℕ) (new (memory_storage ℕ) s none none) (protection burst)

denied_at_once : (check (server (pos 0) packages).rate_limiter alice (pos 0)).0 ≡ false
unfolding new_adapter new_limiter check evict_idle_buckets lookup
denied_at_once = refl

methods-Denied_example :
    Denied
      (server (pos 0) packages)
      alice
      (consume_key_package codec (pos 0) (record { id = alice }) alice (server (pos 0) packages))
methods-Denied_example =
    (methods-Denied codec (server (pos 0) packages) (pos 0) (pos 0) alice denied_at_once).1
      (record { id = alice })

remove_key_packages-others_example :
    OthersKept alice
      (server (pos 1) packages)
      (remove_key_packages
        (pos 0)
        (record { kp_refs = first_ref ∷ spare_ref ∷ [] })
        alice
        (server (pos 1) packages)).1
unfolding new_adapter new
remove_key_packages-others_example =
    remove_key_packages-others (pos 0) (record { kp_refs = first_ref ∷ spare_ref ∷ [] }) alice
      (server (pos 1) packages) ((tt, tt), (refl, (refl, (refl, tt)), tt))

abbrev kp_bytes : List ℕ
kp_bytes =
    0 ∷ 1 ∷ 0 ∷ 1 ∷ 1 ∷ 1 ∷ 1 ∷ 2 ∷ 1 ∷ 3 ∷ 0 ∷ 1 ∷ 1 ∷ 97 ∷ 0 ∷ 0 ∷ 0 ∷ 0 ∷ 0 ∷ 1 ∷ 0 ∷ 0 ∷ 0 ∷ 0
    ∷ 0 ∷ 0 ∷ 0 ∷ 0 ∷ 0 ∷ 0 ∷ 0 ∷ 0 ∷ 0 ∷ 0 ∷ 0 ∷ 0 ∷ 0 ∷ 1 ∷ 4 ∷ 0 ∷ 1 ∷ 5 ∷ []

abbrev signed_by_alice : NostrEvent
signed_by_alice = record {
  id = [];
  pubkey = alice;
  created_at = pos 0;
  kind = pos 443;
  tags = [];
  content = [];
  sig = [];
}

abbrev third : PublishKeyPackageInput
third = record { kp_ref = 51 ∷ []; kp_64 = kp_bytes }

abbrev parsed_package : ParsedKeyPackage
parsed_package = record { credential_identity = alice; cipher_suite = 1; is_last_resort = false }

parses : parse_key_package kp_bytes ≡ ok parsed_package
unfolding parse_key_package u8 u16 var_bytes skip skip_vars remaining read_var_bytes length_loop
    detect_last_resort walk is_utf8 is_utf8_from lead
parses = refl

abbrev published : PublishKeyPackageOutput
published = record { kp_ref = 51 ∷ []; last_resort = false; at = pos 1 }

publishes :
    (publish_key_package codec
      (pos 0)
      (pos 1)
      third
      alice
      (some signed_by_alice)
      (server (pos 5) (new_inner ℕ))).0
    ≡ ok published
unfolding publish_key_package admit_key_package assert_within_rate_limit enforce_key_package_quota
    remove_each new_adapter new new_limiter check evict_idle_buckets lookup clamp_non_negative
    str_discrete retain Service.publish_key_package KeyPackages.publish_key_package
    Service.list_key_packages_for_identity KeyPackages.list_key_packages_for_identity new_inner
    log_rejection parse_key_package u8 u16 var_bytes skip skip_vars remaining read_var_bytes
    length_loop detect_last_resort walk is_utf8 is_utf8_from lead
publishes = refl

publish_key_package-Bound_example :
    (bytes : List ℕ) × (parsed : ParsedKeyPackage) × Bound codec third alice
      (some signed_by_alice)
      bytes
      parsed
publish_key_package-Bound_example =
    publish_key_package-Bound codec (pos 0) (pos 1) third alice (some signed_by_alice)
      (server (pos 5) (new_inner ℕ)) publishes

empty-IsWithin : IsWithin (server (pos 5) (new_inner ℕ))
unfolding new_adapter new new_inner lookup
empty-IsWithin j = omega arith

empty-IsWellFiled : IsWellFiled (state (server (pos 5) (new_inner ℕ))).key_packages_by_identity
unfolding new_adapter new new_inner
empty-IsWellFiled = (tt, tt)

publish_key_package-IsWithin_example :
    IsWithin
      (publish_key_package codec
        (pos 0)
        (pos 1)
        third
        alice
        (some signed_by_alice)
        (server (pos 5) (new_inner ℕ))).1
unfolding new_adapter
publish_key_package-IsWithin_example =
    publish_key_package-IsWithin codec (pos 0) (pos 1) third alice (some signed_by_alice)
      (server (pos 5) (new_inner ℕ)) empty-IsWellFiled empty-IsWithin (omega arith) publishes refl

-- Alice has two last-resort packages, with no limit on them and a quota of one package.
abbrev hoard : InMemoryInner ℕ
hoard = record packages {
  key_packages_by_identity = (alice, kp spare_ref true ∷ kp first_ref true ∷ []) ∷ [];
}

abbrev unlimited : MemoryAdapter ℕ
unlimited = record (server (pos 5) hoard) {
  abuse = record {
    rate_limit = (protection (pos 5)).rate_limit;
    key_package_quota = record { max_per_identity = 1; max_last_resort_per_identity = 0 };
    log_rejections = true;
  };
}

enforce_key_package_quota-off_example :
    enforce_key_package_quota alice true unlimited ≡ (ok tt, unlimited)
unfolding count_if lookup str_discrete new new_adapter
enforce_key_package_quota-off_example =
    enforce_key_package_quota-off alice unlimited refl (omega arith) refl
