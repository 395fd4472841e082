-- ===== src/Adapter.antt =====
-- The server's `CoordinatorAdapter`, crates/cordn-server/src/adapter.rs: its state, its errors and the
-- guards that its methods share. A method is a state-passing function that comes to a value, an error
-- or a panic; each reading of the clock is an argument of it.
pub mod Mapping
pub mod Methods
pub mod Limited
pub mod Binding
pub mod Ownership
pub mod Quota
pub mod LastResortQuota
pub mod Streaming
use cordn_rs.Common.{
  ℕ, ◌+◌, ◌-◌, ◌==◌, ltb, leb, Bool, true, false, ◌&&◌, ◌||◌, not, Option, none, some, List, [],
  ◌∷◌, ◌++◌, Str, Outcome, ok, err, panic, length, get_elem?, is_empty, take, retain, if◌then◌else◌,
}
use cordn_rs.Common.Int.{ℤ, pos, leb_ℤ}
use cordn_rs.Types.{PublishedKeyPackageRecord, StorageResult, StorageError}
use cordn_rs.Storage.{CoordinatorStorage}
use cordn_rs.Coordinator.Service.{
  Coordinator, Method, list_key_packages_for_identity, remove_key_package,
}
use cordn_rs.RateLimit.{TokenBucketRateLimiter, TokenBucketRateLimitConfig, new_limiter, check}
use cordn_rs.Config.{KeyPackageQuotaConfig, AbuseProtectionConfig, RateLimitConfig}
use cordn_rs.Contracts.{NostrEvent, FetchGroupMessagesInput}

-- The fields that a method requires, and the text of `InvalidInput`.
pub data Field : Type 0 where
  kp_ref : Field
  kp_64 : Field
  id : Field
  kp_refs : Field
  target_pk : Field
  welcome_64 : Field
  gid : Field
  msg_64 : Field
  groups : Field
  after : Field

pub data InvalidInput : Type 0 where
  must_be_non_empty : Field → InvalidInput
  must_be_a_positive_integer : Field → InvalidInput
  corrupt_publication_event : InvalidInput

pub data AdapterError : Type 0 where
  rate_limit_exceeded : AdapterError
  quota_exceeded : AdapterError
  missing_publication_event : AdapterError
  signer_mismatch : AdapterError
  identity_mismatch : AdapterError
  invalid_key_package : AdapterError
  invalid_welcome : AdapterError
  invalid_message : AdapterError
  unknown_key_package_ref : Str → AdapterError
  unauthorized_key_package_ref : Str → AdapterError
  invalid_input : InvalidInput → AdapterError
  storage : StorageError → AdapterError

-- What the adapter calls of the base64 and serde_json crates; `none` is their error.
pub record Codec (Value : Type 0) : Type 0 where
  pub b64_decode : Str → Option (List ℕ)
  pub b64_encode : List ℕ → Str
  pub to_value : NostrEvent → Option Value
  pub from_value : Value → Option NostrEvent
  pub null : Value

abbrev pub to_rate_limit_config : RateLimitConfig → TokenBucketRateLimitConfig
to_rate_limit_config c = record {
  enabled = c.enabled;
  refill_per_minute = c.refill_per_minute;
  burst = c.burst;
  idle_ttl_ms = c.idle_ttl_ms;
}

abbrev pub Guard : Type 0
Guard = Outcome AdapterError (Unit {0})

abbrev pub require_non_empty : Str → Field → Guard
require_non_empty value field =
    if is_empty value then err (invalid_input (must_be_non_empty field)) else ok tt

abbrev pub is_non_positive : Option ℤ → Bool
is_non_positive none = false
is_non_positive (some c) = leb_ℤ c (pos 0)

abbrev pub require_positive_cursor : Option ℤ → Field → Guard
require_positive_cursor cursor field =
    if is_non_positive cursor then err (invalid_input (must_be_a_positive_integer field)) else ok tt

-- `require_positive_cursor(g.after, "after")?` for each group in turn
unfoldable pub require_positive_cursors : List FetchGroupMessagesInput → Guard
require_positive_cursors [] = ok tt
require_positive_cursors (g ∷ gs) =
    let rest = require_positive_cursors gs in
    if is_non_positive g.after then err (invalid_input (must_be_a_positive_integer after)) else rest

-- `str::is_char_boundary`: the end, or a byte that does not continue a character.
abbrev pub is_char_boundary : Str → ℕ → Bool
is_char_boundary s i = elim (get_elem? s i) [
  | none ↦ i == length s
  | some byte ↦ ltb byte 0x80 || leb 0xc0 byte
]

-- Slicing inside a character panics. What tracing does with the event is not modelled.
unfoldable pub log_rejection : Bool → Str → Guard
log_rejection log_rejections client_pubkey =
    let end = if ltb (length client_pubkey) 12 then length client_pubkey else 12 in
    if log_rejections then (if is_char_boundary client_pubkey end then ok tt else panic) else ok tt

-- The rejection, once it is logged.
abbrev pub reject : {A : Type 0} → Guard → AdapterError → Outcome AdapterError A
reject (ok _) e = err e
reject (err e') e = err e'
reject panic e = panic

abbrev pub is_last_resort_record : {Value : Type 0} → PublishedKeyPackageRecord Value → Bool
is_last_resort_record r = r.is_last_resort

-- `?` on what the coordinator gives
abbrev pub from_storage : {A : Type 0} → StorageResult A → Outcome AdapterError A
from_storage (ok x) = ok x
from_storage (err e) = err (storage e)
from_storage panic = panic

module _ {Value : Type 0} (st : CoordinatorStorage Value) where
  pub record CoordinatorAdapter : Type 0 where
    pub coordinator : Coordinator st
    pub rate_limiter : TokenBucketRateLimiter
    pub abuse : AbuseProtectionConfig

  unfoldable pub new_adapter : Coordinator st → AbuseProtectionConfig → CoordinatorAdapter
  new_adapter coordinator abuse = record {
    coordinator = coordinator;
    rate_limiter = new_limiter (to_rate_limit_config abuse.rate_limit);
    abuse = abuse;
  }

  abbrev pub Action : Type 0 → Type 0
  Action A = CoordinatorAdapter → Outcome AdapterError A × CoordinatorAdapter

module _ {Value : Type 0} {st : CoordinatorStorage Value} where
  abbrev pub continue :
      {A B : Type 0}
      → Outcome AdapterError A × CoordinatorAdapter st
      → (A → Action st B)
      → Outcome AdapterError B × CoordinatorAdapter st
  continue (ok x, a) f = f x a
  continue (err e, a) f = (err e, a)
  continue (panic, a) f = (panic, a)

  infixl 5 ◌>>=◌ ◌>>◌
  abbrev pub ◌>>=◌ : {A B : Type 0} → Action st A → (A → Action st B) → Action st B
  (m >>= f) a = continue (m a) f

  abbrev pub ◌>>◌ : {B : Type 0} → Action st (Unit {0}) → Action st B → Action st B
  m >> k = m >>= λ _. k

  abbrev pub give : {A : Type 0} → Outcome AdapterError A → Action st A
  give out a = (out, a)

  abbrev pub call : {A : Type 0} → Method st A → Action st A
  call method a =
      let (out, c) = method a.coordinator in (from_storage out, record a { coordinator = c })

  unfoldable pub assert_within_rate_limit : ℤ → Str → Action st (Unit {0})
  assert_within_rate_limit now client_pubkey a =
      let (allowed, rl) = check a.rate_limiter client_pubkey now in
      (
        (if allowed
            then ok tt
            else reject (log_rejection a.abuse.log_rejections client_pubkey) rate_limit_exceeded),
        record a { rate_limiter = rl },
      )

  -- The eviction loop of the quota.
  unfoldable pub remove_each : List (PublishedKeyPackageRecord Value) → Action st (Unit {0})
  remove_each [] = give (ok tt)
  remove_each (r ∷ rs) = call (remove_key_package st r.key_package_ref) >>= λ _. remove_each rs

  -- The rejection of `enforce_key_package_quota`, if the quota is over its limit.
  abbrev pub reject_over : Bool → Str → Action st (Unit {0})
  reject_over over stable_pubkey a = (
    (if over
        then reject (log_rejection a.abuse.log_rejections stable_pubkey) quota_exceeded
        else ok tt),
    a,
  )

  -- `saturating_sub` is `-` on ℕ.
  abbrev pub enforce_on :
      Str
      → Bool
      → KeyPackageQuotaConfig
      → List (PublishedKeyPackageRecord Value)
      → Action st (Unit {0})
  enforce_on stable_pubkey true quota records =
      let max_per = quota.max_per_identity in
      let max_last_resort = quota.max_last_resort_per_identity in
      let existing = retain is_last_resort_record records in
      let to_remove = length existing - max_last_resort + 1 in
      let room =
        if ltb 0 max_last_resort && leb max_last_resort (length existing)
        then remove_each (take to_remove existing)
        else give (ok tt) in
      let kept =
        if ltb (length existing) (max_last_resort - 1)
        then length existing
        else max_last_resort - 1 in
      let over = ltb 0 max_per && ltb max_per (length records - length existing + kept + 1) in
      room >> reject_over over stable_pubkey
  enforce_on stable_pubkey false quota records =
      let max_per = quota.max_per_identity in
      reject_over (ltb 0 max_per && leb max_per (length records)) stable_pubkey

  unfoldable pub enforce_key_package_quota : Str → Bool → Action st (Unit {0})
  unfolding remove_each
  enforce_key_package_quota stable_pubkey incoming_is_last_resort a =
      (call (list_key_packages_for_identity st stable_pubkey)
          >>= enforce_on stable_pubkey incoming_is_last_resort a.abuse.key_package_quota)
        a
