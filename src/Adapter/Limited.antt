-- ===== src/Adapter/Limited.antt =====
-- What a denied caller gets, from every method.
use cordn_rs.Common.{
  ◌≡◌, refl, Bool, true, false, ◌&&◌, ℕ, zero, suc, ◌≤◌, leb, ltb, length, get_elem?, Option, none,
  some, [], ◌∷◌, inl, inr, Str, Outcome, ok, err, panic, arith, if◌then◌else◌, Bool-cases,
  Option-cases,
}
use cordn_rs.Common.Int.{ℤ}
use cordn_rs.Storage.{CoordinatorStorage}
use cordn_rs.RateLimit.{check}
use cordn_rs.Contracts.{
  NostrEvent, PublishKeyPackageInput, ConsumeKeyPackageInput, RemoveKeyPackagesInput,
  FetchPendingWelcomesInput, StoreWelcomeInput, StoreJoinRequestInput,
  FetchManyPendingJoinRequestsInput, PostGroupMessageInput, FetchManyGroupMessagesInput,
  SubscribeManyGroupMessagesInput,
}
use cordn_rs.Adapter.{
  Codec, Action, CoordinatorAdapter, continue, Guard, reject, rate_limit_exceeded, log_rejection,
  AdapterError, assert_within_rate_limit, is_char_boundary, not,
}
use cordn_rs.Adapter.Methods.{
  publish_key_package, consume_key_package, fetch_pending_welcomes, store_welcome,
  post_group_message, fetch_many_group_messages, subscribe_many_start, remove_key_packages,
  list_available_key_packages, store_join_request, fetch_many_pending_join_requests,
}

-- Byte 12 continues a character, so that the pubkey cannot be cut there.
abbrev pub is_cut_inside : Str → Bool
is_cut_inside client_pubkey = elim (get_elem? client_pubkey 12) [
  | none ↦ false
  | some byte ↦ leb 0x80 byte && ltb byte 0xc0
]

-- The rejection; a panic if it is logged with a prefix that cuts a character in two.
abbrev pub rejection : {A : Type 0} → Bool → Str → Outcome AdapterError A
rejection log_rejections client_pubkey =
    if log_rejections && is_cut_inside client_pubkey then panic else err rate_limit_exceeded

get_elem?-end : (s : Str) → get_elem? s (length s) ≡ none
get_elem?-end [] = refl
get_elem?-end (b ∷ s) = get_elem?-end s

get_elem?-past : (s : Str) (i : ℕ) → length s ≤ i → get_elem? s i ≡ none
get_elem?-past [] i h = refl
get_elem?-past (b ∷ s) zero h = absurd (omega arith)
get_elem?-past (b ∷ s) (suc i) h = get_elem?-past s i (omega arith)

get_elem?-none : (s : Str) (i : ℕ) → get_elem? s i ≡ none → length s ≤ i
get_elem?-none [] i h = omega arith
get_elem?-none (b ∷ s) zero h = absurd (cc)
get_elem?-none (b ∷ s) (suc i) h = omega (arith, get_elem?-none s i h)

is_char_boundary-end : (s : Str) → is_char_boundary s (length s) ≡ true
is_char_boundary-end s = rw (is_char_boundary, get_elem?-end s) (ground arith)

is_cut_inside-short : (s : Str) → length s ≤ 12 → is_cut_inside s ≡ false
is_cut_inside-short s h = rw (is_cut_inside, get_elem?-past s 12 h) refl

-- Where the pubkey is cut at byte 12, a boundary is what is not inside a character.
is_char_boundary-cut : (s : Str) → 12 ≤ length s → is_char_boundary s 12 ≡ not (is_cut_inside s)
is_char_boundary-cut s h = elim (Option-cases (get_elem? s 12)) [
  | inl missing ↦
      let short = get_elem?-none s 12 missing in
      rw (is_char_boundary, is_cut_inside, missing) (ground (arith, short, h))
  | inr (byte, there) ↦ rw (is_char_boundary, is_cut_inside, there) (ground arith)
]

reject-log_rejection :
    {A : Type 0} (b : Bool) (s : Str)
    → reject {A = A} (log_rejection b s) rate_limit_exceeded ≡ rejection b s
unfolding log_rejection
reject-log_rejection false s = refl
reject-log_rejection {A = A} true s = elim (Bool-cases (ltb (length s) 12)) [
  | inl short ↦
      let whole = is_cut_inside-short s (ground (arith, short)) in
      rw (short, is_char_boundary-end s, rejection, whole) refl
  | inr long ↦
      rw (long, is_char_boundary-cut s (ground (arith, long)), rejection) (cases (is_cut_inside s))
]
  where
    cases :
        (c : Bool)
        → reject {A = A} (if not c then ok tt else panic) rate_limit_exceeded
          ≡ (if c then panic else err rate_limit_exceeded)
    cases true = refl
    cases false = refl

module _ {Value : Type 0} {st : CoordinatorStorage Value} where
  -- The answer is the rejection, or the panic of its log, and the coordinator is as it was.
  abbrev pub Denied :
      {A : Type 0}
      → CoordinatorAdapter st
      → Str
      → Outcome AdapterError A × CoordinatorAdapter st
      → Type 0
  Denied a client_pubkey (out, a') =
      (out ≡ rejection a.abuse.log_rejections client_pubkey) × (a'.coordinator ≡ a.coordinator)

  rejected :
      {A : Type 0} (g : Guard) (e : AdapterError) (a : CoordinatorAdapter st)
      (k : Unit {0} → Action st A)
      → continue (reject g e, a) k ≡ (reject g e, a)
  rejected (ok x) e a k = refl
  rejected (err e') e a k = refl
  rejected panic e a k = refl

  denied :
      {A : Type 0} (a : CoordinatorAdapter st) (now : ℤ) (pk : Str) (k : Unit {0} → Action st A)
      → (check a.rate_limiter pk now).0 ≡ false
      → Denied a pk (continue (assert_within_rate_limit now pk a) k)
  unfolding assert_within_rate_limit
  denied a now pk k h =
      rw
        (
          h,
          rejected (log_rejection a.abuse.log_rejections pk) rate_limit_exceeded
              (record a { rate_limiter = (check a.rate_limiter pk now).1 }) k,
        )
        (reject-log_rejection a.abuse.log_rejections pk, refl)

module _ {Value : Type 0} {st : CoordinatorStorage Value} (codec : Codec Value) where
  -- When the rate limiter denies the caller, each method leaves the coordinator, and so the storage and
  -- the subscribers, as it was; it answers with the rejection, unless rejections are logged and byte 12 of
  -- the caller's pubkey lies inside a character: then it panics.
  pub methods-Denied :
      (a : CoordinatorAdapter st) (checked now : ℤ) (pk : Str)
      → (check a.rate_limiter pk checked).0 ≡ false
      → ((i : PublishKeyPackageInput) (event : Option NostrEvent)
          → Denied a pk (publish_key_package codec checked now i pk event a))
        × ((i : ConsumeKeyPackageInput) → Denied a pk (consume_key_package codec checked i pk a))
        × Denied a pk (list_available_key_packages checked pk a)
        × ((i : RemoveKeyPackagesInput) → Denied a pk (remove_key_packages checked i pk a))
        × ((i : FetchPendingWelcomesInput)
            → Denied a pk (fetch_pending_welcomes codec checked i pk a))
        × ((i : StoreWelcomeInput) → Denied a pk (store_welcome codec checked now i pk a))
        × ((i : StoreJoinRequestInput) → Denied a pk (store_join_request checked now i pk a))
        × ((i : FetchManyPendingJoinRequestsInput)
            → Denied a pk (fetch_many_pending_join_requests checked i pk a))
        × ((i : PostGroupMessageInput) → Denied a pk (post_group_message codec checked now i pk a))
        × ((i : FetchManyGroupMessagesInput)
            → Denied a pk (fetch_many_group_messages codec checked i pk a))
        × ((i : SubscribeManyGroupMessagesInput)
            → Denied a pk (subscribe_many_start codec checked i pk a))
  unfolding publish_key_package consume_key_package list_available_key_packages remove_key_packages
      fetch_pending_welcomes store_welcome store_join_request fetch_many_pending_join_requests
      post_group_message fetch_many_group_messages subscribe_many_start
  methods-Denied a checked now pk h = (
    (λ i event. denied a checked pk _ h),
    (λ i. denied a checked pk _ h),
    denied a checked pk _ h,
    (λ i. denied a checked pk _ h),
    (λ i. denied a checked pk _ h),
    (λ i. denied a checked pk _ h),
    (λ i. denied a checked pk _ h),
    (λ i. denied a checked pk _ h),
    (λ i. denied a checked pk _ h),
    (λ i. denied a checked pk _ h),
    (λ i. denied a checked pk _ h),
  )
