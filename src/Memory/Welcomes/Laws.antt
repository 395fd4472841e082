-- ===== src/Memory/Welcomes/Laws.antt =====
-- The welcome queue of one identity under each operation.
use cordn_rs.Common.{
  ℕ, ◌+◌, ◌≡◌, refl, sym, ap, none, some, List, [], ◌∷◌, ◌++◌, inl, inr, Option-cases, Bool-cases,
  ok, Str, str_discrete, str_eq, any, retain, is_empty, arith, ◌&&◌, if◌then◌else◌, Bool, not,
}
use cordn_rs.Common.Int.{ℤ, pos, leb_ℤ, int_eq}
use cordn_rs.Common.Assoc.{IsMap, lookup}
use cordn_rs.Common.Buckets.{
  total, bucket, refile, refile-IsMap, bucket-refile, bucket-push, sieve-IsMap, bucket-sieve,
  retain_each, remove_all-sieve, deleted-total,
}
use cordn_rs.Types.{WelcomeQueueRecord, ConsumedWelcomeRef}
use cordn_rs.Memory.State.{InMemoryInner}
use cordn_rs.Memory.Welcomes.{
  store_welcome, is_unconsumed, fetch_pending_welcomes, delete_expired_welcomes,
}

-- `retain` by no reference keeps everything, so the test on an empty slice changes nothing.
pub unconsumed-nil : (rs : List WelcomeQueueRecord) → retain (is_unconsumed []) rs ≡ rs
unfolding retain any
unconsumed-nil [] = refl
unconsumed-nil (r ∷ rs) = ap (◌∷◌ r) (unconsumed-nil rs)

kept-retain :
    (consumed : List ConsumedWelcomeRef) (rs : List WelcomeQueueRecord)
    → (if is_empty consumed then rs else retain (is_unconsumed consumed) rs)
      ≡ retain (is_unconsumed consumed) rs
kept-retain [] rs = sym (unconsumed-nil rs)
kept-retain (c ∷ cs) rs = refl

-- None of the references names the key package and the time of the welcome.
abbrev pub outlasts : List ConsumedWelcomeRef → WelcomeQueueRecord → Bool
outlasts consumed r = not (
    any
      (λ c.
        str_eq c.key_package_reference r.key_package_reference && int_eq c.created_at r.created_at)
      consumed)

module _ {Value : Type 0} where
  -- the welcomes queued for an identity, oldest first
  abbrev pub pending : InMemoryInner Value → Str → List WelcomeQueueRecord
  pending s pk = bucket str_discrete pk s.welcomes_by_identity

  abbrev pub IsQueue : InMemoryInner Value → Type 0
  IsQueue s = IsMap s.welcomes_by_identity

  -- Storing a welcome appends it to the queue of its target, and to no other.
  pub store_welcome_lem :
      (r : WelcomeQueueRecord) (s : InMemoryInner Value) (pk : Str)
      → ((store_welcome r s).0 ≡ ok r)
        × (pending (store_welcome r s).1 pk
            ≡ (if str_eq r.target_stable_pubkey pk then pending s pk ++ r ∷ [] else pending s pk))
  unfolding store_welcome
  store_welcome_lem r s pk = (
    refl,
    ground (arith, bucket-push str_discrete r.target_stable_pubkey pk r s.welcomes_by_identity),
  )

  fetch_found :
      (pk : Str) (consumed : List ConsumedWelcomeRef) (s : InMemoryInner Value)
      {rs : List WelcomeQueueRecord}
      → lookup str_discrete pk s.welcomes_by_identity ≡ some rs
      → fetch_pending_welcomes pk consumed s ≡ (
        ok (retain (is_unconsumed consumed) rs),
        record s {
          welcomes_by_identity =
              refile str_discrete pk (retain (is_unconsumed consumed) rs) s.welcomes_by_identity;
        },
      )
  unfolding fetch_pending_welcomes refile
  fetch_found pk consumed s {rs} h = ground (arith, kept-retain consumed rs)

  fetch_missing :
      (pk : Str) (consumed : List ConsumedWelcomeRef) (s : InMemoryInner Value)
      → lookup str_discrete pk s.welcomes_by_identity ≡ none
      → fetch_pending_welcomes pk consumed s ≡ (ok [], s)
  unfolding fetch_pending_welcomes
  fetch_missing pk consumed s h = ground arith

  -- A fetch returns what is queued for the caller and was not consumed, in order. Afterwards just that
  -- is queued for the caller, and the queue of everybody else is what it was.
  pub fetch_pending_welcomes_lem :
      (pk : Str) (consumed : List ConsumedWelcomeRef) (s : InMemoryInner Value)
      → IsQueue s
      → ((fetch_pending_welcomes pk consumed s).0 ≡ ok (retain (outlasts consumed) (pending s pk)))
        × ((j : Str)
            → pending (fetch_pending_welcomes pk consumed s).1 j
              ≡ (if str_eq pk j then retain (outlasts consumed) (pending s j) else pending s j))
        × IsQueue (fetch_pending_welcomes pk consumed s).1
  unfolding retain
  fetch_pending_welcomes_lem pk consumed s w =
      elim (Option-cases (lookup str_discrete pk s.welcomes_by_identity)) [
        | inl missing ↦
            rw (fetch_missing pk consumed s missing, missing) (refl, (λ j. ground arith), w)
        | inr (rs, found) ↦
            let kept = retain (is_unconsumed consumed) rs in
            let m = s.welcomes_by_identity in
            rw (fetch_found pk consumed s found, found)
              (
                refl,
                (λ j. ground (arith, bucket-refile str_discrete pk j kept m w found)),
                refile-IsMap str_discrete pk kept m w,
              )
      ]

  -- An expiry with a positive threshold drops from every queue just the welcomes older than it, and
  -- counts them; with a threshold of 0 or less nothing changes.
  pub delete_expired_welcomes_lem :
      (t : ℤ) (s : InMemoryInner Value)
      → IsQueue s
      → (n : ℕ) × ((delete_expired_welcomes t s).0 ≡ ok n)
        × (n + total (delete_expired_welcomes t s).1.welcomes_by_identity
            ≡ total s.welcomes_by_identity)
        × ((j : Str)
            → pending (delete_expired_welcomes t s).1 j ≡ (
                if leb_ℤ t (pos 0)
                then pending s j
                else retain (λ r. leb_ℤ t r.created_at) (pending s j)))
        × IsQueue (delete_expired_welcomes t s).1
  unfolding delete_expired_welcomes
  delete_expired_welcomes_lem t s w =
      let m = s.welcomes_by_identity in
      let keep = λ (r : WelcomeQueueRecord). leb_ℤ t r.created_at in
      elim (Bool-cases (leb_ℤ t (pos 0))) [
        | inl off ↦ rw off (0, refl, omega arith, (λ j. refl), w)
        | inr on ↦
            rw (on, remove_all-sieve str_discrete keep m w)
              (
                (retain_each keep m).0,
                refl,
                deleted-total str_discrete keep m,
                (λ j. bucket-sieve str_discrete keep j m w),
                sieve-IsMap str_discrete keep m w,
              )
      ]
