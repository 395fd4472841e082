-- ===== src/Adapter/Ownership.antt =====
-- Whose key packages `remove_key_packages` can touch, with the in-memory backend.
use cordn_rs.Common.{
  ◌≡◌, ◌≢◌, refl, sym, ◌∙◌, arith, Option, none, some, List, [], ◌∷◌, Str, str_eq, if◌then◌else◌,
  Bool-cases, Option-cases, inl, inr, find, Outcome, ok, err, panic, subst,
}
use cordn_rs.Common.Int.{ℤ}
use cordn_rs.Types.{PublishedKeyPackageRecord}
use cordn_rs.Storage.{memory_storage}
use cordn_rs.Memory.State.{InMemoryInner}
use cordn_rs.Memory.KeyPackages.{has_ref}
use cordn_rs.Memory.KeyPackages
use cordn_rs.Memory.KeyPackages.Filing.{IsWellFiled}
use cordn_rs.Memory.KeyPackages.Refinement.{
  stored, filed, get_key_package-find, remove_key_package_lem,
}
use cordn_rs.Coordinator.Service
use cordn_rs.Adapter.Binding.{str_eq-eq}
use cordn_rs.Contracts.{RemoveKeyPackagesInput}
use cordn_rs.Adapter.{
  CoordinatorAdapter, AdapterError, ◌>>=◌, ◌>>◌, unknown_key_package_ref,
  unauthorized_key_package_ref, continue, call, give, Action, assert_within_rate_limit, not,
  is_empty, invalid_input, must_be_non_empty, kp_refs,
}
use cordn_rs.Adapter.Mapping.{removed_ref, require, ok_or}
use cordn_rs.Adapter.Methods.{own_key_package, remove_loop, remove_key_packages}

abbrev pub MemoryAdapter : Type 0 → Type 0
MemoryAdapter Value = CoordinatorAdapter (memory_storage Value)

module _ {Value : Type 0} where
  abbrev pub state : MemoryAdapter Value → InMemoryInner Value
  state a = a.coordinator.storage

  -- The adapter with another state of the backend.
  abbrev pub with_state : InMemoryInner Value → MemoryAdapter Value → MemoryAdapter Value
  with_state s a = record a { coordinator = record a.coordinator { storage = s } }

  -- What `own_key_package` answers on the record that a ref finds.
  abbrev owned :
      Str
      → Str
      → Option (PublishedKeyPackageRecord Value)
      → Outcome AdapterError (PublishedKeyPackageRecord Value)
  owned ref pk none = err (unknown_key_package_ref ref)
  owned ref pk (some r) =
      if str_eq r.stable_pubkey pk then ok r else err (unauthorized_key_package_ref ref)

  -- The two calls of the loop.
  get_call :
      (ref : Str) (a : MemoryAdapter Value)
      → call (Service.get_key_package (memory_storage Value) ref) a
        ≡ (ok (find (has_ref ref) (stored (state a))), a)
  unfolding Service.get_key_package
  get_call ref a = rw (get_key_package-find ref (state a)) refl

  answer_owned :
      (ref pk : Str) (a : MemoryAdapter Value) (o : Option (PublishedKeyPackageRecord Value))
      → continue
          (ok o, a)
          (λ found. give (ok_or found (unknown_key_package_ref ref)) >>= λ r.
            give (require (str_eq r.stable_pubkey pk) (unauthorized_key_package_ref ref))
            >> give (ok r))
        ≡ (owned ref pk o, a)
  answer_owned ref pk a none = refl
  answer_owned ref pk a (some r) = elim (Bool-cases (str_eq r.stable_pubkey pk)) [
    | inl mine ↦ rw mine refl
    | inr not_mine ↦ rw not_mine refl
  ]

  own_key_package_lem :
      (ref pk : Str) (a : MemoryAdapter Value)
      → own_key_package ref pk a ≡ (owned ref pk (find (has_ref ref) (stored (state a))), a)
  unfolding own_key_package
  own_key_package_lem ref pk a =
      rw (get_call ref a) (answer_owned ref pk a (find (has_ref ref) (stored (state a))))

  remove_call :
      (ref : Str) (a : MemoryAdapter Value)
      → IsWellFiled (state a).key_packages_by_identity
      → call (Service.remove_key_package (memory_storage Value) ref) a ≡ (
        ok (find (has_ref ref) (stored (state a))),
        with_state (KeyPackages.remove_key_package ref (state a)).1 a,
      )
  unfolding Service.remove_key_package
  remove_call ref a w = rw (remove_key_package_lem ref (state a) w).0 refl

  -- The records of every identity but one are as they were, and the map is well filed.
  abbrev pub OthersKept : Str → MemoryAdapter Value → MemoryAdapter Value → Type 0
  OthersKept pk a a' =
      ((j : Str) → pk ≢ j → filed (state a') j ≡ filed (state a) j)
      × IsWellFiled (state a').key_packages_by_identity

  removed-others :
      (ref pk : Str) (a : MemoryAdapter Value) (r : PublishedKeyPackageRecord Value)
      → IsWellFiled (state a).key_packages_by_identity
      → find (has_ref ref) (stored (state a)) ≡ some r
      → r.stable_pubkey ≡ pk
      → OthersKept pk a (with_state (KeyPackages.remove_key_package ref (state a)).1 a)
  removed-others ref pk a r w found mine =
      let (answer, (all, each), filing) = remove_key_package_lem ref (state a) w in
      ((λ j n. rw (each j, found, mine) (ground arith)), filing)

  OthersKept-trans :
      (pk : Str) (a b c : MemoryAdapter Value)
      → OthersKept pk a b
      → OthersKept pk b c
      → OthersKept pk a c
  OthersKept-trans pk a b c h k = ((λ j n. k.0 j n ∙ h.0 j n), k.1)

  same_state :
      {A B : Type 0} (out : Outcome AdapterError A × MemoryAdapter Value) (f : A → B)
      → (continue out (λ x. give (ok (f x)))).1 ≡ out.1
  same_state (ok x, a) f = refl
  same_state (err e, a) f = refl
  same_state (panic, a) f = refl

  remove_loop-others :
      (pk : Str) (refs : List Str) (a : MemoryAdapter Value)
      → IsWellFiled (state a).key_packages_by_identity
      → OthersKept pk a (remove_loop pk refs a).1
  unfolding remove_loop
  remove_loop-others pk [] a w = (λ j n. refl, w)
  remove_loop-others pk (ref ∷ refs) a w =
      let o = find (has_ref ref) (stored (state a)) in
      elim (Option-cases o) [
        | inl missing ↦ rw (own_key_package_lem ref pk a, missing) (λ j n. refl, w)
        | inr (r, found) ↦ elim (Bool-cases (str_eq r.stable_pubkey pk)) [
          | inr not_mine ↦ rw (own_key_package_lem ref pk a, found, not_mine) (λ j n. refl, w)
          | inl mine ↦
              let a' = with_state (KeyPackages.remove_key_package ref (state a)).1 a in
              let one = removed-others ref pk a r w found (str_eq-eq r.stable_pubkey pk mine) in
              let more =
                OthersKept-trans pk a a' (remove_loop pk refs a').1 one
                  (remove_loop-others pk refs a' one.1) in
              rw (own_key_package_lem ref pk a, found, mine, remove_call ref a w)
                (subst (OthersKept pk a)
                  (sym (same_state (remove_loop pk refs a') (λ rest. removed_ref ref o ∷ rest)))
                  more)
        ]
      ]

  then-kept :
      {A B : Type 0} (pk : Str) (a : MemoryAdapter Value)
      (r : Outcome AdapterError A × MemoryAdapter Value) (f : A → Action (memory_storage Value) B)
      → OthersKept pk a r.1
      → ((x : A) → OthersKept pk r.1 (f x r.1).1)
      → OthersKept pk a (continue r f).1
  then-kept pk a (ok x, b) f h k = OthersKept-trans pk a b (f x b).1 h (k x)
  then-kept pk a (err e, b) f h k = h
  then-kept pk a (panic, b) f h k = h

  assert-kept :
      (checked : ℤ) (pk : Str) (a : MemoryAdapter Value)
      → IsWellFiled (state a).key_packages_by_identity
      → OthersKept pk a (assert_within_rate_limit checked pk a).1
  unfolding assert_within_rate_limit
  assert-kept checked pk a w = (λ j n. refl, w)

  -- On the in-memory backend, whatever refs a caller names and whatever `remove_key_packages` comes to, it
  -- leaves the key packages of every other identity as they were, in their order; the map was well filed,
  -- and still is.
  pub remove_key_packages-others :
      (checked : ℤ) (input : RemoveKeyPackagesInput) (pk : Str) (a : MemoryAdapter Value)
      → IsWellFiled (state a).key_packages_by_identity
      → OthersKept pk a (remove_key_packages checked input pk a).1
  unfolding remove_key_packages
  remove_key_packages-others checked input pk a w =
      let kept = assert-kept checked pk a w in
      then-kept pk a (assert_within_rate_limit checked pk a) _ kept (λ u.
        let b = (assert_within_rate_limit checked pk a).1 in
        then-kept pk b
          (give (require (not (is_empty input.kp_refs)) (invalid_input (must_be_non_empty kp_refs)))
            b)
          _ (λ j n. refl, kept.1)
          (λ v.
            subst (OthersKept pk b)
              (sym (
                same_state (remove_loop pk input.kp_refs b)
                  (λ removed. record { kp_refs = removed })))
              (remove_loop-others pk input.kp_refs b kept.1)))
