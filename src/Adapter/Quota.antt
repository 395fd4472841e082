-- ===== src/Adapter/Quota.antt =====
-- The quota of key packages to an identity, with the in-memory backend.
use cordn_rs.Common.{
  ℕ, ◌≤◌, ◌<◌, ◌≡◌, refl, ap, sym, subst, ◌∙◌, arith, Bool, true, false, Option, List, [], ◌∷◌, Str,
  str_eq, str_discrete, if◌then◌else◌, ltb, leb, ◌&&◌, length, length-append, Outcome, ok, err,
  panic,
}
use cordn_rs.Common.Int.{ℤ}
use cordn_rs.Types.{PublishedKeyPackageRecord}
use cordn_rs.Storage.{CoordinatorStorage}
use cordn_rs.Memory.KeyPackages
use cordn_rs.Memory.KeyPackages.Filing.{IsWellFiled}
use cordn_rs.Memory.KeyPackages.Refinement.{filed}
use cordn_rs.Memory.KeyPackages.Consume.{publish_key_package_lem}
use cordn_rs.Coordinator.Service
use cordn_rs.MlsParse.{parse_key_package, ParsedKeyPackage}
use cordn_rs.Contracts.{NostrEvent, PublishKeyPackageInput, PublishKeyPackageOutput}
use cordn_rs.Adapter.Mapping.{require, ok_or, as_key_package, unwrap_or}
use cordn_rs.Adapter.{
  require_non_empty, kp_ref, kp_64, invalid_key_package, missing_publication_event, signer_mismatch,
  identity_mismatch, Codec, CoordinatorAdapter, AdapterError, Action, Guard, continue, reject,
  quota_exceeded, log_rejection, assert_within_rate_limit, enforce_key_package_quota,
}
use cordn_rs.Adapter.Methods.{publish_key_package, admit_key_package}
use cordn_rs.Adapter.Ownership.{MemoryAdapter, state, with_state}

module _ {Value : Type 0} {st : CoordinatorStorage Value} where
  -- A chain that comes to a value goes on from what its first step comes to.
  continue-through :
      {A B : Type 0} (r : Outcome AdapterError A × CoordinatorAdapter st) (f : A → Action st B)
      {y : B}
      → (continue r f).0 ≡ ok y
      → (x : A) × (r.0 ≡ ok x) × (continue r f ≡ f x r.1)
  continue-through (ok x, a) f h = (x, refl, refl)
  continue-through (err e, a) f h = absurd (cc)
  continue-through (panic, a) f h = absurd (cc)

  give-Same :
      {A B : Type 0} (out : Outcome AdapterError A) (f : A → Action st B)
      (a : CoordinatorAdapter st)
      → ((x : A) → (f x a).1 ≡ a)
      → (continue (out, a) f).1 ≡ a
  give-Same (ok x) f a h = h x
  give-Same (err e) f a h = refl
  give-Same panic f a h = refl

  admit-Same :
      (codec : Codec Value) (input : PublishKeyPackageInput) (pk : Str) (event : Option NostrEvent)
      (a : CoordinatorAdapter st)
      → (admit_key_package codec input pk event a).1 ≡ a
  unfolding admit_key_package
  admit-Same codec input pk event a = give-Same (require_non_empty input.kp_ref kp_ref) _ a (λ u1.
      give-Same (require_non_empty input.kp_64 kp_64) _ a (λ u2.
        give-Same (ok_or (codec.b64_decode input.kp_64) invalid_key_package) _ a (λ bytes.
          give-Same (as_key_package (parse_key_package bytes)) _ a (λ parsed.
            give-Same (ok_or event missing_publication_event) _ a (λ signed.
              give-Same (require (str_eq signed.pubkey pk) signer_mismatch) _ a (λ u3.
                give-Same
                  (require (str_eq parsed.credential_identity signed.pubkey) identity_mismatch) _ a
                  (λ u4. refl)))))))

abbrev last_resort_of : Outcome AdapterError PublishKeyPackageOutput → Bool
last_resort_of (ok out) = out.last_resort
last_resort_of (err e) = true
last_resort_of panic = true

reject-ne_ok : {A : Type 0} (g : Guard) (e : AdapterError) {x : A} → reject g e ≡ ok x → ⊥
reject-ne_ok (ok u) e h = cc
reject-ne_ok (err e') e h = cc
reject-ne_ok panic e h = cc

not_over :
    (over : Bool) (g : Guard) (e : AdapterError) {x : Unit {0}}
    → (if over then reject g e else ok tt) ≡ ok x
    → over ≡ false
not_over true g e h = absurd (reject-ne_ok g e h)
not_over false g e h = refl

module _ {Value : Type 0} where
  enforce-regular :
      (pk : Str) (a : MemoryAdapter Value)
      → enforce_key_package_quota pk false a ≡ (
        (if ltb 0 a.abuse.key_package_quota.max_per_identity
              && leb a.abuse.key_package_quota.max_per_identity (length (filed (state a) pk))
            then reject (log_rejection a.abuse.log_rejections pk) quota_exceeded
            else ok tt),
        a,
      )
  unfolding enforce_key_package_quota Service.list_key_packages_for_identity
      KeyPackages.list_key_packages_for_identity
  enforce-regular pk a = refl

  -- No identity has more packages than the quota allows.
  abbrev pub IsWithin : MemoryAdapter Value → Type 0
  IsWithin a = (j : Str) → length (filed (state a) j) ≤ a.abuse.key_package_quota.max_per_identity

  abbrev over_quota : Str → MemoryAdapter Value → Bool
  over_quota pk a =
      ltb 0 a.abuse.key_package_quota.max_per_identity
      && leb a.abuse.key_package_quota.max_per_identity (length (filed (state a) pk))

  abbrev published : PublishedKeyPackageRecord Value → MemoryAdapter Value → MemoryAdapter Value
  published r a = with_state (KeyPackages.publish_key_package r (state a)).1 a

  published-IsWithin :
      (r : PublishedKeyPackageRecord Value) (a : MemoryAdapter Value)
      → IsWellFiled (state a).key_packages_by_identity
      → IsWithin a
      → 0 < a.abuse.key_package_quota.max_per_identity
      → over_quota r.stable_pubkey a ≡ false
      → IsWithin (published r a)
  published-IsWithin r a w within pos room j =
      let (answer, each, filing) = publish_key_package_lem r (state a) w in
      let more = length-append (filed (state a) r.stable_pubkey) (r ∷ []) in
      let most = a.abuse.key_package_quota.max_per_identity in
      elim (str_discrete r.stable_pubkey j) [
        | yes e ↦
            subst (λ q. length (filed (state (published r a)) q) ≤ most) e
              (rw (each r.stable_pubkey) (ground (arith, more)))
        | no n ↦ rw (each j) (ground (arith, within j))
      ]

  abbrev filed_record :
      ℤ
      → PublishKeyPackageInput
      → List ℕ
      → ParsedKeyPackage
      → Value
      → PublishedKeyPackageRecord Value
  filed_record now input bytes parsed value = record {
    stable_pubkey = parsed.credential_identity;
    key_package_bytes = bytes;
    key_package_ref = input.kp_ref;
    is_last_resort = parsed.is_last_resort;
    published_at = now;
    publication_event = value;
  }

  -- On the in-memory backend, a publish of a regular package that succeeds keeps every identity within a
  -- quota above 0; the map was well filed.
  pub publish_key_package-IsWithin :
      (codec : Codec Value) (checked now : ℤ) (input : PublishKeyPackageInput) (pk : Str)
      (event : Option NostrEvent) (a : MemoryAdapter Value) {out : PublishKeyPackageOutput}
      → IsWellFiled (state a).key_packages_by_identity
      → IsWithin a
      → 0 < a.abuse.key_package_quota.max_per_identity
      → (publish_key_package codec checked now input pk event a).0 ≡ ok out
      → out.last_resort ≡ false
      → IsWithin (publish_key_package codec checked now input pk event a).1
  unfolding publish_key_package assert_within_rate_limit Service.publish_key_package
      KeyPackages.publish_key_package
  publish_key_package-IsWithin codec checked now input pk event a w within pos h lr =
      let a0 = (assert_within_rate_limit checked pk a).1 in
      let (u, limited, e0) = continue-through (assert_within_rate_limit checked pk a) _ h in
      let h0 = sym (ap (λ q. q.0) e0) ∙ h in
      let (r, admitted, e1) = continue-through (admit_key_package codec input pk event a0) _ h0 in
      let a1 = (admit_key_package codec input pk event a0).1 in
      let h1 = sym (ap (λ q. q.0) e1) ∙ h0 in
      let pid = r.1.credential_identity in
      let (v, checked_quota, e2) =
        continue-through (enforce_key_package_quota pid r.1.is_last_resort a1) _ h1 in
      let h2 = sym (ap (λ q. q.0) e2) ∙ h1 in
      let a2 = (enforce_key_package_quota pid r.1.is_last_resort a1).1 in
      let same : a1 ≡ a0 = admit-Same codec input pk event a0 in
      let regular : r.1.is_last_resort ≡ false = ap last_resort_of h2 ∙ lr in
      let enforced =
        ap (λ b. enforce_key_package_quota pid b a1) regular ∙ enforce-regular pid a1 in
      let room : over_quota pid a1 ≡ false =
        not_over (over_quota pid a1) (log_rejection a1.abuse.log_rejections pid) quota_exceeded
          (sym (ap (λ q. q.0) enforced) ∙ checked_quota) in
      let unchanged : a2 ≡ a0 = ap (λ q. q.1) enforced ∙ same in
      let filed_now = filed_record now input r.0 r.1 (unwrap_or (codec.to_value r.2) codec.null) in
      let room0 = subst (λ q. over_quota pid q ≡ false) same room in
      subst IsWithin (sym (ap (λ q. q.1) (e0 ∙ e1 ∙ e2))) (
        subst (λ q. IsWithin (published filed_now q)) (sym unchanged)
          (published-IsWithin filed_now a0 w within pos room0))
