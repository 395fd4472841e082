-- ===== src/Adapter/Binding.antt =====
-- What a published key package is bound to.
use cordn_rs.Common.{
  ℕ, ◌≡◌, refl, Bool, true, false, Option, none, some, List, Str, Outcome, ok, err, panic, str_eq,
  arith, ◌∙◌,
}
use cordn_rs.Common.Int.{ℤ}
use cordn_rs.Storage.{CoordinatorStorage}
use cordn_rs.Adapter.Mapping.{require, as_key_package, ok_or}
use cordn_rs.MlsParse.{ParsedKeyPackage, parse_key_package, Parse}
use cordn_rs.Contracts.{NostrEvent, PublishKeyPackageInput, PublishKeyPackageOutput}
use cordn_rs.Adapter.{
  Codec, Action, CoordinatorAdapter, continue, AdapterError, assert_within_rate_limit, give,
  require_non_empty, kp_ref, kp_64, invalid_key_package, missing_publication_event, signer_mismatch,
  identity_mismatch,
}
use cordn_rs.Adapter.Methods.{publish_key_package, admit_key_package}

module _ {Value : Type 0} {st : CoordinatorStorage Value} where
  -- A chain that comes to a value has come to one at each step.
  continue-ok :
      {A B : Type 0} (r : Outcome AdapterError A × CoordinatorAdapter st) (f : A → Action st B)
      {y : B}
      → (continue r f).0 ≡ ok y
      → (x : A) × (r.0 ≡ ok x) × ((f x r.1).0 ≡ ok y)
  continue-ok (ok x, a) f h = (x, refl, h)
  continue-ok (err e, a) f h = absurd (cc)
  continue-ok (panic, a) f h = absurd (cc)

guard_ok : (b : Bool) (e : AdapterError) {x : Unit {0}} → require b e ≡ ok x → b ≡ true
guard_ok true e h = refl
guard_ok false e h = absurd (cc)

as_key_package-ok :
    (p : Parse ParsedKeyPackage) {parsed : ParsedKeyPackage}
    → as_key_package p ≡ ok parsed
    → p ≡ ok parsed
as_key_package-ok (ok q) h = ground arith
as_key_package-ok (err e) h = absurd (cc)
as_key_package-ok panic h = absurd (cc)

ok_or-ok : {A : Type 0} (o : Option A) (e : AdapterError) {x : A} → ok_or o e ≡ ok x → o ≡ some x
ok_or-ok none e h = absurd (cc)
ok_or-ok (some y) e h = ground arith

pub str_eq-eq : (x y : Str) → str_eq x y ≡ true → x ≡ y
str_eq-eq x y h = ground arith

-- The package that a publish files: decoded from the input, and claimed by the caller in its own
-- credential and in the signer of its publication event.
pub record Bound {Value : Type 0} (codec : Codec Value) (input : PublishKeyPackageInput)
    (client_pubkey : Str) (event : Option NostrEvent) (bytes : List ℕ) (parsed : ParsedKeyPackage)
    : Type 0 where
  pub decoded : codec.b64_decode input.kp_64 ≡ some bytes
  pub parses : parse_key_package bytes ≡ ok parsed
  pub identity : parsed.credential_identity ≡ client_pubkey
  pub signer : (signed : NostrEvent) × (event ≡ some signed) × (signed.pubkey ≡ client_pubkey)

module _ {Value : Type 0} {st : CoordinatorStorage Value} (codec : Codec Value) where
  admit-Bound :
      (input : PublishKeyPackageInput) (pk : Str) (event : Option NostrEvent)
      (a : CoordinatorAdapter st) {r : List ℕ × ParsedKeyPackage × NostrEvent}
      → (admit_key_package codec input pk event a).0 ≡ ok r
      → (bytes : List ℕ) × (parsed : ParsedKeyPackage) × Bound codec input pk event bytes parsed
  unfolding admit_key_package
  admit-Bound input pk event a h =
      let (u1, ref_given, h1) = continue-ok (give (require_non_empty input.kp_ref kp_ref) a) _ h in
      let (u2, bytes_given, h2) = continue-ok (give (require_non_empty input.kp_64 kp_64) a) _ h1 in
      let (bytes, decoded, h3) =
        continue-ok (give (ok_or (codec.b64_decode input.kp_64) invalid_key_package) a) _ h2 in
      let (parsed, parses, h4) =
        continue-ok (give (as_key_package (parse_key_package bytes)) a) _ h3 in
      let (signed, given, h5) = continue-ok (give (ok_or event missing_publication_event) a) _ h4 in
      let (u3, by_caller, h6) =
        continue-ok (give (require (str_eq signed.pubkey pk) signer_mismatch) a) _ h5 in
      let (u4, for_caller, h7) =
        continue-ok
          (give (require (str_eq parsed.credential_identity signed.pubkey) identity_mismatch) a) _
          h6 in
      let signer =
        str_eq-eq signed.pubkey pk (guard_ok (str_eq signed.pubkey pk) signer_mismatch by_caller) in
      (
        bytes,
        parsed,
        record {
          decoded = ok_or-ok (codec.b64_decode input.kp_64) invalid_key_package decoded;
          parses = as_key_package-ok (parse_key_package bytes) parses;
          identity =
              str_eq-eq parsed.credential_identity signed.pubkey (
                guard_ok (str_eq parsed.credential_identity signed.pubkey) identity_mismatch
                  for_caller)
              ∙ signer;
          signer = (signed, ok_or-ok event missing_publication_event given, signer);
        },
      )

  -- A publish that succeeds was given bytes that decode and parse to a key package whose credential names the
  -- caller, and a publication event whose pubkey is the caller.
  pub publish_key_package-Bound :
      (checked now : ℤ) (input : PublishKeyPackageInput) (pk : Str) (event : Option NostrEvent)
      (a : CoordinatorAdapter st) {out : PublishKeyPackageOutput}
      → (publish_key_package codec checked now input pk event a).0 ≡ ok out
      → (bytes : List ℕ) × (parsed : ParsedKeyPackage) × Bound codec input pk event bytes parsed
  unfolding publish_key_package
  publish_key_package-Bound checked now input pk event a h =
      let (u, limited, h1) = continue-ok (assert_within_rate_limit checked pk a) _ h in
      let a' = (assert_within_rate_limit checked pk a).1 in
      let (r, admitted, h2) = continue-ok (admit_key_package codec input pk event a') _ h1 in
      admit-Bound input pk event a' admitted
