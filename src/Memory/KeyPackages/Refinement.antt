-- ===== src/Memory/KeyPackages/Refinement.antt =====
-- The key-package operations against two views of the map that forget how it is filed: all records in
-- the order of `list_all_key_packages`, and the records of one identity, oldest first.
use cordn_rs.Common.{
  ℕ, ◌≡◌, refl, sym, ap, ◌∙◌, inl, inr, none, some, List, Bool, ok, Str, str_discrete, str_eq,
  arith, All, All-erase_first, Option-cases, remove_at, flatten, or_default, find, erase_first,
  position-found, All-find, erase_first-none, if◌then◌else◌,
}
use cordn_rs.Common.Assoc.{lookup, values}
use cordn_rs.Common.Buckets.{refile, refile-IsMap, bucket-refile}
use cordn_rs.Types.{PublishedKeyPackageRecord}
use cordn_rs.Memory.State.{InMemoryInner}
use cordn_rs.Memory.KeyPackages.{
  ByIdentity, Located, has_ref, found_record, locate_by_ref, take_at, get_key_package,
  remove_key_package,
}
use cordn_rs.Memory.KeyPackages.Filing.{
  Files, IsWellFiled, refile-IsFiled, filed_records, flatten-refile, find-located,
  locate_by_ref-found,
}

module _ {Value : Type 0} where
  -- all records, in the order of `list_all_key_packages`
  abbrev pub stored : InMemoryInner Value → List (PublishedKeyPackageRecord Value)
  stored s = flatten (values s.key_packages_by_identity)

  -- the records of one identity, oldest first
  abbrev pub filed : InMemoryInner Value → Str → List (PublishedKeyPackageRecord Value)
  filed s pk = or_default (lookup str_discrete pk s.key_packages_by_identity)

  -- The list of identity `j` with the first record that passes the test taken from `pk`'s.
  abbrev pub taken_from :
      (PublishedKeyPackageRecord Value → Bool)
      → Str
      → InMemoryInner Value
      → Str
      → List (PublishedKeyPackageRecord Value)
  taken_from p pk s j = if str_eq pk j then erase_first p (filed s j) else filed s j

  pub take_at-refile :
      (pk : Str) (i : ℕ) (m : ByIdentity Value)
      {records rest : List (PublishedKeyPackageRecord Value)} {r : PublishedKeyPackageRecord Value}
      → lookup str_discrete pk m ≡ some records
      → remove_at i records ≡ some (r, rest)
      → take_at pk i m ≡ ok (r, refile str_discrete pk rest m)
  unfolding take_at refile
  take_at-refile pk i m h k = rw (h, k)

  pub refile-IsWellFiled :
      (pk : Str) (rest : List (PublishedKeyPackageRecord Value)) (m : ByIdentity Value)
      → IsWellFiled m
      → All (Files pk) rest
      → IsWellFiled (refile str_discrete pk rest m)
  refile-IsWellFiled pk rest m w f =
      (refile-IsMap str_discrete pk rest m w.0, refile-IsFiled pk rest m w.1 f)

  -- What a successful `locate_by_ref` gives, and what taking the record there leaves.
  pub record Took (s : InMemoryInner Value) (ref : Str) (loc : Located Value) : Type 0 where
    pub rest : List (PublishedKeyPackageRecord Value)
    pub taken :
        take_at loc.stable_pubkey loc.index s.key_packages_by_identity
        ≡ ok (loc.found, refile str_discrete loc.stable_pubkey rest s.key_packages_by_identity)
    pub owner : loc.found.stable_pubkey ≡ loc.stable_pubkey
    pub filing : IsWellFiled (refile str_discrete loc.stable_pubkey rest s.key_packages_by_identity)
    pub all :
        flatten (values (refile str_discrete loc.stable_pubkey rest s.key_packages_by_identity))
        ≡ erase_first (has_ref ref) (stored s)
    pub each :
        (j : Str)
        → or_default (
            lookup str_discrete j
              (refile str_discrete loc.stable_pubkey rest s.key_packages_by_identity))
          ≡ taken_from (has_ref ref) loc.stable_pubkey s j

  pub took :
      (s : InMemoryInner Value) (ref : Str) (loc : Located Value)
      → IsWellFiled s.key_packages_by_identity
      → locate_by_ref s.key_packages_by_identity ref ≡ some loc
      → Took s ref loc
  took s ref loc w h =
      let m = s.key_packages_by_identity in
      let (records, l, at) = locate_by_ref-found m ref w.0 h in
      let (f, r) = position-found (has_ref ref) records at in
      let fs = filed_records loc.stable_pubkey m w.1 l in
      let fs' = All-erase_first (has_ref ref) (Files loc.stable_pubkey) records fs in
      record {
        rest = erase_first (has_ref ref) records;
        taken = take_at-refile loc.stable_pubkey loc.index m l r;
        owner = All-find (has_ref ref) (Files loc.stable_pubkey) records fs f;
        filing = refile-IsWellFiled loc.stable_pubkey (erase_first (has_ref ref) records) m w fs';
        all = flatten-refile m ref records w.0 h l;
        each = λ j. ground (
          arith,
          bucket-refile str_discrete loc.stable_pubkey j (erase_first (has_ref ref) records) m w.0
              l,
        );
      }

  -- `get_key_package` returns the first record with that ref in the order of `list_all`, if there is
  -- one, and changes nothing.
  pub get_key_package-find :
      (ref : Str) (s : InMemoryInner Value)
      → get_key_package ref s ≡ (ok (find (has_ref ref) (stored s)), s)
  unfolding get_key_package
  get_key_package-find ref s = rw (find-located s.key_packages_by_identity ref)

  -- How the two views change when the record with a ref is removed: none with that ref, no change.
  abbrev pub Removed : Str → InMemoryInner Value → InMemoryInner Value → Type 0
  Removed ref s s' =
      (stored s' ≡ erase_first (has_ref ref) (stored s))
      × ((j : Str)
          → filed s' j ≡ elim (find (has_ref ref) (stored s)) [
            | none ↦ filed s j
            | some r ↦ taken_from (has_ref ref) r.stable_pubkey s j
          ])

  remove_missing :
      (ref : Str) (s : InMemoryInner Value)
      → locate_by_ref s.key_packages_by_identity ref ≡ none
      → remove_key_package ref s ≡ (ok none, s)
  unfolding remove_key_package
  remove_missing ref s h = ground arith

  -- the state with the map after a record was taken
  abbrev pub after :
      {ref : Str} {loc : Located Value} (s : InMemoryInner Value)
      → Took s ref loc
      → InMemoryInner Value
  after {loc} s t = record s {
    key_packages_by_identity =
        refile str_discrete loc.stable_pubkey t.rest s.key_packages_by_identity;
  }

  remove_found :
      (ref : Str) (s : InMemoryInner Value) (loc : Located Value) (t : Took s ref loc)
      → locate_by_ref s.key_packages_by_identity ref ≡ some loc
      → remove_key_package ref s ≡ (ok (some loc.found), after s t)
  unfolding remove_key_package
  remove_found ref s loc t h = ground (arith, t.taken)

  -- On a well-filed map `remove_key_package` never panics: it returns the first record with that ref,
  -- takes exactly that record out of the map, and leaves the map well filed.
  pub remove_key_package_lem :
      (ref : Str) (s : InMemoryInner Value)
      → IsWellFiled s.key_packages_by_identity
      → ((remove_key_package ref s).0 ≡ ok (find (has_ref ref) (stored s)))
        × Removed ref s (remove_key_package ref s).1
        × IsWellFiled (remove_key_package ref s).1.key_packages_by_identity
  remove_key_package_lem ref s w =
      elim (Option-cases (locate_by_ref s.key_packages_by_identity ref)) [
        | inl missing ↦
            let f : find (has_ref ref) (stored s) ≡ none =
              find-located s.key_packages_by_identity ref ∙ ap found_record missing in
            let same = sym (erase_first-none (has_ref ref) (stored s) f) in
            rw (remove_missing ref s missing, f) (refl, (same, λ j. refl), w)
        | inr (loc, found) ↦
            let t = took s ref loc w found in
            let f : find (has_ref ref) (stored s) ≡ some loc.found =
              find-located s.key_packages_by_identity ref ∙ ap found_record found in
            rw (remove_found ref s loc t found, f, t.owner) (refl, (t.all, t.each), t.filing)
      ]

  -- Nothing but the key packages changes.
  pub remove_key_package-frame :
      (ref : Str) (s : InMemoryInner Value)
      → IsWellFiled s.key_packages_by_identity
      → (remove_key_package ref s).1 ≡ record s {
        key_packages_by_identity = (remove_key_package ref s).1.key_packages_by_identity;
      }
  remove_key_package-frame ref s w =
      elim (Option-cases (locate_by_ref s.key_packages_by_identity ref)) [
        | inl missing ↦ rw (remove_missing ref s missing) refl
        | inr (loc, found) ↦ rw (remove_found ref s loc (took s ref loc w found) found) refl
      ]
