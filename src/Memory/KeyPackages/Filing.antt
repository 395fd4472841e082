-- ===== src/Memory/KeyPackages/Filing.antt =====
-- How key packages are filed: one entry to an identity, no entry empty, each record under its own
-- identity. What `locate_by_ref` finds, and what the map is after the record there is taken.
use cordn_rs.Common.{
  ◌≡◌, refl, subst, inl, inr, some, List, [], ◌∷◌, false, Str, str_discrete, arith, All,
  Option-cases, position, is_empty, flatten, find, erase_first, position-found, find-append,
  find-eq-none_of_position, erase_first-append_found, erase_first-append_none,
}
use cordn_rs.Common.Assoc.{IsMap, lookup, adjust, remove, values, ne_of_lookup}
use cordn_rs.Common.Buckets.{refile}
use cordn_rs.Types.{PublishedKeyPackageRecord}
use cordn_rs.Memory.KeyPackages.{ByIdentity, Located, has_ref, found_record, locate_by_ref}

module _ {Value : Type 0} where
  abbrev pub Files : Str → PublishedKeyPackageRecord Value → Type 0
  Files pk r = r.stable_pubkey ≡ pk

  abbrev pub IsFiled : ByIdentity Value → Type 0
  IsFiled [] = Unit
  IsFiled ((pk, records) ∷ m) = (is_empty records ≡ false) × All (Files pk) records × IsFiled m

  pub locate_by_ref-found :
      (m : ByIdentity Value) (ref : Str) {loc : Located Value}
      → IsMap m
      → locate_by_ref m ref ≡ some loc
      → (records : List (PublishedKeyPackageRecord Value)) × (lookup str_discrete loc.stable_pubkey
            m
          ≡ some records)
        × (position (has_ref ref) records ≡ some (loc.index, loc.found))
  unfolding locate_by_ref lookup
  locate_by_ref-found [] ref w h = cc
  locate_by_ref-found ((pk, records) ∷ m) ref {loc} w h =
      elim (Option-cases (position (has_ref ref) records)) [
        | inl missing ↦
            let found : locate_by_ref m ref ≡ some loc = ground arith in
            let (rs, l, at) = locate_by_ref-found m ref w.1 found in
            let apart = ne_of_lookup str_discrete pk loc.stable_pubkey m w.0 l in
            (rs, ground arith, at)
        | inr (r, here) ↦ (records, ground arith, ground arith)
      ]

  -- What `locate_by_ref` finds is the first record with that ref in the order of `list_all`.
  pub find-located :
      (m : ByIdentity Value) (ref : Str)
      → find (has_ref ref) (flatten (values m)) ≡ found_record (locate_by_ref m ref)
  unfolding locate_by_ref flatten values find
  find-located [] ref = refl
  find-located ((pk, records) ∷ m) ref =
      let split = find-append (has_ref ref) records (flatten (values m)) in
      elim (Option-cases (position (has_ref ref) records)) [
        | inl missing ↦ ground (
          arith,
          split,
          find-located m ref,
          find-eq-none_of_position (has_ref ref) records missing,
        )
        | inr (r, here) ↦ ground (arith, split, position-found (has_ref ref) records here)
      ]

  -- With a record of it taken, an identity's list is shorter by the first record with that ref.
  pub flatten-refile :
      (m : ByIdentity Value) (ref : Str) {loc : Located Value}
      (records : List (PublishedKeyPackageRecord Value))
      → IsMap m
      → locate_by_ref m ref ≡ some loc
      → lookup str_discrete loc.stable_pubkey m ≡ some records
      → flatten
          (values (refile str_discrete loc.stable_pubkey (erase_first (has_ref ref) records) m))
        ≡ erase_first (has_ref ref) (flatten (values m))
  unfolding locate_by_ref lookup refile flatten values adjust remove
  flatten-refile [] ref rs w h l = cc
  flatten-refile ((pk, records) ∷ m) ref {loc} rs w h l =
      elim (Option-cases (position (has_ref ref) records)) [
        | inl missing ↦
            let found : locate_by_ref m ref ≡ some loc = ground arith in
            let (rs', l', at) = locate_by_ref-found m ref w.1 found in
            let apart = ne_of_lookup str_discrete pk loc.stable_pubkey m w.0 l' in
            let same : lookup str_discrete loc.stable_pubkey m ≡ some rs = ground arith in
            let ih = flatten-refile m ref rs w.1 found same in
            let none_here = find-eq-none_of_position (has_ref ref) records missing in
            let rest =
              erase_first-append_none (has_ref ref) records (flatten (values m)) none_here in
            ground arith
        | inr (r, here) ↦
            let found = (position-found (has_ref ref) records here).0 in
            let rest = erase_first-append_found (has_ref ref) records (flatten (values m)) found in
            ground arith
      ]

  pub refile-IsFiled :
      (pk : Str) (rest : List (PublishedKeyPackageRecord Value)) (m : ByIdentity Value)
      → IsFiled m
      → All (Files pk) rest
      → IsFiled (refile str_discrete pk rest m)
  unfolding refile adjust remove
  refile-IsFiled pk rest [] w f = ground arith
  refile-IsFiled pk rest ((j, records) ∷ m) w f = ground (arith, refile-IsFiled pk rest m w.2 f)

  abbrev pub IsWellFiled : ByIdentity Value → Type 0
  IsWellFiled m = IsMap m × IsFiled m

  pub filed_records :
      (pk : Str) (m : ByIdentity Value) {records : List (PublishedKeyPackageRecord Value)}
      → IsFiled m
      → lookup str_discrete pk m ≡ some records
      → All (Files pk) records
  unfolding lookup
  filed_records pk [] w h = cc
  filed_records pk ((j, rs) ∷ m) {records} w h = elim (str_discrete j pk) [
    | yes e ↦
        let same : rs ≡ records = ground arith in
        subst (All (Files pk)) same (subst (λ q. All (Files q) rs) e w.1)
    | no n ↦ filed_records pk m w.2 (ground arith)
  ]
