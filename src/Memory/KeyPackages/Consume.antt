-- ===== src/Memory/KeyPackages/Consume.antt =====
-- `consume_key_package`, and the filing that every key-package operation keeps.
use cordn_rs.Common.{
  ℕ, ◌≡◌, refl, ap, ◌∙◌, inl, inr, Option, none, some, List, [], ◌∷◌, ◌++◌, ok, Str, str_discrete,
  str_eq, arith, All-append, Option-cases, Bool-cases, position, present_of_removed, remove_at,
  last, find, erase_first, position-found, All-erase_first, find-eq-none_of_position,
  erase_first-none, or_else, if◌then◌else◌, not,
}
use cordn_rs.Common.Assoc.{lookup, upsert, lookup-upsert, upsert-IsMap}
use cordn_rs.Common.Buckets.{refile, bucket-refile}
use cordn_rs.Types.{PublishedKeyPackageRecord}
use cordn_rs.Memory.State.{InMemoryInner}
use cordn_rs.Memory.KeyPackages.{
  ByIdentity, Located, has_ref, found_record, is_regular, locate_by_ref, publish_key_package,
  consume_by_identity, consume_key_package,
}
use cordn_rs.Memory.KeyPackages.Filing.{Files, IsFiled, IsWellFiled, filed_records, find-located}
use cordn_rs.Memory.KeyPackages.Refinement.{
  stored, filed, taken_from, Took, took, after, take_at-refile, refile-IsWellFiled,
}

module _ {Value : Type 0} where
  -- What a caller is due: the first record with that ref; else, of the identity with that name, the
  -- oldest regular record; else its newest record.
  abbrev pub due : Str → InMemoryInner Value → Option (PublishedKeyPackageRecord Value)
  due id s =
      or_else (find (has_ref id) (stored s))
        (or_else (find (λ r. not r.is_last_resort) (filed s id)) (last (filed s id)))

  -- The records of identity `j` afterwards: a last-resort record stays.
  abbrev left_after :
      Option (PublishedKeyPackageRecord Value)
      → Str
      → InMemoryInner Value
      → Str
      → List (PublishedKeyPackageRecord Value)
  left_after (some r) id s j =
      if r.is_last_resort then filed s j else taken_from (has_ref id) r.stable_pubkey s j
  left_after none id s j = taken_from (λ r. not r.is_last_resort) id s j

  abbrev pub left : Str → InMemoryInner Value → Str → List (PublishedKeyPackageRecord Value)
  left id s = left_after (find (has_ref id) (stored s)) id s

  abbrev Consumed : Str → InMemoryInner Value → Type 0
  Consumed id s =
      ((consume_key_package id s).0 ≡ ok (due id s))
      × ((j : Str) → filed (consume_key_package id s).1 j ≡ left id s j)
      × IsWellFiled (consume_key_package id s).1.key_packages_by_identity

  by_ref :
      (id : Str) (s : InMemoryInner Value) (loc : Located Value) (t : Took s id loc)
      → locate_by_ref s.key_packages_by_identity id ≡ some loc
      → consume_key_package id s
        ≡ (ok (some loc.found), if loc.found.is_last_resort then s else after s t)
  unfolding consume_key_package
  by_ref id s loc t h = ground (arith, t.taken)

  not_by_ref :
      (id : Str) (s : InMemoryInner Value)
      → locate_by_ref s.key_packages_by_identity id ≡ none
      → consume_key_package id s ≡ consume_by_identity id s
  unfolding consume_key_package
  not_by_ref id s h = ground arith

  consume-by_ref :
      (id : Str) (s : InMemoryInner Value) (loc : Located Value)
      → IsWellFiled s.key_packages_by_identity
      → locate_by_ref s.key_packages_by_identity id ≡ some loc
      → Consumed id s
  consume-by_ref id s loc w h =
      let t = took s id loc w h in
      let f : find (has_ref id) (stored s) ≡ some loc.found =
        find-located s.key_packages_by_identity id ∙ ap found_record h in
      elim (Bool-cases loc.found.is_last_resort) [
        | inl kept ↦ rw (by_ref id s loc t h, f, kept) (refl, (λ j. refl), w)
        | inr gone ↦ rw (by_ref id s loc t h, f, gone, t.owner) (refl, t.each, t.filing)
      ]

  nothing_regular :
      (id : Str) (s : InMemoryInner Value)
      → position is_regular (filed s id) ≡ none
      → consume_by_identity id s ≡ (ok (last (filed s id)), s)
  unfolding consume_by_identity
  nothing_regular id s h = ground arith

  regular_found :
      (id : Str) (s : InMemoryInner Value) {i : ℕ} {r : PublishedKeyPackageRecord Value}
      {records rest : List (PublishedKeyPackageRecord Value)}
      → position is_regular (filed s id) ≡ some (i, r)
      → lookup str_discrete id s.key_packages_by_identity ≡ some records
      → remove_at i records ≡ some (r, rest)
      → consume_by_identity id s ≡ (
        ok (some r),
        record s {
          key_packages_by_identity = refile str_discrete id rest s.key_packages_by_identity;
        },
      )
  unfolding consume_by_identity
  regular_found id s {i} h l cut =
      ground (arith, take_at-refile id i s.key_packages_by_identity l cut)

  publish-IsFiled :
      (r : PublishedKeyPackageRecord Value) (m : ByIdentity Value)
      → IsFiled m
      → IsFiled (upsert str_discrete r.stable_pubkey [] (λ rs. rs ++ r ∷ []) m)
  unfolding upsert
  publish-IsFiled r [] w = ground arith
  publish-IsFiled r ((pk, rs) ∷ m) w =
      ground (arith, publish-IsFiled r m w.2, All-append (Files pk) rs (r ∷ []) w.1)

  consume-by_identity :
      (id : Str) (s : InMemoryInner Value)
      → IsWellFiled s.key_packages_by_identity
      → locate_by_ref s.key_packages_by_identity id ≡ none
      → Consumed id s
  consume-by_identity id s w h =
      let m = s.key_packages_by_identity in
      let f : find (has_ref id) (stored s) ≡ none = find-located m id ∙ ap found_record h in
      elim (Option-cases (position is_regular (filed s id))) [
        | inl missing ↦
            let g = find-eq-none_of_position is_regular (filed s id) missing in
            rw (not_by_ref id s h, nothing_regular id s missing, f, g)
              (refl, (λ j. ground (arith, erase_first-none is_regular (filed s j))), w)
        | inr ((i, r), at) ↦
            let (g, cut) = position-found is_regular (filed s id) at in
            let present : lookup str_discrete id m ≡ some (filed s id) =
              present_of_removed i (lookup str_discrete id m) cut in
            let fs =
              All-erase_first is_regular (Files id) (filed s id) (filed_records id m w.1 present) in
            let rest = erase_first is_regular (filed s id) in
            rw (not_by_ref id s h, regular_found id s at present cut, f, g)
              (
                refl,
                (λ j. ground (arith, bucket-refile str_discrete id j rest m w.0 present)),
                refile-IsWellFiled id rest m w fs,
              )
      ]

  -- On a well-filed map `consume_key_package` never panics. It returns the record that is due; it
  -- takes a regular record out of its identity's list, leaves a last-resort record and every other
  -- list as they were, and leaves the map well filed.
  pub consume_key_package_lem :
      (id : Str) (s : InMemoryInner Value)
      → IsWellFiled s.key_packages_by_identity
      → ((consume_key_package id s).0 ≡ ok (due id s))
        × ((j : Str) → filed (consume_key_package id s).1 j ≡ left id s j)
        × IsWellFiled (consume_key_package id s).1.key_packages_by_identity
  consume_key_package_lem id s w =
      elim (Option-cases (locate_by_ref s.key_packages_by_identity id)) [
        | inl missing ↦ consume-by_identity id s w missing
        | inr (loc, found) ↦ consume-by_ref id s loc w found
      ]

  -- Publishing appends the record to its identity's list, changes no other list, and keeps the filing.
  pub publish_key_package_lem :
      (r : PublishedKeyPackageRecord Value) (s : InMemoryInner Value)
      → IsWellFiled s.key_packages_by_identity
      → ((publish_key_package r s).0 ≡ ok r)
        × ((j : Str)
            → filed (publish_key_package r s).1 j
              ≡ (if str_eq r.stable_pubkey j then filed s j ++ r ∷ [] else filed s j))
        × IsWellFiled (publish_key_package r s).1.key_packages_by_identity
  unfolding publish_key_package
  publish_key_package_lem r s w =
      let m = s.key_packages_by_identity in
      let add = λ (rs : List (PublishedKeyPackageRecord Value)). rs ++ r ∷ [] in
      (
        refl,
        λ j. ground (arith, lookup-upsert str_discrete r.stable_pubkey j [] add m),
        (upsert-IsMap str_discrete r.stable_pubkey [] add m w.0, publish-IsFiled r m w.1),
      )

  abbrev OnlyPackages : InMemoryInner Value → InMemoryInner Value → Type 0
  OnlyPackages s s' = s' ≡ record s { key_packages_by_identity = s'.key_packages_by_identity }

  consume_by_identity-frame :
      (id : Str) (s : InMemoryInner Value) → OnlyPackages s (consume_by_identity id s).1
  consume_by_identity-frame id s = elim (Option-cases (position is_regular (filed s id))) [
    | inl missing ↦ rw (nothing_regular id s missing) refl
    | inr ((i, r), at) ↦
        let (g, cut) = position-found is_regular (filed s id) at in
        let present =
          present_of_removed i (lookup str_discrete id s.key_packages_by_identity) cut in
        rw (regular_found id s at present cut) refl
  ]

  -- Nothing but the key packages changes.
  pub consume_key_package-frame :
      (id : Str) (s : InMemoryInner Value)
      → IsWellFiled s.key_packages_by_identity
      → (consume_key_package id s).1 ≡ record s {
        key_packages_by_identity = (consume_key_package id s).1.key_packages_by_identity;
      }
  consume_key_package-frame id s w =
      elim (Option-cases (locate_by_ref s.key_packages_by_identity id)) [
        | inl missing ↦ rw (not_by_ref id s missing) (consume_by_identity-frame id s)
        | inr (loc, found) ↦
            let t = took s id loc w found in
            elim (Bool-cases loc.found.is_last_resort) [
              | inl kept ↦ rw (by_ref id s loc t found, kept) refl
              | inr gone ↦ rw (by_ref id s loc t found, gone) refl
            ]
      ]
