-- ===== src/Parity/KeyPackages/Consume.antt =====
-- `consume_key_package` of sqlite.rs and in_memory.rs agree.
use cordn_rs.Common.{
  ◌≡◌, refl, sym, ◌∙◌, Option-cases, Bool-cases, inl, inr, none, some, true, false, List, [], ◌∷◌,
  Str, find, find-true, erase_first-none, last, or_else, arith, subst,
}
use cordn_rs.Common.Rows.{rows_of}
use cordn_rs.Types.{PublishedKeyPackageRecord}
use cordn_rs.Memory.State.{InMemoryInner}
use cordn_rs.Memory.KeyPackages as Memory
use cordn_rs.Memory.KeyPackages.{has_ref, is_regular}
use cordn_rs.Memory.KeyPackages.Refinement.{stored, filed, taken_from}
use cordn_rs.Memory.KeyPackages.Consume.{consume_key_package_lem, consume_key_package-frame}
use cordn_rs.Sqlite.{Driver, Tables, quiet}
use cordn_rs.Sqlite.KeyPackages as Sqlite
use cordn_rs.Sqlite.KeyPackages.Rows.{IsLossless, identity_of}
use cordn_rs.Sqlite.KeyPackages.Effects.{without, consume_by_ref, consume_in_order, consume_none}
use cordn_rs.Parity.{Related, Same}
use cordn_rs.Parity.KeyPackages.{
  found-Same, with_packages, unchanged, deleted, filed-found, ref_of_found,
}

module _ {Value : Type 0} (driver : Driver Value) (codec : IsLossless driver) where
  -- Without a regular record the newest is of last resort.
  last_of_last_resort :
      (rs : List (PublishedKeyPackageRecord Value)) {r : PublishedKeyPackageRecord Value}
      → find is_regular rs ≡ none
      → last rs ≡ some r
      → r.is_last_resort ≡ true
  unfolding find last
  last_of_last_resort [] h e = absurd (cc)
  last_of_last_resort (x ∷ []) {r} h e =
      let same : x ≡ r = ground arith in
      let irregular : x.is_last_resort ≡ true = ground (arith, h) in
      subst (λ q. q.is_last_resort ≡ true) same irregular
  last_of_last_resort (x ∷ y ∷ rs) {r} h e = last_of_last_resort (y ∷ rs) (ground (arith, h)) e

  by_ref :
      (id : Str) (t : Tables) (s : InMemoryInner Value) {r : PublishedKeyPackageRecord Value}
      (w : Related codec.text t s)
      → find (has_ref id) w.packages.records ≡ some r
      → Same codec.text
          (Sqlite.consume_key_package driver id (quiet t))
          (Memory.consume_key_package id s)
  by_ref id t s {r} w found =
      let rs = w.packages.records in
      let s' = (Memory.consume_key_package id s).1 in
      let (answer, each, w') = consume_key_package_lem id s w.packages.filed in
      let frame = consume_key_package-frame id s w.packages.filed in
      let there : find (has_ref id) (stored s) ≡ some r =
        sym (found-Same driver codec id t s w) ∙ found in
      let effect = consume_by_ref driver codec t rs w.packages.written id found in
      elim (Bool-cases r.is_last_resort) [
        | inl kept ↦
            let same : (j : Str) → filed s' j ≡ filed s j =
              λ j. ground (arith, each j, there, kept) in
            rw (effect, kept)
              (record {
                answer = ground (arith, answer, there);
                faults = refl;
                related =
                    with_packages driver codec t s s' t.key_packages w frame
                      (unchanged driver codec t s s' w same w');
              })
        | inr gone ↦
            let taken : (j : Str) → filed s' j ≡ taken_from (has_ref id) r.stable_pubkey s j =
              λ j. ground (arith, each j, there, gone) in
            rw (effect, gone)
              (record {
                answer = ground (arith, answer, there);
                faults = refl;
                related =
                    with_packages driver codec t s s'
                      (without driver codec t rs w.packages.written id).key_packages w frame
                      (deleted driver codec (has_ref id) r.stable_pubkey id t s s' w
                        (filed-found driver codec id t s w found)
                        (ref_of_found driver codec id rs found) taken w');
              })
      ]

  -- No record has that ref: the oldest regular record of the identity.
  regular :
      (id : Str) (t : Tables) (s : InMemoryInner Value) {r : PublishedKeyPackageRecord Value}
      (w : Related codec.text t s)
      → find (has_ref id) w.packages.records ≡ none
      → find is_regular (filed s id) ≡ some r
      → Same codec.text
          (Sqlite.consume_key_package driver id (quiet t))
          (Memory.consume_key_package id s)
  regular id t s {r} w missing found =
      let rs = w.packages.records in
      let s' = (Memory.consume_key_package id s).1 in
      let (answer, each, w') = consume_key_package_lem id s w.packages.filed in
      let frame = consume_key_package-frame id s w.packages.filed in
      let nowhere : find (has_ref id) (stored s) ≡ none =
        sym (found-Same driver codec id t s w) ∙ missing in
      let passes = find-true is_regular (filed s id) found in
      let gone : r.is_last_resort ≡ false = ground (arith, passes) in
      let first : or_else (find is_regular (rows_of (identity_of codec.text) id rs))
            (last (rows_of (identity_of codec.text) id rs))
          ≡ some r =
        rw (w.packages.held.each id, found) refl in
      let taken : (j : Str) → filed s' j ≡ taken_from is_regular id s j =
        λ j. ground (arith, each j, nowhere) in
      rw (consume_in_order driver codec t rs w.packages.written id missing first, gone)
        (record {
          answer = ground (arith, answer, nowhere, found);
          faults = refl;
          related =
              with_packages driver codec t s s'
                (without driver codec t rs w.packages.written r.key_package_ref).key_packages w
                frame
                (deleted driver codec is_regular id r.key_package_ref t s s' w found refl taken w');
        })

  -- Nor a regular record: the newest, which stays, or none.
  nothing_regular :
      (id : Str) (t : Tables) (s : InMemoryInner Value) (w : Related codec.text t s)
      → find (has_ref id) w.packages.records ≡ none
      → find is_regular (filed s id) ≡ none
      → Same codec.text
          (Sqlite.consume_key_package driver id (quiet t))
          (Memory.consume_key_package id s)
  nothing_regular id t s w missing irregular =
      let rs = w.packages.records in
      let s' = (Memory.consume_key_package id s).1 in
      let (answer, each, w') = consume_key_package_lem id s w.packages.filed in
      let frame = consume_key_package-frame id s w.packages.filed in
      let nowhere : find (has_ref id) (stored s) ≡ none =
        sym (found-Same driver codec id t s w) ∙ missing in
      let same : (j : Str) → filed s' j ≡ filed s j =
        λ j. ground (arith, each j, nowhere, irregular, erase_first-none is_regular (filed s j)) in
      let related =
        with_packages driver codec t s s' t.key_packages w frame
          (unchanged driver codec t s s' w same w') in
      let order : or_else (find is_regular (rows_of (identity_of codec.text) id rs))
            (last (rows_of (identity_of codec.text) id rs))
          ≡ last (filed s id) =
        rw (w.packages.held.each id, irregular) refl in
      elim (Option-cases (last (filed s id))) [
        | inl empty ↦
            rw (consume_none driver codec t rs w.packages.written id missing (order ∙ empty))
              (record {
                answer = ground (arith, answer, nowhere, irregular, empty);
                faults = refl;
                related = related;
              })
        | inr (r, newest) ↦
            let kept = last_of_last_resort (filed s id) irregular newest in
            rw
              (
                consume_in_order driver codec t rs w.packages.written id missing (order ∙ newest),
                kept,
              )
              (record {
                answer = ground (arith, answer, nowhere, irregular, newest);
                faults = refl;
                related = related;
              })
      ]

  pub consume_key_package-Same :
      (id : Str) (t : Tables) (s : InMemoryInner Value)
      → Related codec.text t s
      → Same codec.text
          (Sqlite.consume_key_package driver id (quiet t))
          (Memory.consume_key_package id s)
  consume_key_package-Same id t s w = elim (Option-cases (find (has_ref id) w.packages.records)) [
    | inr (r, found) ↦ by_ref id t s w found
    | inl missing ↦ elim (Option-cases (find is_regular (filed s id))) [
      | inr (r, found) ↦ regular id t s w missing found
      | inl irregular ↦ nothing_regular id t s w missing irregular
    ]
  ]
