-- ===== src/Parity/KeyPackages.antt =====
-- The key-package operations of sqlite.rs and in_memory.rs agree, while no ref is published twice.
pub mod Consume
use cordn_rs.Common.{
  ◌≡◌, refl, sym, ap, subst, ◌∙◌, ◌≤◌, Option-cases, Bool-cases, inl, inr, Option, none, some, true,
  false, not, List, [], ◌∷◌, ◌++◌, ok, map, Str, str_eq, str_discrete, retain, any, any-find-none,
  find, find-true, erase_first, last, or_else, count_if, length, arith, if◌then◌else◌,
  count_if-eq-zero_of_find, Bool, count_if-append, count_if-retain-le,
}
use cordn_rs.Common.Rows.{Holds, rows_of, rows_of-push, find-Agree, find-retain-some, has_key}
use cordn_rs.Common.Holdings.{Holds-Agree}
use cordn_rs.Common.Unique.{rows_of-delete_unique}
use cordn_rs.Types.{PublishedKeyPackageRecord}
use cordn_rs.Memory.State.{InMemoryInner}
use cordn_rs.Memory.KeyPackages as Memory
use cordn_rs.Memory.KeyPackages.{has_ref, is_regular, ByIdentity}
use cordn_rs.Memory.KeyPackages.Filing.{IsWellFiled}
use cordn_rs.Memory.KeyPackages.Refinement.{
  stored, filed, taken_from, remove_key_package_lem, get_key_package-find, remove_key_package-frame,
}
use cordn_rs.Memory.KeyPackages.Consume.{
  due, left, consume_key_package_lem, publish_key_package_lem,
}
use cordn_rs.Sqlite.{Driver, Tables, quiet}
use cordn_rs.Sqlite.KeyPackages as Sqlite
use cordn_rs.Sqlite.KeyPackages.Rows.{IsLossless, identity_of, row_of, row_of-push, delete-row_of}
use cordn_rs.Sqlite.KeyPackages.Effects.{
  publish_effect, list_effect, list_all_effect, get_effect, remove_missing, remove_found, without,
  spent, consume_by_ref, consume_in_order, consume_none,
}
use cordn_rs.Parity.{HoldsPackages, Related, Same, KeyPackageRow}

module _ {Value : Type 0} (driver : Driver Value) (codec : IsLossless driver) where
  -- Both find the same record by a ref.
  found-Same :
      (ref : Str) (t : Tables) (s : InMemoryInner Value) (w : Related codec.text t s)
      → find (has_ref ref) w.packages.records ≡ find (has_ref ref) (stored s)
  found-Same ref t s w =
      find-Agree (identity_of codec.text) (has_ref ref) w.packages.records (stored s)
        (Holds-Agree (identity_of codec.text) w.packages.records s.key_packages_by_identity
          w.packages.held)
        (w.packages.single ref)

  pub get_key_package-Same :
      (ref : Str) (t : Tables) (s : InMemoryInner Value)
      → Related codec.text t s
      → Same codec.text (Sqlite.get_key_package driver ref (quiet t)) (Memory.get_key_package ref s)
  get_key_package-Same ref t s w =
      rw
        (
          get_effect driver codec t w.packages.records w.packages.written ref,
          get_key_package-find ref s,
        )
        (record { answer = ap ok (found-Same ref t s w); faults = refl; related = w })

  pub list_key_packages_for_identity-Same :
      (pk : Str) (t : Tables) (s : InMemoryInner Value)
      → Related codec.text t s
      → Same codec.text
          (Sqlite.list_key_packages_for_identity driver pk (quiet t))
          (Memory.list_key_packages_for_identity pk s)
  unfolding Memory.list_key_packages_for_identity
  list_key_packages_for_identity-Same pk t s w =
      rw (list_effect driver codec t w.packages.records w.packages.written pk)
        (record { answer = ap ok (w.packages.held.each pk); faults = refl; related = w })

  -- With the packages related again after a call that left the rest alone, all is.
  with_packages :
      (t : Tables) (s s' : InMemoryInner Value) (rows : List KeyPackageRow)
      → Related codec.text t s
      → s' ≡ record s { key_packages_by_identity = s'.key_packages_by_identity }
      → HoldsPackages codec.text rows s'.key_packages_by_identity
      → Related codec.text (record t { key_packages = rows }) s'
  with_packages t s s' rows w e h =
      subst (Related codec.text (record t { key_packages = rows })) (sym e)
        (record { packages = h; welcomes = w.welcomes; requests = w.requests; logs = w.logs })

  one_more :
      (ref : Str) (r : PublishedKeyPackageRecord Value)
      (rs : List (PublishedKeyPackageRecord Value))
      → find (has_ref r.key_package_ref) rs ≡ none
      → count_if (has_ref ref) rs ≤ 1
      → count_if (has_ref ref) (rs ++ r ∷ []) ≤ 1
  unfolding count_if
  one_more ref r rs fresh h = elim (str_discrete r.key_package_ref ref) [
    | yes e ↦
        let zero_here : count_if (has_ref ref) rs ≡ 0 =
          subst (λ (q : Str). count_if (has_ref q) rs ≡ 0) e
            (count_if-eq-zero_of_find (has_ref r.key_package_ref) rs fresh) in
        ground (arith, count_if-append (has_ref ref) rs (r ∷ []))
    | no n ↦ ground (arith, count_if-append (has_ref ref) rs (r ∷ []))
  ]

  publish_frame :
      (r : PublishedKeyPackageRecord Value) (s : InMemoryInner Value)
      → (Memory.publish_key_package r s).1 ≡ record s {
        key_packages_by_identity = (Memory.publish_key_package r s).1.key_packages_by_identity;
      }
  unfolding Memory.publish_key_package
  publish_frame r s = refl

  pub publish_key_package-Same :
      (r : PublishedKeyPackageRecord Value) (t : Tables) (s : InMemoryInner Value)
      → find (has_ref r.key_package_ref) (stored s) ≡ none
      → Related codec.text t s
      → Same codec.text
          (Sqlite.publish_key_package driver r (quiet t))
          (Memory.publish_key_package r s)
  publish_key_package-Same r t s fresh w =
      let rs = w.packages.records in
      let s' = (Memory.publish_key_package r s).1 in
      let (answer, each, w') = publish_key_package_lem r s w.packages.filed in
      let missing = found-Same r.key_package_ref t s w ∙ fresh in
      let unused = any-find-none (has_ref r.key_package_ref) rs missing in
      rw (publish_effect driver codec t rs w.packages.written r unused) (record {
        answer = sym answer;
        faults = refl;
        related =
            with_packages t s s' (t.key_packages ++ row_of codec.text r ∷ []) w (publish_frame r s)
              (record {
                records = rs ++ r ∷ [];
                written =
                    ap (λ rows. rows ++ row_of codec.text r ∷ []) w.packages.written
                    ∙ sym (row_of-push codec.text rs r);
                held = record {
                  filing = w'.0;
                  each = λ j. ground (
                    arith,
                    each j,
                    rows_of-push (identity_of codec.text) j rs r,
                    w.packages.held.each j,
                  );
                };
                filed = w';
                single = λ ref. one_more ref r rs missing (w.packages.single ref);
              });
      })

  unchanged :
      (t : Tables) (s s' : InMemoryInner Value)
      → Related codec.text t s
      → ((j : Str) → filed s' j ≡ filed s j)
      → IsWellFiled s'.key_packages_by_identity
      → HoldsPackages codec.text t.key_packages s'.key_packages_by_identity
  unchanged t s s' w each w' = record {
    records = w.packages.records;
    written = w.packages.written;
    held = record { filing = w'.0; each = λ j. w.packages.held.each j ∙ sym (each j) };
    filed = w';
    single = w.packages.single;
  }

  -- The rows of a ref are deleted, and the record of `pk` that `q` finds goes from its list.
  deleted :
      (q : PublishedKeyPackageRecord Value → Bool) (pk ref : Str) (t : Tables)
      (s s' : InMemoryInner Value) {r : PublishedKeyPackageRecord Value}
      (w : Related codec.text t s)
      → find q (filed s pk) ≡ some r
      → r.key_package_ref ≡ ref
      → ((j : Str) → filed s' j ≡ taken_from q pk s j)
      → IsWellFiled s'.key_packages_by_identity
      → HoldsPackages codec.text
          (without driver codec t w.packages.records w.packages.written ref).key_packages
          s'.key_packages_by_identity
  deleted q pk ref t s s' {r} w found same each w' =
      let rs = w.packages.records in
      let named : has_ref ref r ≡ true = ground arith in
      let here : find q (rows_of (identity_of codec.text) pk rs) ≡ some r =
        ap (find q) (w.packages.held.each pk) ∙ found in
      record {
        records = retain (λ x. not (has_ref ref x)) rs;
        written =
            ap (retain (λ row. not (Sqlite.has_ref ref row))) w.packages.written
            ∙ delete-row_of codec.text ref rs;
        held = record {
          filing = w'.0;
          each = λ j. ground (
            arith,
            each j,
            rows_of-delete_unique (identity_of codec.text) (has_ref ref) q pk j rs here named
                (w.packages.single ref),
            w.packages.held.each j,
          );
        };
        filed = w';
        single = λ x. omega (
          arith,
          w.packages.single x,
          count_if-retain-le (has_ref x) (λ y. not (has_ref ref y)) rs,
        );
      }

  -- A record that is found by its ref is found among those of its identity.
  filed-found :
      (ref : Str) (t : Tables) (s : InMemoryInner Value) {r : PublishedKeyPackageRecord Value}
      (w : Related codec.text t s)
      → find (has_ref ref) w.packages.records ≡ some r
      → find (has_ref ref) (filed s r.stable_pubkey) ≡ some r
  filed-found ref t s {r} w h =
      ap (find (has_ref ref)) (sym (w.packages.held.each r.stable_pubkey))
      ∙ find-retain-some (has_ref ref) (has_key (identity_of codec.text) r.stable_pubkey)
          w.packages.records h (ground arith)

  ref_of_found :
      (ref : Str) (rs : List (PublishedKeyPackageRecord Value))
      {r : PublishedKeyPackageRecord Value}
      → find (has_ref ref) rs ≡ some r
      → r.key_package_ref ≡ ref
  ref_of_found ref rs h = let named = find-true (has_ref ref) rs h in ground arith

  pub remove_key_package-Same :
      (ref : Str) (t : Tables) (s : InMemoryInner Value)
      → Related codec.text t s
      → Same codec.text
          (Sqlite.remove_key_package driver ref (quiet t))
          (Memory.remove_key_package ref s)
  remove_key_package-Same ref t s w =
      let rs = w.packages.records in
      let s' = (Memory.remove_key_package ref s).1 in
      let (answer, (all, each), w') = remove_key_package_lem ref s w.packages.filed in
      let frame = remove_key_package-frame ref s w.packages.filed in
      let same = found-Same ref t s w in
      elim (Option-cases (find (has_ref ref) rs)) [
        | inl missing ↦
            let none_there : find (has_ref ref) (stored s) ≡ none = sym same ∙ missing in
            let kept : (j : Str) → filed s' j ≡ filed s j =
              λ j. ground (arith, each j, none_there) in
            rw (remove_missing driver codec t rs w.packages.written ref missing) (record {
              answer = ground (arith, answer, none_there);
              faults = refl;
              related = with_packages t s s' t.key_packages w frame (unchanged t s s' w kept w');
            })
        | inr (r, found) ↦
            let there : find (has_ref ref) (stored s) ≡ some r = sym same ∙ found in
            let taken : (j : Str) → filed s' j ≡ taken_from (has_ref ref) r.stable_pubkey s j =
              λ j. ground (arith, each j, there) in
            rw (remove_found driver codec t rs w.packages.written ref found) (record {
              answer = ground (arith, answer, there);
              faults = refl;
              related =
                  with_packages t s s'
                    (without driver codec t rs w.packages.written ref).key_packages w frame
                    (deleted (has_ref ref) r.stable_pubkey ref t s s' w
                      (filed-found ref t s w found) (ref_of_found ref rs found) taken w');
            })
      ]
