-- ===== src/Sqlite/Schema/Migrations.antt =====
-- What a migration of `init` that succeeds leaves of the columns.
use cordn_rs.Common.{
  List, [], ◌∷◌, ◌++◌, Option, none, some, Bool, true, false, not, any, retain, ok, err, panic, Str,
  str_eq, str_discrete, if◌then◌else◌, ◌≡◌, refl, arith, Option-cases, Bool-cases, inl, inr, sym,
  ap,
}
use cordn_rs.Common.Assoc.{adjust, lookup-adjust, lookup}
use cordn_rs.Types.{StorageResult}
use cordn_rs.Sqlite.Schema.{
  Columns, Database, Ddl, is_column, columns_of, and_then, statement, serve, ◌>>=◌, ◌>>◌, Refusals,
  skip, has_column, adding, add_column, dropping, drop_column,
}
use cordn_rs.Sqlite.Schema.Init.{add_if_missing, drop_if_present}
use cordn_rs.Sqlite.Schema.Steps.{
  Keeps, bind-Keeps, statement-Keeps, has_column-Keeps, if-Keeps, skip-Keeps,
}

is_named_last : (c : Str) (names : List Str) → any (λ n. str_eq n c) (names ++ c ∷ []) ≡ true
unfolding any
is_named_last c [] = ground arith
is_named_last c (n ∷ names) = ground (arith, is_named_last c names)

is_named-retained :
    (c : Str) (names : List Str)
    → any (λ n. str_eq n c) (retain (λ n. not (str_eq n c)) names) ≡ false
unfolding any retain
is_named-retained c [] = refl
is_named-retained c (n ∷ names) = ground (arith, is_named-retained c names)

-- Whether a step that succeeds leaves the predicate true of the columns.
module _ (P : Columns → Bool) where
  abbrev pub Holds : {A : Type 0} → StorageResult A × Database → Type 0
  Holds (ok a, d) = P d.columns ≡ true
  Holds (err e, d) = Unit {0}
  Holds (panic, d) = Unit {0}

  abbrev pub Leaves : {A : Type 0} → Ddl A → Type 0
  Leaves m = (d : Database) → Holds (m d)

  pub then-Leaves : {A B : Type 0} (m : Ddl A) (k : Ddl B) → Leaves k → Leaves (m >> k)
  unfolding ◌>>◌ ◌>>=◌
  then-Leaves {A = A} m k hk d = after (m d)
    where
      after : (out : StorageResult A × Database) → Holds (and_then out (λ _. k))
      after (ok a, d') = hk d'
      after (err e, d') = tt
      after (panic, d') = tt

  pub kept-Leaves : {A B : Type 0} (m : Ddl A) (k : Ddl B) → Leaves m → Keeps P k → Leaves (m >> k)
  unfolding ◌>>◌ ◌>>=◌
  kept-Leaves {A = A} {B = B} m k hm hk d = after (m d) (hm d)
    where
      still :
          (d' : Database) (out : StorageResult B × Database) → P out.1.columns ≡ true → Holds out
      still d' (ok b, d'') h = h
      still d' (err e, d'') h = tt
      still d' (panic, d'') h = tt

      after : (out : StorageResult A × Database) → Holds out → Holds (and_then out (λ _. k))
      after (ok a, d') h = still d' (k d') (hk d' h)
      after (err e, d') h = tt
      after (panic, d') h = tt

  statement-Leaves :
      {A : Type 0} (f : Database → StorageResult A × Database) → Leaves f → Leaves (statement f)
  unfolding statement
  statement-Leaves {A = A} f hf d = served d.faults
    where
      refilled :
          (out : StorageResult A × Database) (faults : List (Option Str))
          → Holds out
          → Holds (out.0, record out.1 { faults = faults })
      refilled (ok a, d') faults h = h
      refilled (err e, d') faults h = tt
      refilled (panic, d') faults h = tt

      served : (faults : List (Option Str)) → Holds (serve (f d) d faults)
      served [] = hf d
      served (none ∷ faults) = refilled (f d) faults (hf d)
      served (some e ∷ faults) = tt

module _ (table column : Str) where
  abbrev pub has : Columns → Bool
  has columns = is_column table column columns

  abbrev pub lacks : Columns → Bool
  lacks columns = not (is_column table column columns)

  abbrev Answers : StorageResult Bool × Database → Type 0
  Answers (ok b, d) = b ≡ has d.columns
  Answers (err e, d) = Unit {0}
  Answers (panic, d) = Unit {0}

  has_column-Answers : (d : Database) → Answers (has_column table column d)
  unfolding has_column ◌>>=◌ statement
  has_column-Answers d = answered d.faults
    where
      answered :
          (faults : List (Option Str))
          → Answers (
              and_then
                (serve (ok (columns_of table d.columns), d) d faults)
                (λ names d. (ok (any (λ c. str_eq c column) names), d)))
      answered [] = refl
      answered (none ∷ faults) = refl
      answered (some e ∷ faults) = tt

  has_added :
      (names : List Str) (columns : Columns)
      → lookup str_discrete table columns ≡ some names
      → has (adjust str_discrete table (λ (ns : List Str). ns ++ column ∷ []) columns) ≡ true
  has_added names columns e = ground (
    arith,
    lookup-adjust str_discrete table table (λ (ns : List Str). ns ++ column ∷ []) columns,
    is_named_last column names,
  )

  lacks_dropped :
      (columns : Columns)
      → lacks (adjust str_discrete table (retain (λ (c : Str). not (str_eq c column))) columns)
        ≡ true
  unfolding any
  lacks_dropped columns = ground (
    arith,
    lookup-adjust str_discrete table table (retain (λ (c : Str). not (str_eq c column))) columns,
    is_named-retained column (columns_of table columns),
  )

  adding-Leaves : (refusals : Refusals) → Leaves has (adding refusals table column)
  adding-Leaves refusals d = elim (Option-cases (lookup str_discrete table d.columns)) [
    | inl e ↦ rw (Holds, adding, e) tt
    | inr (names, e) ↦
        rw (Holds, adding, e)
          (elim (Bool-cases (any (λ c. str_eq c column) names)) [
            | inl present ↦ rw present tt
            | inr absent ↦ rw absent (has_added names d.columns e)
          ])
  ]

  dropping-Leaves : (refusals : Refusals) → Leaves lacks (dropping refusals table column)
  dropping-Leaves refusals d = elim (Bool-cases (is_column table column d.columns)) [
    | inl present ↦ rw present (lacks_dropped d.columns)
    | inr absent ↦ rw absent tt
  ]

  asked-Leaves :
      (P : Columns → Bool) (k : Bool → Ddl (Unit {0}))
      → ((b : Bool) (d : Database) → b ≡ has d.columns → Holds P (k b d))
      → Leaves P (has_column table column >>= k)
  unfolding ◌>>=◌
  asked-Leaves P k hk d = after (has_column table column d) (has_column-Answers d)
    where
      after : (out : StorageResult Bool × Database) → Answers out → Holds P (and_then out k)
      after (ok b, d') h = hk b d' h
      after (err e, d') h = tt
      after (panic, d') h = tt

  pub add_if_missing-Leaves :
      (refusals : Refusals) → Leaves has (add_if_missing refusals table column)
  unfolding add_if_missing
  add_if_missing-Leaves refusals = asked-Leaves has _ asked
    where
      asked :
          (b : Bool) (d : Database)
          → b ≡ has d.columns
          → Holds has ((if not b then add_column refusals table column else skip) d)
      asked true d h = sym h
      asked false d h = statement-Leaves has _ (adding-Leaves refusals) d

  pub drop_if_present-Leaves :
      (refusals : Refusals) → Leaves lacks (drop_if_present refusals table column)
  unfolding drop_if_present
  drop_if_present-Leaves refusals = asked-Leaves lacks _ asked
    where
      asked :
          (b : Bool) (d : Database)
          → b ≡ has d.columns
          → Holds lacks ((if b then drop_column refusals table column else skip) d)
      asked true d h = statement-Leaves lacks _ (dropping-Leaves refusals) d
      asked false d h = ap not (sym h)

  -- A drop brings no column back.
  is_named-rest :
      (p : Str → Bool) (names : List Str)
      → any (λ n. str_eq n column) names ≡ false
      → any (λ n. str_eq n column) (retain p names) ≡ false
  unfolding any retain
  is_named-rest p [] h = refl
  is_named-rest p (n ∷ names) h = ground (arith, is_named-rest p names)

  lacks_still :
      (t : Str) (p : Str → Bool) (columns : Columns)
      → lacks columns ≡ true
      → lacks (adjust str_discrete t (retain p) columns) ≡ true
  unfolding any
  lacks_still t p columns h = ground (
    arith,
    lookup-adjust str_discrete t table (retain p) columns,
    is_named-rest p (columns_of table columns),
  )

  pub drop_if_present-lacks :
      (refusals : Refusals) (t c : Str) → Keeps lacks (drop_if_present refusals t c)
  unfolding drop_if_present
  drop_if_present-lacks refusals t c =
      bind-Keeps lacks (has_column t c) _ (has_column-Keeps lacks t c) (λ present.
        if-Keeps lacks present (drop_column refusals t c) skip
          (statement-Keeps lacks (dropping refusals t c) kept) (skip-Keeps lacks))
    where
      kept : Keeps lacks (dropping refusals t c)
      kept d h = ground (arith, lacks_still t (λ (n : Str). not (str_eq n c)) d.columns h)
