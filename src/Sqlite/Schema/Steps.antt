-- ===== src/Sqlite/Schema/Steps.antt =====
-- What the steps of `init` keep of the columns: a predicate on them that no statement on its own breaks.
use cordn_rs.Common.{
  List, [], ◌∷◌, Option, none, some, Bool, true, false, ok, err, panic, Str, str_discrete,
  if◌then◌else◌, ◌≡◌,
}
use cordn_rs.Common.Assoc.{insert}
use cordn_rs.Types.{StorageResult}
use cordn_rs.Sqlite.{Synchronous}
use cordn_rs.Sqlite.Schema.{
  Columns, Database, Ddl, columns_of, and_then, statement, serve, ◌>>=◌, ◌>>◌, skip, create_index,
  set_pragma, has_column, table_columns,
}
use cordn_rs.Sqlite.Schema.Init.{set_pragmas}

module _ (P : Columns → Bool) where
  abbrev pub Keeps : {A : Type 0} → Ddl A → Type 0
  Keeps m = (d : Database) → P d.columns ≡ true → P (m d).1.columns ≡ true

  pub bind-Keeps :
      {A B : Type 0} (m : Ddl A) (k : A → Ddl B)
      → Keeps m
      → ((a : A) → Keeps (k a))
      → Keeps (m >>= k)
  unfolding ◌>>=◌
  bind-Keeps {A = A} m k hm hk d h = after (m d) (hm d h)
    where
      after :
          (out : StorageResult A × Database)
          → P out.1.columns ≡ true
          → P (and_then out k).1.columns ≡ true
      after (ok a, d') h' = hk a d' h'
      after (err e, d') h' = h'
      after (panic, d') h' = h'

  pub then-Keeps : {A B : Type 0} (m : Ddl A) (k : Ddl B) → Keeps m → Keeps k → Keeps (m >> k)
  unfolding ◌>>◌ ◌>>=◌
  then-Keeps m k hm hk = bind-Keeps m (λ _. k) hm (λ _. hk)

  pub statement-Keeps :
      {A : Type 0} (f : Database → StorageResult A × Database) → Keeps f → Keeps (statement f)
  unfolding statement
  statement-Keeps {A = A} f hf d h = served d.faults
    where
      served : (faults : List (Option Str)) → P (serve (f d) d faults).1.columns ≡ true
      served [] = hf d h
      served (none ∷ faults) = hf d h
      served (some e ∷ faults) = h

  pub create_index-Keeps : Keeps create_index
  create_index-Keeps = statement-Keeps skip (λ d h. h)

  pub set_pragma-Keeps : (name value : Str) → Keeps (set_pragma name value)
  set_pragma-Keeps name value =
      statement-Keeps
        (λ d. (ok tt, record d { pragmas = insert str_discrete name value d.pragmas })) (λ d h. h)

  pub has_column-Keeps : (table column : Str) → Keeps (has_column table column)
  unfolding has_column
  has_column-Keeps table column =
      bind-Keeps (table_columns table) _
        (statement-Keeps (λ d. (ok (columns_of table d.columns), d)) (λ d h. h)) (λ names d h. h)

  pub if-Keeps :
      {A : Type 0} (b : Bool) (m k : Ddl A) → Keeps m → Keeps k → Keeps (if b then m else k)
  if-Keeps true m k hm hk = hm
  if-Keeps false m k hm hk = hk

  pub skip-Keeps : Keeps skip
  skip-Keeps d h = h

  pub index_then-Keeps : {A : Type 0} (k : Ddl A) → Keeps k → Keeps (create_index >> k)
  index_then-Keeps k hk = then-Keeps create_index k create_index-Keeps hk

  pub set_pragmas-Keeps : (synchronous : Synchronous) → Keeps (set_pragmas synchronous)
  unfolding set_pragmas
  set_pragmas-Keeps synchronous = then-Keeps _ _ (set_pragma-Keeps _ _) (
      then-Keeps _ _ (set_pragma-Keeps _ _)
        (then-Keeps _ _ (set_pragma-Keeps _ _) (set_pragma-Keeps _ _)))
