-- ===== src/Sqlite/Schema.antt =====
-- The columns of the tables of a database, and the statements that define them, in
-- crates/cordn-core/src/storage/sqlite.rs. An index or a PRAGMA concerns no column; names are compared as
-- they are written.
pub mod Init
pub mod Steps
pub mod Keeps
pub mod Migrations
pub mod Upgrade
use cordn_rs.Common.{
  List, [], ◌∷◌, ◌++◌, Option, none, some, Bool, true, false, not, any, retain, or_default, ok, err,
  Outcome, panic, Str, str_eq, str_discrete, codes, if◌then◌else◌,
}
use cordn_rs.Common.Assoc.{Assoc, lookup, insert, adjust}
use cordn_rs.Types.{StorageResult, backend}
use cordn_rs.Sqlite.{Synchronous, pragma}

abbrev pub Columns : Type 0
Columns = Assoc Str (List Str)

-- What the driver says of a table or a column that is not there, or of a column that is there already.
pub record Refusals : Type 0 where
  pub no_such_table : Str → Str
  pub duplicate_column : Str → Str
  pub no_such_column : Str → Str

-- `faults` is as for a connection: what the driver makes of the statements to come.
pub record Database : Type 0 where
  pub columns : Columns
  pub pragmas : Assoc Str Str
  pub faults : List (Option Str)

abbrev pub Ddl : Type 0 → Type 0
Ddl A = Database → StorageResult A × Database

abbrev pub and_then :
    {A B : Type 0} → StorageResult A × Database → (A → Ddl B) → StorageResult B × Database
and_then (ok a, d) k = k a d
and_then (err e, d) k = (err e, d)
and_then (panic, d) k = (panic, d)

infixl 5 ◌>>=◌ ◌>>◌
unfoldable pub ◌>>=◌ : {A B : Type 0} → Ddl A → (A → Ddl B) → Ddl B
(m >>= k) d = and_then (m d) k

unfoldable pub ◌>>◌ : {A B : Type 0} → Ddl A → Ddl B → Ddl B
unfolding ◌>>=◌
m >> k = m >>= λ _. k

abbrev pub skip : Ddl (Unit {0})
skip d = (ok tt, d)

-- A statement; one that the driver fails does nothing.
abbrev pub serve :
    {A : Type 0}
    → StorageResult A × Database
    → Database
    → List (Option Str)
    → StorageResult A × Database
serve (out, after) before [] = (out, after)
serve (out, after) before (none ∷ faults) = (out, record after { faults = faults })
serve (out, after) before (some e ∷ faults) = (err (backend e), record before { faults = faults })

unfoldable pub statement : {A : Type 0} → (Database → StorageResult A × Database) → Ddl A
statement f d = serve (f d) d d.faults

-- CREATE TABLE IF NOT EXISTS
abbrev pub created : Str → List Str → Columns → Columns
created table names columns = elim (lookup str_discrete table columns) [
  | none ↦ insert str_discrete table names columns
  | some old ↦ columns
]

abbrev pub create_table : Str → List Str → Ddl (Unit {0})
create_table table names =
    statement (λ d. (ok tt, record d { columns = created table names d.columns }))

-- CREATE INDEX IF NOT EXISTS
abbrev pub create_index : Ddl (Unit {0})
create_index = statement skip

abbrev pub set_pragma : Str → Str → Ddl (Unit {0})
set_pragma name value =
    statement (λ d. (ok tt, record d { pragmas = insert str_discrete name value d.pragmas }))

-- `table_columns`, by PRAGMA table_info, which has no row for a table that does not exist
abbrev pub columns_of : Str → Columns → List Str
columns_of table columns = or_default (lookup str_discrete table columns)

abbrev pub is_column : Str → Str → Columns → Bool
is_column table column columns = any (λ c. str_eq c column) (columns_of table columns)

abbrev pub table_columns : Str → Ddl (List Str)
table_columns table = statement (λ d. (ok (columns_of table d.columns), d))

unfoldable pub has_column : Str → Str → Ddl Bool
has_column table column = do
  names ← table_columns table
  (λ d. (ok (any (λ c. str_eq c column) names), d))

module _ (refusals : Refusals) where
  -- ALTER TABLE … ADD COLUMN
  abbrev pub adding : Str → Str → Database → StorageResult (Unit {0}) × Database
  adding table column d = elim (lookup str_discrete table d.columns) [
    | none ↦ (err (backend (refusals.no_such_table table)), d)
    | some names ↦
        if any (λ c. str_eq c column) names
        then (err (backend (refusals.duplicate_column column)), d)
        else (
          ok tt,
          record d {
            columns =
                adjust str_discrete table (λ (names : List Str). names ++ column ∷ []) d.columns;
          },
        )
  ]

  abbrev pub add_column : Str → Str → Ddl (Unit {0})
  add_column table column = statement (adding table column)

  -- ALTER TABLE … DROP COLUMN
  abbrev pub dropping : Str → Str → Database → StorageResult (Unit {0}) × Database
  dropping table column d =
      if is_column table column d.columns
      then (
        ok tt,
        record d {
          columns =
              adjust str_discrete table (retain (λ (c : Str). not (str_eq c column))) d.columns;
        },
      )
      else (err (backend (refusals.no_such_column column)), d)

  abbrev pub drop_column : Str → Str → Ddl (Unit {0})
  drop_column table column = statement (dropping table column)
