-- ===== src/Sqlite/Schema/Keeps.antt =====
-- The columns that `init` keeps, whichever of its statements the driver fails at.
use cordn_rs.Common.{
  List, [], ◌∷◌, ◌++◌, Bool, true, false, not, ◌&&◌, any, retain, ok, Str, str_eq, str_discrete,
  ◌≡◌, refl, arith, ◌||◌,
}
use cordn_rs.Common.Assoc.{adjust, lookup-insert, lookup-adjust}
use cordn_rs.Sqlite.{Synchronous}
use cordn_rs.Sqlite.Schema.Steps.{
  Keeps, bind-Keeps, then-Keeps, statement-Keeps, create_index-Keeps, has_column-Keeps, if-Keeps,
  skip-Keeps, index_then-Keeps, set_pragmas-Keeps,
}
use cordn_rs.Sqlite.Schema.{
  Columns, Database, Ddl, is_column, columns_of, created, ◌>>◌, Refusals, skip, create_table,
  has_column, adding, add_column, dropping, drop_column,
}
use cordn_rs.Sqlite.Schema.Init.{
  add_if_missing, drop_if_present, init, key_package_welcome_join_schema, group_schema,
  group_messages, group_routing, epoch, ephemeral_sender_pubkey, latest_handshake_epoch,
}

is_named-append :
    (c column : Str) (names : List Str)
    → any (λ n. str_eq n c) names ≡ true
    → any (λ n. str_eq n c) (names ++ column ∷ []) ≡ true
unfolding any
is_named-append c column [] h = absurd (cc)
is_named-append c column (n ∷ names) h = ground (arith, is_named-append c column names)

is_named-retain :
    (c column : Str) (names : List Str)
    → str_eq c column ≡ false
    → any (λ n. str_eq n c) (retain (λ n. not (str_eq n column)) names)
      ≡ any (λ n. str_eq n c) names
unfolding any retain
is_named-retain c column [] h = refl
is_named-retain c column (n ∷ names) h = ground (arith, is_named-retain c column names)

is_column-created :
    (t c table : Str) (names : List Str) (columns : Columns)
    → is_column t c columns ≡ true
    → is_column t c (created table names columns) ≡ true
unfolding any
is_column-created t c table names columns h =
    ground (arith, lookup-insert str_discrete table t names columns)

is_column-add :
    (t c table column : Str) (columns : Columns)
    → is_column t c columns ≡ true
    → is_column t c (adjust str_discrete table (λ (names : List Str). names ++ column ∷ []) columns)
      ≡ true
unfolding any
is_column-add t c table column columns h = ground (
  arith,
  lookup-adjust str_discrete table t (λ (names : List Str). names ++ column ∷ []) columns,
  is_named-append c column (columns_of t columns),
)

-- The column is not the one that is dropped.
abbrev pub is_other : Str → Str → Str → Str → Bool
is_other t c table column = not (str_eq t table && str_eq c column)

is_column-drop :
    (t c table column : Str) (columns : Columns)
    → is_other t c table column ≡ true
    → is_column t c columns ≡ true
    → is_column t c
        (adjust str_discrete table (retain (λ (n : Str). not (str_eq n column))) columns)
      ≡ true
unfolding any
is_column-drop t c table column columns other h = ground (
  arith,
  lookup-adjust str_discrete table t (retain (λ (n : Str). not (str_eq n column))) columns,
  is_named-retain c column (columns_of t columns),
)

module _ (t c : Str) where
  abbrev P : Columns → Bool
  P columns = is_column t c columns

  create_table-Keeps : (table : Str) (names : List Str) → Keeps P (create_table table names)
  create_table-Keeps table names =
      statement-Keeps P (λ d. (ok tt, record d { columns = created table names d.columns }))
        (λ d h. is_column-created t c table names d.columns h)

  add_column-Keeps :
      (refusals : Refusals) (table column : Str) → Keeps P (add_column refusals table column)
  add_column-Keeps refusals table column = statement-Keeps P _ kept
    where
      kept : Keeps P (λ (d : Database). adding refusals table column d)
      kept d h = ground (arith, is_column-add t c table column d.columns h)

  drop_column-Keeps :
      (refusals : Refusals) (table column : Str)
      → is_other t c table column ≡ true
      → Keeps P (drop_column refusals table column)
  drop_column-Keeps refusals table column other = statement-Keeps P _ kept
    where
      kept : Keeps P (λ (d : Database). dropping refusals table column d)
      kept d h = ground (arith, is_column-drop t c table column d.columns other h)

  add_if_missing-Keeps :
      (refusals : Refusals) (table column : Str) → Keeps P (add_if_missing refusals table column)
  unfolding add_if_missing
  add_if_missing-Keeps refusals table column =
      bind-Keeps P (has_column table column) _ (has_column-Keeps P table column) (λ present.
        if-Keeps P (not present) (add_column refusals table column) skip
          (add_column-Keeps refusals table column) (skip-Keeps P))

  pub drop_if_present-Keeps :
      (refusals : Refusals) (table column : Str)
      → is_other t c table column ≡ true
      → Keeps P (drop_if_present refusals table column)
  unfolding drop_if_present
  drop_if_present-Keeps refusals table column other =
      bind-Keeps P (has_column table column) _ (has_column-Keeps P table column) (λ present.
        if-Keeps P present (drop_column refusals table column) skip
          (drop_column-Keeps refusals table column other) (skip-Keeps P))

  create_then-Keeps :
      {A : Type 0} (table : Str) (names : List Str) (k : Ddl A)
      → Keeps P k
      → Keeps P (create_table table names >> k)
  create_then-Keeps table names k hk = then-Keeps P _ k (create_table-Keeps table names) hk

  key_package_welcome_join_schema-Keeps : Keeps P key_package_welcome_join_schema
  unfolding key_package_welcome_join_schema
  key_package_welcome_join_schema-Keeps = create_then-Keeps _ _ _ (
      index_then-Keeps P _ (
        index_then-Keeps P _ (
          create_then-Keeps _ _ _
            (index_then-Keeps P _ (create_then-Keeps _ _ _ (create_index-Keeps P))))))

  pub group_schema-Keeps : Keeps P group_schema
  unfolding group_schema
  group_schema-Keeps =
      create_then-Keeps _ _ _
        (create_then-Keeps _ _ _ (index_then-Keeps P _ (create_index-Keeps P)))

-- The columns that `init` drops.
abbrev pub is_retired : Str → Str → Bool
is_retired t c =
    (str_eq t group_messages && str_eq c ephemeral_sender_pubkey)
    || (str_eq t group_messages && str_eq c epoch)
    || (str_eq t group_routing && str_eq c latest_handshake_epoch)

-- Whatever the columns of the database were and whichever statement the driver fails at, the opening of
-- the database keeps every column of every table but the three that it drops.
pub init_keeps :
    (refusals : Refusals) (synchronous : Synchronous) (t c : Str) (d : Database)
    → is_retired t c ≡ false
    → is_column t c d.columns ≡ true
    → is_column t c (init refusals synchronous d).1.columns ≡ true
unfolding init
init_keeps refusals synchronous t c d unretired =
    let others : (is_other t c group_messages ephemeral_sender_pubkey ≡ true)
        × (is_other t c group_messages epoch ≡ true)
        × (is_other t c group_routing latest_handshake_epoch ≡ true) =
      ground (arith, unretired) in
    then-Keeps (P t c) _ _ (set_pragmas-Keeps (P t c) synchronous)
      (then-Keeps (P t c) _ _ (key_package_welcome_join_schema-Keeps t c) (
        then-Keeps (P t c) _ _ (add_if_missing-Keeps t c refusals _ _) (
          then-Keeps (P t c) _ _ (group_schema-Keeps t c) (
            then-Keeps (P t c) _ _ (drop_if_present-Keeps t c refusals _ _ others.0) (
              then-Keeps (P t c) _ _ (drop_if_present-Keeps t c refusals _ _ others.1)
                (drop_if_present-Keeps t c refusals _ _ others.2))))))
      d
