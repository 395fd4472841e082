-- ===== src/Tests/Migrations.antt =====
-- The theorems on the opening of a database, at one of an earlier release.
use cordn_rs.Common.{
  [], ◌∷◌, none, some, true, false, ok, err, ◌≡◌, refl, codes, any, retain, str_discrete,
}
use cordn_rs.Common.Assoc.{lookup, insert, adjust, upsert}
use cordn_rs.Types.{backend}
use cordn_rs.Sqlite.{full}
use cordn_rs.Sqlite.Schema.{Database, Refusals, is_column, statement, ◌>>=◌, ◌>>◌, has_column}
use cordn_rs.Sqlite.Schema.Init.{
  init, set_pragmas, key_package_welcome_join_schema, group_schema, add_if_missing, drop_if_present,
  welcomes, join_after_cursor, group_messages, group_routing, epoch, ephemeral_sender_pubkey,
  latest_handshake_epoch,
}
use cordn_rs.Sqlite.Schema.Keeps.{init_keeps}
use cordn_rs.Sqlite.Schema.Upgrade.{init_upgrades}

abbrev refusals : Refusals
refusals = record {
  no_such_table = λ table. table;
  duplicate_column = λ column. column;
  no_such_column = λ column. column;
}

-- Its messages have an epoch and the flag that is left alone, and its welcomes no cursor.
abbrev earlier : Database
earlier = record {
  columns =
      (welcomes, codes "id" ∷ codes "welcome_bytes" ∷ [])
      ∷ (group_messages, codes "id" ∷ epoch ∷ codes "encrypted" ∷ ephemeral_sender_pubkey ∷ [])
      ∷ (group_routing, codes "group_id" ∷ latest_handshake_epoch ∷ [])
      ∷ [];
  pragmas = [];
  faults = [];
}

-- The driver fails at the second PRAGMA.
abbrev failing : Database
failing = record earlier { faults = none ∷ some (codes "disk I/O error") ∷ [] }

init-failing : (init refusals full failing).0 ≡ err (backend (codes "disk I/O error"))
unfolding init set_pragmas ◌>>◌ ◌>>=◌ statement
init-failing = refl

init_keeps_example :
    is_column group_messages (codes "encrypted") (init refusals full failing).1.columns ≡ true
unfolding any lookup str_discrete
init_keeps_example = init_keeps refusals full group_messages (codes "encrypted") failing refl refl

opens : (init refusals full earlier).0 ≡ ok tt
unfolding init set_pragmas key_package_welcome_join_schema group_schema add_if_missing
    drop_if_present has_column ◌>>◌ ◌>>=◌ statement any lookup insert upsert adjust retain
    str_discrete
opens = refl

init_upgrades_example :
    (is_column welcomes join_after_cursor (init refusals full earlier).1.columns ≡ true)
    × (is_column group_messages ephemeral_sender_pubkey (init refusals full earlier).1.columns
        ≡ false)
    × (is_column group_messages epoch (init refusals full earlier).1.columns ≡ false)
    × (is_column group_routing latest_handshake_epoch (init refusals full earlier).1.columns
        ≡ false)
init_upgrades_example = init_upgrades refusals full earlier opens
