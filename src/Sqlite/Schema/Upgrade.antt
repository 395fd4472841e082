-- ===== src/Sqlite/Schema/Upgrade.antt =====
-- The columns that `init` leaves.
use cordn_rs.Common.{Bool, true, false, not, ok, err, panic, ◌≡◌, arith}
use cordn_rs.Types.{StorageResult}
use cordn_rs.Sqlite.{Synchronous}
use cordn_rs.Sqlite.Schema.{Columns, Database, Ddl, is_column, ◌>>◌, Refusals}
use cordn_rs.Sqlite.Schema.Init.{
  drop_if_present, init, set_pragmas, key_package_welcome_join_schema, group_schema, group_messages,
  group_routing, epoch, ephemeral_sender_pubkey, latest_handshake_epoch, welcomes,
  join_after_cursor,
}
use cordn_rs.Sqlite.Schema.Keeps.{group_schema-Keeps, drop_if_present-Keeps}
use cordn_rs.Sqlite.Schema.Steps.{then-Keeps}
use cordn_rs.Sqlite.Schema.Migrations.{
  Holds, Leaves, then-Leaves, kept-Leaves, add_if_missing-Leaves, drop_if_present-Leaves,
  drop_if_present-lacks, has, lacks,
}

holds_of_ok :
    (P : Columns → Bool) (out : StorageResult (Unit {0}) × Database)
    → out.0 ≡ ok tt
    → Holds P out
    → P out.1.columns ≡ true
holds_of_ok P (ok a, d) e h = h
holds_of_ok P (err e', d) e h = absurd (cc)
holds_of_ok P (panic, d) e h = absurd (cc)

false_of_not : (b : Bool) → not b ≡ true → b ≡ false
false_of_not b h = ground arith

module _ (refusals : Refusals) (synchronous : Synchronous) where
  -- What a suffix of the steps leaves, the whole leaves.
  last_steps :
      (P : Columns → Bool) (add drops : Ddl (Unit {0}))
      → Leaves P drops
      → Leaves P (
          set_pragmas synchronous
          >> (key_package_welcome_join_schema >> (add >> (group_schema >> drops))))
  last_steps P add drops h = then-Leaves P (set_pragmas synchronous) _ (
      then-Leaves P key_package_welcome_join_schema _
        (then-Leaves P add _ (then-Leaves P group_schema drops h)))

  abbrev drop_sender : Ddl (Unit {0})
  drop_sender = drop_if_present refusals group_messages ephemeral_sender_pubkey

  abbrev drop_epoch : Ddl (Unit {0})
  drop_epoch = drop_if_present refusals group_messages epoch

  abbrev drop_handshake : Ddl (Unit {0})
  drop_handshake = drop_if_present refusals group_routing latest_handshake_epoch

  joins : Leaves (has welcomes join_after_cursor) (init refusals synchronous)
  unfolding init
  joins =
      let P = has welcomes join_after_cursor in
      then-Leaves P (set_pragmas synchronous) _ (
        then-Leaves P key_package_welcome_join_schema _ (
          kept-Leaves P _ _ (add_if_missing-Leaves welcomes join_after_cursor refusals) (
            then-Keeps P _ _ (group_schema-Keeps welcomes join_after_cursor) (
              then-Keeps P _ _ (drop_if_present-Keeps _ _ refusals _ _ (ground arith)) (
                then-Keeps P _ _ (drop_if_present-Keeps _ _ refusals _ _ (ground arith))
                  (drop_if_present-Keeps _ _ refusals _ _ (ground arith)))))))

  no_sender : Leaves (lacks group_messages ephemeral_sender_pubkey) (init refusals synchronous)
  unfolding init
  no_sender =
      let P = lacks group_messages ephemeral_sender_pubkey in
      last_steps P _ _ (
        kept-Leaves P drop_sender _ (drop_if_present-Leaves _ _ refusals) (
          then-Keeps P drop_epoch drop_handshake (drop_if_present-lacks _ _ refusals _ _)
            (drop_if_present-lacks _ _ refusals _ _)))

  no_epoch : Leaves (lacks group_messages epoch) (init refusals synchronous)
  unfolding init
  no_epoch =
      let P = lacks group_messages epoch in
      last_steps P _ _ (
        then-Leaves P drop_sender _ (
          kept-Leaves P drop_epoch drop_handshake (drop_if_present-Leaves _ _ refusals)
            (drop_if_present-lacks _ _ refusals _ _)))

  no_handshake : Leaves (lacks group_routing latest_handshake_epoch) (init refusals synchronous)
  unfolding init
  no_handshake =
      let P = lacks group_routing latest_handshake_epoch in
      last_steps P _ _ (
        then-Leaves P drop_sender _
          (then-Leaves P drop_epoch drop_handshake (drop_if_present-Leaves _ _ refusals)))

-- If the opening of a database succeeds, then the welcomes have the column of the cursor to sync after, and
-- the three columns that are no longer used are gone, whatever the columns were before.
pub init_upgrades :
    (refusals : Refusals) (synchronous : Synchronous) (d : Database)
    → (init refusals synchronous d).0 ≡ ok tt
    → let columns = (init refusals synchronous d).1.columns in
      (is_column welcomes join_after_cursor columns ≡ true)
      × (is_column group_messages ephemeral_sender_pubkey columns ≡ false)
      × (is_column group_messages epoch columns ≡ false)
      × (is_column group_routing latest_handshake_epoch columns ≡ false)
init_upgrades refusals synchronous d e =
    let out = init refusals synchronous d in
    (
      holds_of_ok _ out e (joins refusals synchronous d),
      false_of_not _ (holds_of_ok _ out e (no_sender refusals synchronous d)),
      false_of_not _ (holds_of_ok _ out e (no_epoch refusals synchronous d)),
      false_of_not _ (holds_of_ok _ out e (no_handshake refusals synchronous d)),
    )
