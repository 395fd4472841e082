-- ===== src/Sqlite/Welcomes.antt =====
-- The welcome operations of the SQLite backend.
pub mod Effects
use cordn_rs.Common.{
  ℕ, List, [], ◌∷◌, ◌++◌, Bool, not, ◌&&◌, ok, Str, str_eq, retain, length, ◌-◌, if◌then◌else◌,
}
use cordn_rs.Common.Int.{ℤ, pos, int_eq, leb_ℤ, ltb_ℤ}
use cordn_rs.Types.{WelcomeQueueRecord, ConsumedWelcomeRef, StorageResult}
use cordn_rs.Sqlite.{Tables, Sql, return, execute, query, transaction, ◌>>=◌, ◌>>◌}

abbrev pub is_for : Str → WelcomeQueueRecord → Bool
is_for target row = str_eq row.target_stable_pubkey target

unfoldable pub store_welcome : WelcomeQueueRecord → Sql WelcomeQueueRecord
store_welcome r = do execute (λ t. (ok tt, record t { welcomes = t.welcomes ++ r ∷ [] })); return r

-- DELETE FROM welcomes WHERE target_stable_pubkey = ?1 AND key_package_reference = ?2 AND created_at = ?3
abbrev pub names : Str → ConsumedWelcomeRef → WelcomeQueueRecord → Bool
names target c row =
    is_for target row
    && (str_eq row.key_package_reference c.key_package_reference
        && int_eq row.created_at c.created_at)

-- `for c in consumed`
unfoldable pub retire_loop : Str → List ConsumedWelcomeRef → Sql (Unit {0})
retire_loop target [] = return tt
retire_loop target (c ∷ cs) = do
  execute
      (λ t. (ok tt, record t { welcomes = retain (λ row. not (names target c row)) t.welcomes }))
  retire_loop target cs

unfoldable pub fetch_pending_welcomes :
    Str → List ConsumedWelcomeRef → Sql (List WelcomeQueueRecord)
unfolding retire_loop
fetch_pending_welcomes target consumed =
    transaction
      (do retire_loop target consumed; query (λ t. ok (retain (is_for target) t.welcomes)))

unfoldable pub delete_expired_welcomes : ℤ → Sql ℕ
delete_expired_welcomes max_age_threshold =
    if leb_ℤ max_age_threshold (pos 0)
    then return 0
    else execute (λ t.
      let kept = retain (λ row. not (ltb_ℤ row.created_at max_age_threshold)) t.welcomes in
      (ok (length t.welcomes - length kept), record t { welcomes = kept }))
