-- ===== src/Sqlite/Welcomes/Effects.antt =====
-- What the welcome operations do to the table and answer, while the driver does not fail.
use cordn_rs.Common.{
  ◌≡◌, refl, Bool, true, false, not, ◌&&◌, ◌-◌, List, [], ◌∷◌, ◌++◌, ok, Str, str_eq, any, retain,
  arith, if◌then◌else◌, length,
}
use cordn_rs.Common.Int.{ℤ, pos, leb_ℤ, ltb_ℤ, int_eq}
use cordn_rs.Common.Rows.{rows_of, rows_of-delete}
use cordn_rs.Types.{WelcomeQueueRecord, ConsumedWelcomeRef}
use cordn_rs.Memory.Welcomes.{is_unconsumed}
use cordn_rs.Sqlite.{Tables, quiet, transaction}
use cordn_rs.Memory.Welcomes.Laws.{unconsumed-nil}
use cordn_rs.Sqlite.Welcomes.{
  names, retire_loop, store_welcome, fetch_pending_welcomes, delete_expired_welcomes,
}

abbrev pub target_of : WelcomeQueueRecord → Str
target_of r = r.target_stable_pubkey

-- What the loop of deletions leaves.
unfoldable pub retired :
    Str → List ConsumedWelcomeRef → List WelcomeQueueRecord → List WelcomeQueueRecord
retired pk [] rows = rows
retired pk (c ∷ cs) rows = retired pk cs (retain (λ row. not (names pk c row)) rows)

retire_loop_lem :
    (pk : Str) (cs : List ConsumedWelcomeRef) (t : Tables)
    → retire_loop pk cs (quiet t)
      ≡ (ok tt, quiet (record t { welcomes = retired pk cs t.welcomes }))
unfolding retire_loop retired
retire_loop_lem pk [] t = refl
retire_loop_lem pk (c ∷ cs) t =
    retire_loop_lem pk cs (record t { welcomes = retain (λ row. not (names pk c row)) t.welcomes })

pub store_welcome_effect :
    (r : WelcomeQueueRecord) (t : Tables)
    → store_welcome r (quiet t) ≡ (ok r, quiet (record t { welcomes = t.welcomes ++ r ∷ [] }))
unfolding store_welcome
store_welcome_effect r t = refl

pub fetch_pending_welcomes_effect :
    (pk : Str) (cs : List ConsumedWelcomeRef) (t : Tables)
    → fetch_pending_welcomes pk cs (quiet t) ≡ (
      ok (rows_of target_of pk (retired pk cs t.welcomes)),
      quiet (record t { welcomes = retired pk cs t.welcomes }),
    )
unfolding fetch_pending_welcomes transaction
fetch_pending_welcomes_effect pk cs t = rw (retire_loop_lem pk cs t) refl

abbrev is_named : ConsumedWelcomeRef → WelcomeQueueRecord → Bool
is_named c row =
    str_eq row.key_package_reference c.key_package_reference && int_eq row.created_at c.created_at

-- One deletion drops what the reference retires.
unnamed :
    (c : ConsumedWelcomeRef) (cs : List ConsumedWelcomeRef) (rows : List WelcomeQueueRecord)
    → retain (is_unconsumed cs) (retain (λ row. not (is_named c row)) rows)
      ≡ retain (is_unconsumed (c ∷ cs)) rows
unfolding retain any
unnamed c cs [] = refl
unnamed c cs (r ∷ rows) = ground (arith, unnamed c cs rows)

-- The deletions leave a caller the rows that no reference names, and everybody else all of theirs.
pub rows_of-retired :
    (pk j : Str) (cs : List ConsumedWelcomeRef) (rows : List WelcomeQueueRecord)
    → rows_of target_of j (retired pk cs rows) ≡ (
        if str_eq pk j
        then retain (is_unconsumed cs) (rows_of target_of j rows)
        else rows_of target_of j rows)
unfolding retired
rows_of-retired pk j [] rows = ground (arith, unconsumed-nil (rows_of target_of j rows))
rows_of-retired pk j (c ∷ cs) rows =
    let rest = retain (λ row. not (names pk c row)) rows in
    ground (
      arith,
      rows_of-retired pk j cs rest,
      rows_of-delete target_of pk j (is_named c) rows,
      unnamed c cs (rows_of target_of j rows),
    )

pub delete_expired_welcomes_effect :
    (age : ℤ) (t : Tables)
    → leb_ℤ age (pos 0) ≡ false
    → delete_expired_welcomes age (quiet t) ≡ (
      ok (length t.welcomes - length (retain (λ row. not (ltb_ℤ row.created_at age)) t.welcomes)),
      quiet (record t { welcomes = retain (λ row. not (ltb_ℤ row.created_at age)) t.welcomes }),
    )
unfolding delete_expired_welcomes
delete_expired_welcomes_effect age t h = rw h refl

pub delete_expired_welcomes_off :
    (age : ℤ) (t : Tables)
    → leb_ℤ age (pos 0) ≡ true
    → delete_expired_welcomes age (quiet t) ≡ (ok 0, quiet t)
unfolding delete_expired_welcomes
delete_expired_welcomes_off age t h = rw h refl

-- `created_at < t` is the negation of `created_at >= t`.
pub kept-eq :
    (age : ℤ) (rows : List WelcomeQueueRecord)
    → retain (λ row. not (ltb_ℤ row.created_at age)) rows
      ≡ retain (λ row. leb_ℤ age row.created_at) rows
unfolding retain
kept-eq age [] = refl
kept-eq age (r ∷ rows) = ground (arith, kept-eq age rows)
