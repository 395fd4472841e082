-- ===== src/Sqlite/Preserves.antt =====
-- What the steps on a connection keep of the tables, whichever of them the driver fails at: a predicate
-- that no statement on its own breaks.
use cordn_rs.Common.{
  Bool, true, false, Option, none, some, List, [], ◌∷◌, ok, err, panic, Str, if◌then◌else◌,
}
use cordn_rs.Types.{StorageResult}
use cordn_rs.Sqlite.{
  Tables, Connection, Sql, return, and_then, serve, execute, control, settle, transaction, ◌>>=◌,
}

module _ (P : Tables → Type 0) where
  abbrev pub Preserves : {A : Type 0} → Sql A → Type 0
  Preserves m = (conn : Connection) → P conn.tables → P (m conn).1.tables

  pub return-Preserves : {A : Type 0} (a : A) → Preserves (return a)
  return-Preserves a conn h = h

  and_then-kept :
      {A B : Type 0} (r : StorageResult A × Connection) (f : A → Sql B)
      → ((a : A) → Preserves (f a))
      → P r.1.tables
      → P (and_then r f).1.tables
  and_then-kept (ok a, conn) f k h = k a conn h
  and_then-kept (err e, conn) f k h = h
  and_then-kept (panic, conn) f k h = h

  pub bind-Preserves :
      {A B : Type 0} (m : Sql A) (f : A → Sql B)
      → Preserves m
      → ((a : A) → Preserves (f a))
      → Preserves (m >>= f)
  bind-Preserves m f hm hf conn h = and_then-kept (m conn) f hf (hm conn h)

  served :
      {A : Type 0} (r : StorageResult A × Tables) (t : Tables) (faults : List (Option Str))
      → P r.1
      → P t
      → P (serve r t faults).1.tables
  served r t [] after before = after
  served r t (none ∷ faults) after before = after
  served r t (some e ∷ faults) after before = before

  pub execute-Preserves :
      {A : Type 0} (sql : Tables → StorageResult A × Tables)
      → ((t : Tables) → P t → P (sql t).1)
      → Preserves (execute sql)
  execute-Preserves sql k conn h =
      served (sql conn.tables) conn.tables conn.faults (k conn.tables h) h

  settled :
      {A : Type 0} (t : Tables) (r : StorageResult A × Connection)
      → P t
      → P r.1.tables
      → P (settle t r).1.tables
  settled t (ok a, conn) before after = after
  settled t (err e, conn) before after = before
  settled t (panic, conn) before after = before

  pub transaction-Preserves :
      {A : Type 0} (body : Sql A) → Preserves body → Preserves (transaction body)
  unfolding transaction
  transaction-Preserves body k conn h = settled conn.tables _ h (
      bind-Preserves control _ (execute-Preserves _ (λ t h. h))
        (λ _.
          bind-Preserves body _ k
            (λ a. bind-Preserves control _ (execute-Preserves _ (λ t h. h)) (λ _ conn h. h)))
        conn h)

  pub if-Preserves :
      {A : Type 0} (b : Bool) (m n : Sql A)
      → Preserves m
      → Preserves n
      → Preserves (if b then m else n)
  if-Preserves true m n hm hn = hm
  if-Preserves false m n hm hn = hn
