-- ===== src/Storage/Statements.antt =====
-- When a step on the connection that fails has changed no table.
use cordn_rs.Common.{
  ◌≡◌, refl, ◌∙◌, Bool, true, false, Option, none, some, List, [], ◌∷◌, Str, ok, err, panic,
  if◌then◌else◌,
}
use cordn_rs.Types.{StorageResult}
use cordn_rs.Sqlite.{
  Tables, Connection, Sql, return, and_then, serve, execute, query, settle, transaction, ◌>>=◌,
}

abbrev pub failed : {A : Type 0} → StorageResult A → Bool
failed (ok a) = false
failed (err e) = true
failed panic = true

-- What fails has changed no table.
abbrev pub IsAtomic : {A : Type 0} → Sql A → Type 0
IsAtomic m = (conn : Connection) → failed (m conn).0 ≡ true → (m conn).1.tables ≡ conn.tables

abbrev pub IsReading : {A : Type 0} → Sql A → Type 0
IsReading m = (conn : Connection) → (m conn).1.tables ≡ conn.tables

-- A statement that refuses does nothing.
abbrev pub IsRefusing : {A : Type 0} → (Tables → StorageResult A × Tables) → Type 0
IsRefusing sql = (t : Tables) → failed (sql t).0 ≡ true → (sql t).1 ≡ t

settle-atomic :
    {A : Type 0} (t : Tables) (r : StorageResult A × Connection)
    → failed (settle t r).0 ≡ true
    → (settle t r).1.tables ≡ t
settle-atomic t (ok a, conn) h = absurd (cc)
settle-atomic t (err e, conn) h = refl
settle-atomic t (panic, conn) h = refl

pub transaction-IsAtomic : {A : Type 0} (body : Sql A) → IsAtomic (transaction body)
unfolding transaction
transaction-IsAtomic body conn h = settle-atomic conn.tables _ h

serve-atomic :
    {A : Type 0} (r : StorageResult A × Tables) (t : Tables) (faults : List (Option Str))
    → (failed r.0 ≡ true → r.1 ≡ t)
    → failed (serve r t faults).0 ≡ true
    → (serve r t faults).1.tables ≡ t
serve-atomic r t [] k h = k h
serve-atomic r t (none ∷ faults) k h = k h
serve-atomic r t (some e ∷ faults) k h = refl

pub execute-IsAtomic :
    {A : Type 0} (sql : Tables → StorageResult A × Tables) → IsRefusing sql → IsAtomic (execute sql)
execute-IsAtomic sql k conn h =
    serve-atomic (sql conn.tables) conn.tables conn.faults (k conn.tables) h

serve-reading :
    {A : Type 0} (result : StorageResult A) (t : Tables) (faults : List (Option Str))
    → (serve (result, t) t faults).1.tables ≡ t
serve-reading result t [] = refl
serve-reading result t (none ∷ faults) = refl
serve-reading result t (some e ∷ faults) = refl

pub query-IsReading : {A : Type 0} (sql : Tables → StorageResult A) → IsReading (query sql)
query-IsReading sql conn = serve-reading (sql conn.tables) conn.tables conn.faults

-- After reading, what follows decides.
and_then-reading :
    {A B : Type 0} (r : StorageResult A × Connection) (f : A → Sql B) (t : Tables)
    → r.1.tables ≡ t
    → ((a : A) → IsAtomic (f a))
    → failed (and_then r f).0 ≡ true
    → (and_then r f).1.tables ≡ t
and_then-reading (ok a, conn) f t e k h = k a conn h ∙ e
and_then-reading (err x, conn) f t e k h = e
and_then-reading (panic, conn) f t e k h = e

pub read_then :
    {A B : Type 0} (m : Sql A) (f : A → Sql B)
    → IsReading m
    → ((a : A) → IsAtomic (f a))
    → IsAtomic (m >>= f)
read_then m f reads k conn h = and_then-reading (m conn) f conn.tables (reads conn) k h

-- After a statement, only a value.
and_then-return :
    {A B : Type 0} (r : StorageResult A × Connection) (b : B) (t : Tables)
    → (failed r.0 ≡ true → r.1.tables ≡ t)
    → failed (and_then r (λ _. return b)).0 ≡ true
    → (and_then r (λ _. return b)).1.tables ≡ t
and_then-return (ok a, conn) b t k h = absurd (cc)
and_then-return (err x, conn) b t k h = k h
and_then-return (panic, conn) b t k h = k h

pub then_return : {A B : Type 0} (m : Sql A) (b : B) → IsAtomic m → IsAtomic (m >>= λ _. return b)
then_return m b k conn h = and_then-return (m conn) b conn.tables (k conn) h

pub if-IsAtomic :
    {A : Type 0} (b : Bool) (m n : Sql A) → IsAtomic m → IsAtomic n → IsAtomic (if b then m else n)
if-IsAtomic true m n j k = j
if-IsAtomic false m n j k = k

pub return-IsAtomic : {A : Type 0} (a : A) → IsAtomic (return a)
return-IsAtomic a conn h = absurd (cc)
