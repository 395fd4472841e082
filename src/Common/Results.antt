-- ===== src/Common/Results.antt =====
-- What a call comes to: a value, an error value, or a panic (a failed `expect`, an index or a slice
-- out of range).

use mathlib.Core.Option.{Option, none, some}
use mathlib.Core.Path.{◌≡◌, refl}
use mathlib.Core.List.{List, [], ◌∷◌}

pub data Outcome (E A : Type 0) : Type 0 where
  ok : A → Outcome E A
  err : E → Outcome E A
  panic : Outcome E A

infixl 5 ◌>>=◌ ◌>>◌
abbrev pub ◌>>=◌ : {E A B : Type 0} → Outcome E A → (A → Outcome E B) → Outcome E B
ok a >>= f = f a
err e >>= f = err e
panic >>= f = panic

abbrev pub ◌>>◌ : {E B : Type 0} → Outcome E (Unit {0}) → Outcome E B → Outcome E B
m >> k = m >>= λ _. k

abbrev pub map_err : {E F A : Type 0} → (E → F) → Outcome E A → Outcome F A
map_err f (ok a) = ok a
map_err f (err e) = err (f e)
map_err f panic = panic

-- A chain that succeeds has succeeded in its first step.
pub bind-ok :
    {E A B : Type 0} (m : Outcome E A) (f : A → Outcome E B) {b : B}
    → (m >>= f) ≡ ok b
    → (a : A) × (m ≡ ok a) × (f a ≡ ok b)
bind-ok (ok a) f h = (a, refl, h)
bind-ok (err e) f h = absurd (cc)
bind-ok panic f h = absurd (cc)

-- `expect`, and an index that must be in range.
abbrev pub expect : {E A : Type 0} → Option A → Outcome E A
expect none = panic
expect (some a) = ok a

-- `for row in rows { out.push(row?) }`
unfoldable pub collect : {E R A : Type 0} → (R → Outcome E A) → List R → Outcome E (List A)
collect convert [] = ok []
collect convert (row ∷ rows) = do a ← convert row; out ← collect convert rows; ok (a ∷ out)
