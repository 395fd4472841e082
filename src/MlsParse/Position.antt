-- ===== src/MlsParse/Position.antt =====
-- What lies ahead at a position of a slice.
use cordn_rs.Common.{
  ℕ, zero, suc, ◌+◌, ◌≡◌, refl, ap, ◌∙◌, List, [], ◌∷◌, ◌++◌, some, arith, length, length-append,
  get_elem?, take, drop,
}

-- From index `i` of `b` on there is just `ahead`.
pub record At (b : List ℕ) (i : ℕ) (ahead : List ℕ) : Type 0 where
  pub tail : drop i b ≡ ahead
  pub size : i + length ahead ≡ length b

pub At-start : (b : List ℕ) → At b 0 b
At-start b = record { tail = refl; size = omega arith }

get_elem?-drop :
    (b : List ℕ) (i : ℕ) {x : ℕ} {rest : List ℕ}
    → drop i b ≡ x ∷ rest
    → (get_elem? b i ≡ some x) × (drop (suc i) b ≡ rest)
get_elem?-drop [] zero h = absurd (cc)
get_elem?-drop [] (suc i) h = absurd (cc)
get_elem?-drop (y ∷ b) zero h = ground arith
get_elem?-drop (y ∷ b) (suc i) h = get_elem?-drop b i h

-- The next byte, and the position behind it.
pub At-byte :
    (b : List ℕ) (i : ℕ) {x : ℕ} {rest : List ℕ}
    → At b i (x ∷ rest)
    → (get_elem? b i ≡ some x) × At b (i + 1) rest
At-byte b i {x} {rest} h =
    let (here, next) = get_elem?-drop b i h.tail in
    let e : i + 1 ≡ suc i = omega arith in
    (here, record { tail = ap (λ (k : ℕ). drop k b) e ∙ next; size = omega (arith, h.size) })

take-append : (xs ys : List ℕ) → take (length xs) (xs ++ ys) ≡ xs
take-append [] ys = refl
take-append (x ∷ xs) ys = ap (◌∷◌ x) (take-append xs ys)

drop-append :
    (b : List ℕ) (i : ℕ) (xs : List ℕ) {ys : List ℕ}
    → drop i b ≡ xs ++ ys
    → drop (i + length xs) b ≡ ys
drop-append b i [] h = let e : i + 0 ≡ i = omega arith in ap (λ (k : ℕ). drop k b) e ∙ h
drop-append b i (x ∷ xs) h =
    let e : i + suc (length xs) ≡ suc i + length xs = omega arith in
    ap (λ (k : ℕ). drop k b) e ∙ drop-append b (suc i) xs (get_elem?-drop b i h).1

-- The next bytes, and the position behind them.
pub At-take :
    (b : List ℕ) (i : ℕ) (xs : List ℕ) {rest : List ℕ}
    → At b i (xs ++ rest)
    → (take (length xs) (drop i b) ≡ xs) × At b (i + length xs) rest
At-take b i xs {rest} h = (
  ap (take (length xs)) h.tail ∙ take-append xs rest,
  record { tail = drop-append b i xs h.tail; size = omega (arith, h.size, length-append xs rest) },
)
