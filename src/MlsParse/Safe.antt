-- ===== src/MlsParse/Safe.antt =====
-- The reads and the loops of the parser (read_var_bytes and the walks): their indices and their fuel.
use native.Mathlib.Nat.{pow-suc}
use cordn_rs.Common.{
  ℕ, zero, suc, ◌+◌, ◌-◌, ◌*◌, ◌/◌, ◌%◌, ◌^◌, ◌≤◌, ◌<◌, ◌==◌, ◌≡◌, refl, List, [], ◌∷◌, Option,
  none, some, Bool, true, false, ok, err, panic, ◌>>=◌, ◌>>◌, arith, length, get_elem?, drop, leb,
  not, leb→le, dec_lt, Bool-cases, le→ltb_false, inl, lt→ltb, inr, take,
}
use cordn_rs.MlsParse.{
  Parse, MlsParseError, be16, or_eof, require, length_loop, read_var_bytes, walk, is_marker,
  is_last_resort_extension, is_last_resort_entry, detect_last_resort, unsupported_length_prefix,
  unexpected_eof,
}

-- No panic, and a value is as told.
abbrev pub Safe : {A : Type 0} → (A → Type 0) → Parse A → Type 0
Safe P (ok a) = P a
Safe P (err e) = Unit
Safe P panic = ⊥

pub Safe-bind :
    {A B : Type 0} (P : A → Type 0) (Q : B → Type 0) (m : Parse A) (f : A → Parse B)
    → Safe P m
    → ((a : A) → P a → Safe Q (f a))
    → Safe Q (m >>= f)
Safe-bind P Q (ok a) f p q = q a p
Safe-bind P Q (err e) f p q = tt
Safe-bind P Q panic f p q = absurd p

pub Safe-require :
    {B : Type 0} (Q : B → Type 0) (b : Bool) (e : MlsParseError) (k : Parse B)
    → (b ≡ true → Safe Q k)
    → Safe Q (require b e >> k)
Safe-require Q true e k h = h refl
Safe-require Q false e k h = tt

pub Safe-or_eof :
    {A B : Type 0} (Q : B → Type 0) (o : Option A) (f : A → Parse B)
    → ((a : A) → o ≡ some a → Safe Q (f a))
    → Safe Q (or_eof o >>= f)
Safe-or_eof Q none f h = tt
Safe-or_eof Q (some a) f h = h a refl

pub get_elem?-lt : (b : List ℕ) (i : ℕ) {x : ℕ} → get_elem? b i ≡ some x → i < length b
get_elem?-lt [] i h = absurd (cc)
get_elem?-lt (y ∷ b) zero h = omega arith
get_elem?-lt (y ∷ b) (suc i) h = omega (arith, get_elem?-lt b i h)

get_elem?-lt-some : (b : List ℕ) (i : ℕ) → i < length b → (x : ℕ) × (get_elem? b i ≡ some x)
get_elem?-lt-some [] i h = absurd (omega arith)
get_elem?-lt-some (y ∷ b) zero h = (y, refl)
get_elem?-lt-some (y ∷ b) (suc i) h = get_elem?-lt-some b i (omega arith)

length_loop-Safe :
    (buf : List ℕ) (at n acc : ℕ)
    → at + n ≤ length buf
    → Safe (λ _. Unit) (length_loop buf at n acc)
unfolding length_loop
length_loop-Safe buf at zero acc h = tt
length_loop-Safe buf at (suc n) acc h =
    let (x, g) = get_elem?-lt-some buf at (omega arith) in
    rw g (length_loop-Safe buf (at + 1) n (acc * 256 + x) (omega arith))

-- The field read ends inside the slice, and behind its first byte.
abbrev pub Advances : List ℕ → ℕ → List ℕ × ℕ → Type 0
Advances buf offset r = (offset < r.1) × (r.1 ≤ length buf)

two_pow_pos : (p : ℕ) → 0 < 2 ^ p
two_pow_pos zero = omega arith
two_pow_pos (suc p) = omega (arith, two_pow_pos p, pow-suc 2 p)

-- What stands behind the length bytes, and the rest of `read_var_bytes` behind its first byte.
abbrev field_of_size : List ℕ → ℕ → ℕ → Parse (List ℕ × ℕ)
field_of_size buf start size =
    require (leb (start + size) (length buf)) unexpected_eof
    >> ok (take size (drop start buf), start + size)

abbrev after_prefix : List ℕ → ℕ → ℕ → ℕ → Parse (List ℕ × ℕ)
after_prefix buf offset prefix low =
    require (leb (offset + 2 ^ prefix) (length buf)) unexpected_eof
    >> (length_loop buf (offset + 1) (2 ^ prefix - 1) low
        >>= field_of_size buf (offset + 2 ^ prefix))

abbrev rest_of_read : List ℕ → ℕ → ℕ → ℕ → Parse (List ℕ × ℕ)
rest_of_read buf offset prefix low =
    require (not (prefix == 3)) unsupported_length_prefix >> after_prefix buf offset prefix low

field_of_size-Safe :
    (buf : List ℕ) (offset start size : ℕ)
    → offset < start
    → Safe (Advances buf offset) (field_of_size buf start size)
field_of_size-Safe buf offset start size lt =
    Safe-require (Advances buf offset) (leb (start + size) (length buf)) unexpected_eof
      (ok (take size (drop start buf), start + size))
      (λ ends. (omega arith, leb→le (start + size) (length buf) ends))

fits_after : (p offset len : ℕ) → 0 < p → offset + p ≤ len → (offset + 1) + (p - 1) ≤ len
fits_after p offset len pos fits = omega arith

after_prefix-Safe :
    (buf : List ℕ) (offset prefix low : ℕ)
    → Safe (Advances buf offset) (after_prefix buf offset prefix low)
after_prefix-Safe buf offset prefix low =
    let Q = Advances buf offset in
    let start = offset + 2 ^ prefix in
    let rounds = length_loop buf (offset + 1) (2 ^ prefix - 1) low in
    Safe-require Q (leb start (length buf)) unexpected_eof (rounds >>= field_of_size buf start)
      (λ fits.
        let bound =
          fits_after (2 ^ prefix) offset (length buf) (two_pow_pos prefix)
            (leb→le start (length buf) fits) in
        Safe-bind (λ _. Unit) Q rounds (field_of_size buf start)
          (length_loop-Safe buf (offset + 1) (2 ^ prefix - 1) low bound)
          (λ size _. field_of_size-Safe buf offset start size (omega (arith, two_pow_pos prefix))))

after_first :
    (buf : List ℕ) (offset prefix low : ℕ)
    → Safe (Advances buf offset) (rest_of_read buf offset prefix low)
after_first buf offset prefix low =
    Safe-require (Advances buf offset) (not (prefix == 3)) unsupported_length_prefix
      (after_prefix buf offset prefix low) (λ _. after_prefix-Safe buf offset prefix low)

pub read_var_bytes-Safe :
    (buf : List ℕ) (offset : ℕ) → Safe (Advances buf offset) (read_var_bytes buf offset)
unfolding read_var_bytes
read_var_bytes-Safe buf offset =
    Safe-or_eof (Advances buf offset) (get_elem? buf offset) _
      (λ first g. after_first buf offset (first / 64) (first % 64))

next_round :
    (hit : ℕ → List ℕ → Parse Bool) (fuel : ℕ) (b : List ℕ) (i : ℕ) (found : Bool)
    → Safe (λ _. Unit) (walk hit fuel b i)
    → Safe
        (λ _. Unit)
        (elim found as (λ _. Parse Bool) [ true ↦ ok true | false ↦ walk hit fuel b i ])
next_round hit fuel b i true h = tt
next_round hit fuel b i false h = h

walk-Safe :
    (hit : ℕ → List ℕ → Parse Bool) (fuel : ℕ) (b : List ℕ) (i : ℕ)
    → ((tag : ℕ) (body : List ℕ) → Safe (λ _. Unit) (hit tag body))
    → length b - i < fuel
    → Safe (λ _. Unit) (walk hit fuel b i)
unfolding walk
walk-Safe hit zero b i h lt = absurd (omega arith)
walk-Safe hit (suc fuel) b i h lt = elim (dec_lt i (length b)) [
  | no done ↦ rw (le→ltb_false i (length b) (omega arith)) tt
  | yes more ↦
      let Q = λ (found : Bool). Unit {0} in
      rw (lt→ltb i (length b) more) (
        Safe-or_eof Q (get_elem? b i) _ (λ hi g. Safe-or_eof Q (get_elem? b (i + 1)) _ (λ lo g'.
          Safe-bind (Advances b (i + 2)) Q (read_var_bytes b (i + 2)) _
            (read_var_bytes-Safe b (i + 2))
            (λ r ahead. Safe-bind Q Q (hit (be16 hi lo) r.0) _ (h (be16 hi lo) r.0) (λ found _.
              next_round hit fuel b r.1 found (walk-Safe hit fuel b r.1 h (omega arith)))))))
]

is_marker-Safe : (tag : ℕ) (body : List ℕ) → Safe (λ _. Unit) (is_marker tag body)
is_marker-Safe tag body = tt

is_last_resort_extension-Safe : (bytes : List ℕ) → Safe (λ _. Unit) (is_last_resort_extension bytes)
unfolding is_last_resort_extension
is_last_resort_extension-Safe bytes =
    let Q = λ (found : Bool). Unit {0} in
    Safe-bind (Advances bytes 0) Q (read_var_bytes bytes 0) _ (read_var_bytes-Safe bytes 0) (λ r _.
      Safe-require Q _ _ _
        (λ _. walk-Safe is_marker (suc (length r.0)) r.0 0 is_marker-Safe (omega arith)))

is_last_resort_entry-Safe :
    (tag : ℕ) (body : List ℕ) → Safe (λ _. Unit) (is_last_resort_entry tag body)
is_last_resort_entry-Safe tag body = elim (Bool-cases (tag == 0x0006)) [
  | inl yes_it_is ↦ rw yes_it_is (is_last_resort_extension-Safe body)
  | inr other ↦ rw other tt
]

pub detect_last_resort-Safe : (bytes : List ℕ) → Safe (λ _. Unit) (detect_last_resort bytes)
unfolding detect_last_resort
detect_last_resort-Safe bytes =
    walk-Safe is_last_resort_entry (suc (length bytes)) bytes 0 is_last_resort_entry-Safe
      (omega arith)
