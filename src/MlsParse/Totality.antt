-- ===== src/MlsParse/Totality.antt =====
-- The parser on arbitrary bytes: indices, slices and fuel.
use cordn_rs.Common.{
  ℕ, zero, suc, ◌+◌, ◌≤◌, ◌==◌, ◌≢◌, List, ok, err, panic, ◌>>=◌, ◌>>◌, arith, length, get_elem?,
  is_empty, leb→le, Bool-cases, le→leb, inl, inr,
}
use cordn_rs.MlsParse.{
  Parse, ParsedKeyPackage, Cursor, new_cursor, require, u8, u16, var_bytes, skip, skip_vars,
  remaining, read_var_bytes, detect_last_resort, parse_key_package, trailing_data,
  unexpected_leaf_node_source, from_utf8, unsupported_version, invalid_identity,
  unsupported_credential,
}
use cordn_rs.MlsParse.Utf8.{is_utf8}
use cordn_rs.MlsParse.Safe.{
  Safe, Safe-bind, Safe-require, Safe-or_eof, get_elem?-lt, Advances, read_var_bytes-Safe,
  detect_last_resort-Safe,
}

-- A cursor inside its slice.
abbrev Inside : Cursor → Type 0
Inside c = c.i ≤ length c.b

abbrev InsideAfter : {A : Type 0} → A × Cursor → Type 0
InsideAfter r = Inside r.1

var_bytes-Safe : (c : Cursor) → Safe InsideAfter (var_bytes c)
unfolding var_bytes
var_bytes-Safe c =
    Safe-bind (Advances c.b c.i) InsideAfter (read_var_bytes c.b c.i) _
      (read_var_bytes-Safe c.b c.i) (λ r a. a.1)

u16-Safe : (c : Cursor) → Safe InsideAfter (u16 c)
unfolding u16
u16-Safe c = Safe-or_eof InsideAfter (get_elem? c.b c.i) _ (λ hi _.
    Safe-or_eof InsideAfter (get_elem? c.b (c.i + 1)) _
      (λ lo g. let lt = get_elem?-lt c.b (c.i + 1) g in omega arith))

u8-Safe : (c : Cursor) → Safe InsideAfter (u8 c)
unfolding u8
u8-Safe c =
    Safe-or_eof InsideAfter (get_elem? c.b c.i) _
      (λ v g. let lt = get_elem?-lt c.b c.i g in omega arith)

skip-Safe : (n : ℕ) (c : Cursor) → Safe Inside (skip n c)
unfolding skip
skip-Safe n c = Safe-require Inside _ _ _ (λ fits. leb→le (c.i + n) (length c.b) fits)

skip_vars-Safe : (n : ℕ) (c : Cursor) → Inside c → Safe Inside (skip_vars n c)
unfolding skip_vars
skip_vars-Safe zero c h = h
skip_vars-Safe (suc n) c h =
    Safe-bind InsideAfter Inside (var_bytes c) _ (var_bytes-Safe c) (λ r a. skip_vars-Safe n r.1 a)

remaining-Safe : (c : Cursor) → Inside c → Safe (λ _. Unit) (remaining c)
unfolding remaining
remaining-Safe c h = rw (le→leb c.i (length c.b) h) tt

-- From the extensions of the key package on.
abbrev after_leaf : List ℕ → ℕ → Cursor → Parse ParsedKeyPackage
after_leaf identity cipher_suite c = do
  (_, c) ← var_bytes c
  (_, c) ← var_bytes c
  (kp_extensions, c) ← var_bytes c
  is_last_resort ← detect_last_resort kp_extensions
  (_, c) ← var_bytes c
  rest ← remaining c
  require (is_empty rest) trailing_data
  ok (record {
    credential_identity = identity;
    cipher_suite = cipher_suite;
    is_last_resort = is_last_resort;
  })

after_leaf-Safe :
    (identity : List ℕ) (cipher_suite : ℕ) (c : Cursor)
    → Safe (λ _. Unit) (after_leaf identity cipher_suite c)
after_leaf-Safe identity cipher_suite c =
    let Q = λ (parsed : ParsedKeyPackage). Unit {0} in
    Safe-bind InsideAfter Q (var_bytes c) _ (var_bytes-Safe c) (λ r _.
      Safe-bind InsideAfter Q (var_bytes r.1) _ (var_bytes-Safe r.1) (λ s _.
        Safe-bind InsideAfter Q (var_bytes s.1) _ (var_bytes-Safe s.1) (λ t _.
          Safe-bind (λ _. Unit) Q (detect_last_resort t.0) _ (detect_last_resort-Safe t.0)
            (λ flag _. Safe-bind InsideAfter Q (var_bytes t.1) _ (var_bytes-Safe t.1) (λ u inside.
              Safe-bind (λ _. Unit) Q (remaining u.1) _ (remaining-Safe u.1 inside)
                (λ rest _. Safe-require Q (is_empty rest) trailing_data _ (λ _. tt)))))))

-- From the fields of the leaf node behind the identity on.
abbrev after_identity : ℕ → Cursor → List ℕ → Parse ParsedKeyPackage
after_identity cipher_suite c identity = do
  c ← skip_vars 5 c
  (source, c) ← u8 c
  require (source == 1) (unexpected_leaf_node_source source)
  c ← skip 16 c
  after_leaf identity cipher_suite c

after_identity-Safe :
    (cipher_suite : ℕ) (c : Cursor) (identity : List ℕ)
    → Inside c
    → Safe (λ _. Unit) (after_identity cipher_suite c identity)
after_identity-Safe cipher_suite c identity inside =
    let Q = λ (parsed : ParsedKeyPackage). Unit {0} in
    Safe-bind Inside Q (skip_vars 5 c) _ (skip_vars-Safe 5 c inside) (λ c' _.
      Safe-bind InsideAfter Q (u8 c') _ (u8-Safe c') (λ r _.
        Safe-require Q (r.0 == 1) (unexpected_leaf_node_source r.0) _ (λ _.
          Safe-bind Inside Q (skip 16 r.1) _ (skip-Safe 16 r.1)
            (λ c'' _. after_leaf-Safe identity cipher_suite c''))))

from_utf8-Safe : (bytes : List ℕ) → Safe (λ _. Unit) (from_utf8 bytes (err invalid_identity))
from_utf8-Safe bytes = elim (Bool-cases (is_utf8 bytes)) [
  | inl valid ↦ rw valid tt
  | inr invalid ↦ rw invalid tt
]

parse_key_package-Safe : (bytes : List ℕ) → Safe (λ _. Unit) (parse_key_package bytes)
unfolding parse_key_package
parse_key_package-Safe bytes =
    let Q = λ (parsed : ParsedKeyPackage). Unit {0} in
    Safe-bind InsideAfter Q (u16 (new_cursor bytes)) _ (u16-Safe (new_cursor bytes)) (λ v _.
      Safe-require Q (v.0 == 1) (unsupported_version v.0) _ (λ _.
        Safe-bind InsideAfter Q (u16 v.1) _ (u16-Safe v.1) (λ suite _.
          Safe-bind InsideAfter Q (var_bytes suite.1) _ (var_bytes-Safe suite.1) (λ a _.
            Safe-bind InsideAfter Q (var_bytes a.1) _ (var_bytes-Safe a.1) (λ b _.
              Safe-bind InsideAfter Q (var_bytes b.1) _ (var_bytes-Safe b.1) (λ d _.
                Safe-bind InsideAfter Q (u16 d.1) _ (u16-Safe d.1) (λ kind _.
                  Safe-require Q (kind.0 == 1) (unsupported_credential kind.0) _ (λ _.
                    Safe-bind InsideAfter Q (var_bytes kind.1) _ (var_bytes-Safe kind.1)
                      (λ id inside.
                        Safe-bind (λ _. Unit) Q (from_utf8 id.0 (err invalid_identity)) _
                          (from_utf8-Safe id.0)
                          (λ identity _. after_identity-Safe suite.0 id.1 identity inside))))))))))

Safe-ne_panic : {A : Type 0} (P : A → Type 0) (m : Parse A) → Safe P m → m ≢ panic
Safe-ne_panic P (ok a) h e = cc
Safe-ne_panic P (err x) h e = cc
Safe-ne_panic P panic h e = h

-- On every byte sequence the parser comes to a key package or to an error: no index and no slice is out of
-- range, and the loops end within their fuel.
pub parse_key_package-ne-panic : (bytes : List ℕ) → parse_key_package bytes ≢ panic
parse_key_package-ne-panic bytes =
    Safe-ne_panic (λ _. Unit) (parse_key_package bytes) (parse_key_package-Safe bytes)
