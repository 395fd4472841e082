-- ===== src/MlsParse.antt =====
-- The key-package parser, crates/cordn-core/src/mls_parse.rs. A byte slice is a list of numbers below
-- 256; `panic` is an index or a slice out of range, or a loop that used up its fuel.
pub mod Utf8
pub mod Position
pub mod VarBytes
pub mod RoundTrip
pub mod LastResort
pub mod Safe
pub mod Totality
use cordn_rs.Common.{
  ℕ, zero, suc, ◌+◌, ◌-◌, ◌*◌, ◌/◌, ◌%◌, ◌^◌, ◌==◌, leb, ltb, Option, none, some, List, [], ◌∷◌,
  Bool, true, false, not, ◌&&◌, Outcome, ok, err, panic, ◌>>=◌, ◌>>◌, expect, Str, length,
  get_elem?, take, drop, is_empty, if◌then◌else◌,
}
use cordn_rs.MlsParse.Utf8.{from_utf8}

abbrev pub app_data_dictionary_extension_type : ℕ
app_data_dictionary_extension_type = 0x0006

abbrev pub last_resort_key_package_component_id : ℕ
last_resort_key_package_component_id = 0x0004

pub data MlsParseError : Type 0 where
  unexpected_eof : MlsParseError
  unsupported_version : ℕ → MlsParseError
  unsupported_credential : ℕ → MlsParseError
  unexpected_leaf_node_source : ℕ → MlsParseError
  unsupported_length_prefix : MlsParseError
  invalid_app_data_dictionary : MlsParseError
  invalid_identity : MlsParseError
  trailing_data : MlsParseError

pub record ParsedKeyPackage : Type 0 where
  pub credential_identity : Str
  pub cipher_suite : ℕ
  pub is_last_resort : Bool

abbrev pub Parse : Type 0 → Type 0
Parse A = Outcome MlsParseError A

-- `ok_or(UnexpectedEof)`
abbrev pub or_eof : {A : Type 0} → Option A → Parse A
or_eof none = err unexpected_eof
or_eof (some a) = ok a

abbrev pub require : Bool → MlsParseError → Parse (Unit {0})
require true e = ok tt
require false e = err e

pub record Cursor : Type 0 where
  pub b : List ℕ
  pub i : ℕ

abbrev pub new_cursor : List ℕ → Cursor
new_cursor bytes = record { b = bytes; i = 0 }

unfoldable pub u8 : Cursor → Parse (ℕ × Cursor)
u8 c = do v ← or_eof (get_elem? c.b c.i); ok (v, record c { i = c.i + 1 })

-- `u16::from_be_bytes` of the bytes at `i` and `i + 1`
abbrev pub be16 : ℕ → ℕ → ℕ
be16 hi lo = hi * 256 + lo

-- `get(i..i + 2)` succeeds when both bytes are there.
unfoldable pub u16 : Cursor → Parse (ℕ × Cursor)
u16 c = do
  hi ← or_eof (get_elem? c.b c.i)
  lo ← or_eof (get_elem? c.b (c.i + 1))
  ok (be16 hi lo, record c { i = c.i + 2 })

-- `for k in 1..length_field_size`: the index of the next byte, the rounds left, and the length so far.
-- On a byte, `(length << 8) | byte` is `length * 256 + byte`.
unfoldable pub length_loop : List ℕ → ℕ → ℕ → ℕ → Parse ℕ
length_loop buf at zero acc = ok acc
length_loop buf at (suc n) acc = do
  byte ← expect (get_elem? buf at)
  length_loop buf (at + 1) n (acc * 256 + byte)

unfoldable pub read_var_bytes : List ℕ → ℕ → Parse (List ℕ × ℕ)
unfolding length_loop
read_var_bytes buf offset = do
  first ← or_eof (get_elem? buf offset)
  let prefix = first / 64
  require (not (prefix == 3)) unsupported_length_prefix
  let length_field_size = 2 ^ prefix
  require (leb (offset + length_field_size) (length buf)) unexpected_eof
  size ← length_loop buf (offset + 1) (length_field_size - 1) (first % 64)
  let start = offset + length_field_size
  require (leb (start + size) (length buf)) unexpected_eof
  ok (take size (drop start buf), start + size)

unfoldable pub var_bytes : Cursor → Parse (List ℕ × Cursor)
unfolding read_var_bytes
var_bytes c = do (bytes, next) ← read_var_bytes c.b c.i; ok (bytes, record c { i = next })

unfoldable pub skip : ℕ → Cursor → Parse Cursor
skip n c = do require (leb (c.i + n) (length c.b)) unexpected_eof; ok (record c { i = c.i + n })

-- `&self.b[self.i..]`
unfoldable pub remaining : Cursor → Parse (List ℕ)
remaining c = if leb c.i (length c.b) then ok (drop c.i c.b) else panic

unfoldable pub skip_vars : ℕ → Cursor → Parse Cursor
unfolding var_bytes
skip_vars zero c = ok c
skip_vars (suc n) c = do (_, c') ← var_bytes c; skip_vars n c'

-- The two `while` loops have one shape: a 16-bit tag and a variable-length field, until one is found
-- that `hit` accepts. Each round reads three bytes or more, so a fuel above the length suffices.
unfoldable pub walk : (ℕ → List ℕ → Parse Bool) → ℕ → List ℕ → ℕ → Parse Bool
unfolding read_var_bytes
walk hit zero bytes i = panic
walk hit (suc fuel) bytes i =
    let round = (do
      hi ← or_eof (get_elem? bytes i)
      lo ← or_eof (get_elem? bytes (i + 1))
      (field, next) ← read_var_bytes bytes (i + 2)
      found ← hit (be16 hi lo) field
      elim found [ true ↦ ok true | false ↦ walk hit fuel bytes next ]) in
    if ltb i (length bytes) then round else ok false

abbrev pub is_marker : ℕ → List ℕ → Parse Bool
is_marker component_id component_data =
    ok (component_id == last_resort_key_package_component_id && is_empty component_data)

unfoldable pub is_last_resort_extension : List ℕ → Parse Bool
unfolding walk
is_last_resort_extension extension_data = do
  (dictionary, end) ← read_var_bytes extension_data 0
  require (end == length extension_data) invalid_app_data_dictionary
  walk is_marker (suc (length dictionary)) dictionary 0

abbrev pub is_last_resort_entry : ℕ → List ℕ → Parse Bool
is_last_resort_entry ext_type ext_data =
    if ext_type == app_data_dictionary_extension_type
    then is_last_resort_extension ext_data
    else ok false

unfoldable pub detect_last_resort : List ℕ → Parse Bool
unfolding walk is_last_resort_extension
detect_last_resort extensions = walk is_last_resort_entry (suc (length extensions)) extensions 0

unfoldable pub parse_key_package : List ℕ → Parse ParsedKeyPackage
parse_key_package bytes = do
  (version, c) ← u16 (new_cursor bytes)
  require (version == 1) (unsupported_version version)
  (cipher_suite, c) ← u16 c
  (_, c) ← var_bytes c
  (_, c) ← var_bytes c
  (_, c) ← var_bytes c
  (cred_type, c) ← u16 c
  require (cred_type == 1) (unsupported_credential cred_type)
  (identity_bytes, c) ← var_bytes c
  credential_identity ← from_utf8 identity_bytes (err invalid_identity)
  c ← skip_vars 5 c
  (source, c) ← u8 c
  require (source == 1) (unexpected_leaf_node_source source)
  c ← skip 16 c
  (_, c) ← var_bytes c
  (_, c) ← var_bytes c
  (kp_extensions, c) ← var_bytes c
  is_last_resort ← detect_last_resort kp_extensions
  (_, c) ← var_bytes c
  rest ← remaining c
  require (is_empty rest) trailing_data
  ok (record {
    credential_identity = credential_identity;
    cipher_suite = cipher_suite;
    is_last_resort = is_last_resort;
  })
