-- ===== src/Tests/Parser.antt =====
-- The theorems on the key-package parser, at concrete packages.
use cordn_rs.Common.{◌≡◌, ◌≢◌, refl, ◌>>=◌, arith, List, [], ◌∷◌, ok, panic, any, length, ◌<◌, ◌^◌}
use cordn_rs.MlsParse.{parse_key_package, detect_last_resort}
use cordn_rs.MlsParse.Utf8.{is_utf8, is_utf8_from, lead}
use cordn_rs.MlsParse.VarBytes.{encode_var}
use cordn_rs.MlsParse.RoundTrip.{
  KeyPackage, IsEncodable, encode_key_package, report, parse_key_package-encode_key_package,
}
use cordn_rs.MlsParse.LastResort.{
  Entry, dictionary, has_marker, encode_entries, encode_extensions,
  detect_last_resort-encode_extensions,
}
use cordn_rs.MlsParse.Totality.{parse_key_package-ne-panic}
use cordn_rs.Tests.{alice}

parse_key_package-ne-panic_example : parse_key_package (0 ∷ 1 ∷ 255 ∷ []) ≢ panic
parse_key_package-ne-panic_example = parse_key_package-ne-panic (0 ∷ 1 ∷ 255 ∷ [])

-- The marker of a last-resort package, and an entry that is none.
abbrev marker : List Entry
marker = record { tag = 9; body = 1 ∷ [] } ∷ record { tag = 4; body = [] } ∷ []

short_dictionary : length (encode_entries marker) < 2 ^ 30
unfolding encode_entries encode_var
short_dictionary = omega arith

short_extension : length (encode_var (encode_entries marker)) < 2 ^ 30
unfolding encode_entries encode_var
short_extension = omega arith

detect_last_resort_example :
    detect_last_resort (encode_extensions (dictionary marker ∷ []))
    ≡ ok (any has_marker (dictionary marker ∷ []))
detect_last_resort_example =
    detect_last_resort-encode_extensions (dictionary marker ∷ [])
      (((omega arith, (omega arith, tt)), short_dictionary, short_extension), tt)

abbrev whole : KeyPackage
whole = record {
  cipher_suite = 1;
  init_key = 1 ∷ [];
  hpke_pub = 2 ∷ [];
  sig_pub = 3 ∷ [];
  identity = alice;
  versions = [];
  ciphersuites = [];
  extensions = [];
  proposals = [];
  credentials = [];
  lifetime = 0 ∷ 0 ∷ 0 ∷ 0 ∷ 0 ∷ 0 ∷ 0 ∷ 0 ∷ 0 ∷ 0 ∷ 0 ∷ 0 ∷ 0 ∷ 0 ∷ 0 ∷ 0 ∷ [];
  ln_extensions = [];
  ln_signature = 4 ∷ [];
  kp_extensions = [];
  signature = 5 ∷ [];
}

whole-IsEncodable : IsEncodable whole
unfolding is_utf8 is_utf8_from lead
whole-IsEncodable = record {
  utf8 = refl;
  lifetime = refl;
  init_key = omega arith;
  hpke_pub = omega arith;
  sig_pub = omega arith;
  identity = omega arith;
  versions = omega arith;
  ciphersuites = omega arith;
  extensions = omega arith;
  proposals = omega arith;
  credentials = omega arith;
  ln_extensions = omega arith;
  ln_signature = omega arith;
  kp_extensions = omega arith;
  signature = omega arith;
}

parse_key_package-encode_example :
    parse_key_package (encode_key_package whole []) ≡ (detect_last_resort [] >>= report whole [])
parse_key_package-encode_example = parse_key_package-encode_key_package whole [] whole-IsEncodable
