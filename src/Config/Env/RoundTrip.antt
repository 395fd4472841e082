-- ===== src/Config/Env/RoundTrip.antt =====
-- A line that exports a quoted value is read back.
use cordn_rs.Common.{
  ℕ, ◌-◌, leb, length, length-append, ◌≡◌, refl, ap, true, some, [], ◌∷◌, ◌++◌, append_assoc, any,
  last, Str, codes, take, arith, subst,
}
use cordn_rs.Common.Strings.{trim, split_once, strip_prefix}
use cordn_rs.Common.Strings.Trimmed.{is_solid, all_solid, trim-all_solid, trim-between}
use cordn_rs.Config.Env.{
  is_key, all_follow, unquote, without_export, assignment, parse_env_assignment,
}

-- the value in double quotes
abbrev pub quoted : Str → Str
quoted value = b'"' ∷ value ++ b'"' ∷ []

abbrev pub export_line : Str → Str → Str
export_line key value = codes "export " ++ (key ++ b'=' ∷ quoted value)

-- the same without the keyword
abbrev plain : Str → Str → Str
plain key value = key ++ b'=' ∷ quoted value

last-append : (s : Str) (c : ℕ) → last (s ++ c ∷ []) ≡ some c
unfolding last
last-append [] c = refl
last-append (a ∷ []) c = refl
last-append (a ∷ b ∷ s) c = last-append (b ∷ s) c

take-append : (s t : Str) → take (length s) (s ++ t) ≡ s
take-append [] t = refl
take-append (c ∷ s) t = ap (◌∷◌ c) (take-append s t)

unquote-quoted : (value : Str) → unquote (quoted value) ≡ value
unfolding last
unquote-quoted value =
    let ends : last (quoted value) ≡ some b'"' = last-append (b'"' ∷ value) b'"' in
    let long : leb 2 (length (quoted value)) ≡ true =
      ground (arith, length-append value (b'"' ∷ [])) in
    let size : length (quoted value) - 2 ≡ length value =
      omega (arith, length-append value (b'"' ∷ [])) in
    rw (ends, long, size) (take-append value (b'"' ∷ []))

split_once-key :
    (key s : Str) → all_follow key ≡ true → split_once b'=' (key ++ b'=' ∷ s) ≡ some (key, s)
unfolding split_once any
split_once-key [] s h = refl
split_once-key (c ∷ key) s h = ground (arith, split_once-key key s)

follow-solid : (key : Str) → all_follow key ≡ true → all_solid key ≡ true
unfolding any
follow-solid [] h = refl
follow-solid (c ∷ key) h = ground (arith, follow-solid key)

-- Behind a first byte the line ends with the quote.
trim-line :
    (c : ℕ) (s t : Str)
    → is_solid c ≡ true
    → trim (c ∷ s ++ (t ++ b'"' ∷ [])) ≡ c ∷ s ++ (t ++ b'"' ∷ [])
trim-line c s t h =
    subst (λ x. trim (c ∷ x) ≡ c ∷ x) (append_assoc s t (b'"' ∷ []))
      (trim-between c (s ++ t) b'"' h refl)

assignment-plain :
    (key value : Str) → is_key key ≡ true → assignment (plain key value) ≡ some (key, value)
assignment-plain [] value h = absurd (cc)
assignment-plain (c ∷ key) value h =
    let follows : all_follow (c ∷ key) ≡ true = ground arith in
    rw
      (
        assignment,
        split_once-key (c ∷ key) (quoted value) follows,
        trim-all_solid (c ∷ key) (follow-solid (c ∷ key) follows),
        h,
        trim-between b'"' value b'"' refl refl,
      )
      (ap (λ v. some (c ∷ key, v)) (unquote-quoted value))

strip-export : (rest : Str) → strip_prefix (codes "export ") (codes "export " ++ rest) ≡ some rest
unfolding strip_prefix
strip-export rest = refl

trim-plain : (key value : Str) → is_key key ≡ true → trim (plain key value) ≡ plain key value
trim-plain [] value h = absurd (cc)
trim-plain (c ∷ key) value h = trim-line c key (b'=' ∷ b'"' ∷ value) (ground arith)

-- A line `export KEY="value"` is read as that key and that value, whatever bytes the value has, if the
-- key is a letter or an underscore followed by letters, digits and underscores.
pub parse_env_assignment-export_line :
    (key value : Str)
    → is_key key ≡ true
    → parse_env_assignment (export_line key value) ≡ some (key, value)
unfolding parse_env_assignment
parse_env_assignment-export_line key value h =
    let whole : trim (export_line key value) ≡ export_line key value =
      trim-line b'e' (codes "xport " ++ key) (b'=' ∷ b'"' ∷ value) refl in
    rw (whole, without_export, strip-export (plain key value), trim-plain key value h)
      (assignment-plain key value h)
