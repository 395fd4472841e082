-- ===== src/Config/Env.antt =====
-- Environment files: `parse_env_assignment`, and the loading that does not overwrite. A file is its
-- text, or nothing if it cannot be read; the process environment is a map.
pub mod RoundTrip
pub mod Keeps
use cordn_rs.Common.{
  ℕ, ◌==◌, ltb, leb, length, Bool, true, false, not, ◌&&◌, ◌||◌, Option, none, some, List, [], ◌∷◌,
  any, last, is_empty, Outcome, ok, err, panic, ◌>>=◌, Str, str_discrete, codes, drop, take, ◌-◌,
  if◌then◌else◌,
}
use cordn_rs.Common.Assoc.{Assoc, lookup, insert}
use cordn_rs.Common.Strings.{
  trim, split_once, strip_prefix, lines, is_ascii_alphabetic, is_ascii_digit,
}
use cordn_rs.Config.{ConfigError}

abbrev pub Env : Type 0
Env = Assoc Str Str

abbrev pub starts_with : ℕ → Str → Bool
starts_with c [] = false
starts_with c (d ∷ s) = d == c

abbrev pub ends_with : ℕ → Str → Bool
ends_with c s = elim (last s) [ none ↦ false | some d ↦ d == c ]

-- `c.is_ascii_alphabetic() || c == '_'`, and `c.is_ascii_alphanumeric() || c == '_'`; the bytes of
-- other characters pass neither.
abbrev pub can_start : ℕ → Bool
can_start c = is_ascii_alphabetic c || c == b'_'

abbrev pub can_follow : ℕ → Bool
can_follow c = (is_ascii_alphabetic c || is_ascii_digit c) || c == b'_'

abbrev pub all_follow : Str → Bool
all_follow s = not (any (λ c. not (can_follow c)) s)

abbrev pub is_key : Str → Bool
is_key [] = false
is_key (c ∷ s) = can_start c && all_follow (c ∷ s)

-- A value in double or single quotes is what stands between them.
abbrev pub is_quoted : ℕ → Str → Bool
is_quoted quote value = starts_with quote value && (ends_with quote value && leb 2 (length value))

abbrev pub unquote : Str → Str
unquote value =
    if is_quoted b'"' value || is_quoted b'\'' value
    then take (length value - 2) (drop 1 value)
    else value

-- `strip_prefix("export ").map(str::trim).unwrap_or(trimmed)`
abbrev pub without_export : Str → Str
without_export trimmed = elim (strip_prefix (codes "export ") trimmed) [
  | none ↦ trimmed
  | some rest ↦ trim rest
]

-- The text behind the first `=` is the value; before it stands the key.
abbrev pub assignment : Str → Option (Str × Str)
assignment normalized = elim (split_once b'=' normalized) [
  | none ↦ none
  | some (before, behind) ↦
      if is_empty before || not (is_key (trim before))
      then none
      else some (trim before, unquote (trim behind))
]

unfoldable pub parse_env_assignment : Str → Option (Str × Str)
parse_env_assignment line =
    let trimmed = trim line in
    if is_empty trimmed || starts_with b'#' trimmed
    then none
    else assignment (without_export trimmed)

-- `set_var`, which panics at a NUL in the value
abbrev pub set_var : Str → Str → Env → Outcome ConfigError Env
set_var key value env =
    if any (λ c. c == 0) value then panic else ok (insert str_discrete key value env)

-- One line: a variable that is set stays.
abbrev pub load_line : Str → Env → Outcome ConfigError Env
load_line line env = elim (parse_env_assignment line) [
  | none ↦ ok env
  | some (key, value) ↦ elim (lookup str_discrete key env) [
    | none ↦ set_var key value env
    | some v ↦ ok env
  ]
]

load_lines : List Str → Env → Outcome ConfigError Env
load_lines [] env = ok env
load_lines (line ∷ rest) env = load_line line env >>= λ env'. load_lines rest env'

unfoldable pub load_env_file : Option Str → Env → Outcome ConfigError Env
unfolding load_lines
load_env_file none env = ok env
load_env_file (some content) env = load_lines (lines content) env

-- `.env`, and then `.env.local`
unfoldable pub load_env_files : Option Str → Option Str → Env → Outcome ConfigError Env
load_env_files dot_env dot_env_local env =
    load_env_file dot_env env >>= λ env'. load_env_file dot_env_local env'
