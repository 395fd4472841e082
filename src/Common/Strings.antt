-- ===== src/Common/Strings.antt =====
-- The `str` methods of the standard library that the configuration calls, on UTF-8 bytes.
pub mod Trimmed
pub mod Bounds
use Prim.Native.Nat.{ℕ, zero, suc, ◌+◌, ◌-◌, ◌*◌, ◌^◌, ◌≤◌, ◌<◌}
use mathlib.Core.Path.{◌≡◌, refl, ap, sym, ◌∙◌, subst}
use mathlib.Core.Bool.{Bool, true, false, ◌&&◌, ◌||◌}
use mathlib.Core.List.{List, [], ◌∷◌, ◌++◌, map}
use mathlib.Core.Option.{Option, none, some}
use native.Mathlib.Omega.{arith}
use cordn_rs.Common.Tests.{if◌then◌else◌, ltb, leb, ◌==◌, Str, Bool-cases}
use cordn_rs.Common.Int.{ℤ, pos, negsuc, pos_part}

-- `White_Space` characters of one byte, and by the bytes of their encodings those of two and three:
-- U+0085, U+00A0; U+1680, U+2000 to U+200A, U+2028, U+2029, U+202F, U+205F, U+3000.
abbrev pub is_space : ℕ → Bool
is_space c = c == b' ' || (leb 9 c && leb c 13)

abbrev is_space_2 : ℕ → ℕ → Bool
is_space_2 a b = a == 0xC2 && (b == 0x85 || b == 0xA0)

abbrev is_space_3 : ℕ → ℕ → ℕ → Bool
is_space_3 a b c =
    (a == 0xE1 && (b == 0x9A && c == 0x80))
    || (a == 0xE2
        && ((b == 0x80 && ((leb 0x80 c && leb c 0x8A) || (c == 0xA8 || (c == 0xA9 || c == 0xAF))))
            || (b == 0x81 && c == 0x9F)))
    || (a == 0xE3 && (b == 0x80 && c == 0x80))

-- How many bytes the white space takes at the start of a text, 0 if there is none there.
abbrev space_at_start : Str → ℕ
space_at_start [] = 0
space_at_start (a ∷ []) = if is_space a then 1 else 0
space_at_start (a ∷ b ∷ []) = if is_space a then 1 else if is_space_2 a b then 2 else 0
space_at_start (a ∷ b ∷ c ∷ s) =
    if is_space a then 1 else if is_space_2 a b then 2 else if is_space_3 a b c then 3 else 0

-- The same at the end, of a text read from its last byte.
abbrev space_at_end : Str → ℕ
space_at_end [] = 0
space_at_end (a ∷ []) = if is_space a then 1 else 0
space_at_end (a ∷ b ∷ []) = if is_space a then 1 else if is_space_2 b a then 2 else 0
space_at_end (a ∷ b ∷ c ∷ s) =
    if is_space a then 1 else if is_space_2 b a then 2 else if is_space_3 c b a then 3 else 0

-- Drops `n` bytes more, and then white space as long as there is some.
skip_spaces : (Str → ℕ) → ℕ → Str → Str
skip_spaces space n [] = []
skip_spaces space (suc n) (c ∷ s) = skip_spaces space n s
skip_spaces space zero (c ∷ s) = elim (space (c ∷ s)) [
  | zero ↦ c ∷ s
  | suc n ↦ skip_spaces space n s
]

-- the last byte first
unfoldable pub reverse_onto : Str → Str → Str
reverse_onto out [] = out
reverse_onto out (c ∷ s) = reverse_onto (c ∷ out) s

abbrev pub reverse : Str → Str
reverse s = reverse_onto [] s

-- `trim`
unfoldable pub trim : Str → Str
unfolding skip_spaces
trim s = reverse (skip_spaces space_at_end 0 (reverse (skip_spaces space_at_start 0 s)))

-- `to_ascii_lowercase`
abbrev pub lower : ℕ → ℕ
lower c = if leb b'A' c && leb c b'Z' then c + 32 else c

abbrev pub to_ascii_lowercase : Str → Str
to_ascii_lowercase s = map lower s

abbrev pub is_ascii_alphabetic : ℕ → Bool
is_ascii_alphabetic c = (leb b'A' c && leb c b'Z') || (leb b'a' c && leb c b'z')

abbrev pub is_ascii_digit : ℕ → Bool
is_ascii_digit c = leb b'0' c && leb c b'9'

-- `find` of an ASCII character, with the texts before and behind it
unfoldable pub split_once : ℕ → Str → Option (Str × Str)
split_once sep [] = none
split_once sep (c ∷ s) =
    let rest = split_once sep s in
    if c == sep
    then some ([], s)
    else elim rest [ none ↦ none | some (before, behind) ↦ some (c ∷ before, behind) ]

-- `strip_prefix`
unfoldable pub strip_prefix : Str → Str → Option Str
strip_prefix [] s = some s
strip_prefix (p ∷ ps) [] = none
strip_prefix (p ∷ ps) (c ∷ s) = let rest = strip_prefix ps s in if p == c then rest else none

-- The first piece of a split, and the others.
abbrev onto_first : ℕ → List Str → List Str
onto_first c [] = (c ∷ []) ∷ []
onto_first c (piece ∷ pieces) = (c ∷ piece) ∷ pieces

-- `split` by an ASCII character
unfoldable pub split : ℕ → Str → List Str
split sep [] = [] ∷ []
split sep (c ∷ s) = let rest = split sep s in if c == sep then [] ∷ rest else onto_first c rest

-- `lines`: split by line feeds, a carriage return before one dropped, no empty line at the end.
strip_cr : Str → Str
strip_cr [] = []
strip_cr (c ∷ []) = if c == 13 then [] else c ∷ []
strip_cr (c ∷ d ∷ s) = c ∷ strip_cr (d ∷ s)

lines_of : List Str → List Str
lines_of [] = []
lines_of ([] ∷ []) = []
lines_of (line ∷ []) = line ∷ []
lines_of (line ∷ next ∷ pieces) = strip_cr line ∷ lines_of (next ∷ pieces)

unfoldable pub lines : Str → List Str
unfolding split strip_cr lines_of
lines s = lines_of (split 10 s)

-- `parse::<i64>`: a sign, and digits whose number fits.
digits : ℕ → Str → Option ℕ
digits acc [] = some acc
digits acc (c ∷ s) =
    let rest = digits (acc * 10 + (c - b'0')) s in if is_ascii_digit c then rest else none

magnitude : Str → Option ℕ
magnitude [] = none
magnitude (c ∷ s) = digits 0 (c ∷ s)

abbrev non_negative : Option ℕ → Option ℤ
non_negative none = none
non_negative (some n) = if ltb n (2 ^ 63) then some (pos n) else none

abbrev non_positive : Option ℕ → Option ℤ
non_positive none = none
non_positive (some zero) = some (pos 0)
non_positive (some (suc n)) = if ltb n (2 ^ 63) then some (negsuc n) else none

unfoldable pub parse_i64 : Str → Option ℤ
unfolding digits magnitude
parse_i64 [] = none
parse_i64 (c ∷ s) =
    if c == b'+'
    then non_negative (magnitude s)
    else if c == b'-'
    then non_positive (magnitude s)
    else non_negative (magnitude (c ∷ s))
