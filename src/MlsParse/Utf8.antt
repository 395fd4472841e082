-- ===== src/MlsParse/Utf8.antt =====
-- The validity test of `std::str::from_utf8`: the well-formed sequences of the Unicode standard.
use cordn_rs.Common.{
  ℕ, zero, suc, ◌==◌, leb, ltb, Option, none, some, List, [], ◌∷◌, Bool, false, ◌&&◌, Outcome, ok,
  Str, if◌then◌else◌,
}

-- A leading byte: how many bytes follow, and the range of the first of them.
unfoldable pub lead : ℕ → Option (ℕ × ℕ × ℕ)
lead b =
    if ltb b 0x80
    then some (0, 0, 0)
    else if ltb b 0xc2
    then none
    else if ltb b 0xe0
    then some (1, 0x80, 0xbf)
    else if b == 0xe0
    then some (2, 0xa0, 0xbf)
    else if b == 0xed
    then some (2, 0x80, 0x9f)
    else if ltb b 0xf0
    then some (2, 0x80, 0xbf)
    else if b == 0xf0
    then some (3, 0x90, 0xbf)
    else if ltb b 0xf4
    then some (3, 0x80, 0xbf)
    else if b == 0xf4
    then some (3, 0x80, 0x8f)
    else none

-- `need` bytes of a sequence are still to come, the next of them in the range.
unfoldable pub is_utf8_from : ℕ → ℕ → ℕ → List ℕ → Bool
unfolding lead
is_utf8_from need lo hi [] = need == 0
is_utf8_from zero lo hi (b ∷ bs) = elim (lead b) [
  | none ↦ false
  | some (need, lo', hi') ↦ is_utf8_from need lo' hi' bs
]
is_utf8_from (suc need) lo hi (b ∷ bs) =
    let rest = is_utf8_from need 0x80 0xbf bs in leb lo b && leb b hi && rest

unfoldable pub is_utf8 : List ℕ → Bool
unfolding is_utf8_from
is_utf8 bytes = is_utf8_from 0 0 0 bytes

abbrev pub from_utf8 : {E : Type 0} → List ℕ → Outcome E Str → Outcome E Str
from_utf8 bytes invalid = if is_utf8 bytes then ok bytes else invalid
