-- ===== src/Common/Text.antt =====
-- Texts that the program spells out, as byte strings.
use Prim.Native.Char.{code}
use Prim.Native.String.{String}
use mathlib.Core.List.{[], ◌∷◌}
use cordn_rs.Common.Tests.{Str}

-- The bytes of a text in ASCII.
abbrev pub codes : String → Str
codes String.[] = []
codes (String.◌∷◌ c s) = code c ∷ codes s
