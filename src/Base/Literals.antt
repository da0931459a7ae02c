-- ===== src/Base/Literals.antt =====
-- Strings of the source: lists of UTF-16 code units.
use Prim.Native.Char.{code}
use Prim.Native.Nat.{ℕ}
use Prim.Native.String.{String}
use mathlib.Core.List.{List, [], ◌∷◌}

abbrev pub Text : Type 0
Text = List ℕ

-- A literal of the source. All of them but two are ASCII, and those two hold no character above
-- U+FFFF, so that a code point is a code unit.
abbrev pub codes : String → Text
codes String.[] = []
codes (String.◌∷◌ c s) = code c ∷ codes s
