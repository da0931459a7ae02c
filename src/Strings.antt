-- ===== src/Strings.antt =====
-- The string methods of the language that several parts of the client use.
use agentchat_take_home.Base.{
  ℕ, ◌+◌, ◌-◌, Text, Bool, true, false, ◌&&◌, ◌||◌, List, [], ◌∷◌, ◌++◌, ◌==◌, nat_eq,
  if◌then◌else◌, leb, drop, length,
}
pub mod Laws

-- `s.startsWith(p)`, with the arguments the other way round.
unfoldable pub starts_with : Text → Text → Bool
starts_with [] s = true
starts_with (c ∷ p) [] = false
starts_with (c ∷ p) (d ∷ s) = c == d && starts_with p s

-- Last code unit first.
unfoldable pub backwards : Text → Text
backwards [] = []
backwards (c ∷ s) = backwards s ++ c ∷ []

-- `s.endsWith(p)`, with the arguments the other way round.
unfoldable pub ends_with : Text → Text → Bool
ends_with p s = starts_with (backwards p) (backwards s)

-- `s.includes(p)`, with the arguments the other way round.
unfoldable pub includes : Text → Text → Bool
includes p [] = starts_with p []
includes p (c ∷ s) = starts_with p (c ∷ s) || includes p s

-- White space and line ends of the language.
abbrev pub is_space : ℕ → Bool
is_space c =
    (leb 9 c && leb c 13)
    || c == 32
    || c == 160
    || c == 0x1680
    || (leb 0x2000 c && leb c 0x200A)
    || c == 0x2028
    || c == 0x2029
    || c == 0x202F
    || c == 0x205F
    || c == 0x3000
    || c == 0xFEFF

-- `s.trimStart()`
unfoldable pub trim_start : Text → Text
trim_start [] = []
trim_start (c ∷ s) = let rest = trim_start s in if is_space c then rest else c ∷ s

-- `s.trim()`
unfoldable pub trim : Text → Text
trim s = backwards (trim_start (backwards (trim_start s)))

-- `s.split(c, 1)[0]` for a separator of one code unit.
unfoldable pub before : ℕ → Text → Text
before c [] = []
before c (d ∷ s) = let rest = d ∷ before c s in if d == c then [] else rest

-- `toLowerCase` on ASCII; the results are only compared with ASCII texts.
abbrev pub to_lower : ℕ → ℕ
to_lower c = if leb b'A' c && leb c b'Z' then c + 32 else c

-- `toUpperCase` on ASCII, which ids and the names of methods are.
abbrev pub to_upper : ℕ → ℕ
to_upper c = if leb b'a' c && leb c b'z' then c - 32 else c

-- Drops the units `c` at the front.
unfoldable pub drop_while_is : ℕ → Text → Text
drop_while_is c [] = []
drop_while_is c (d ∷ s) = let rest = drop_while_is c s in if d == c then rest else d ∷ s

-- `s.replace(/c+$/, '')` for a code unit `c`.
unfoldable pub strip_last : ℕ → Text → Text
strip_last c s = backwards (drop_while_is c (backwards s))

-- `s.replace(p, q)` for a text `p`: the first place where it stands.
unfoldable pub replace : Text → Text → Text → Text
replace p q [] = if starts_with p [] then q else []
replace p q (c ∷ s) =
    let rest = c ∷ replace p q s in
    if starts_with p (c ∷ s) then q ++ drop (length p) (c ∷ s) else rest

abbrev pub push_unit : ℕ → List Text → List Text
push_unit c [] = (c ∷ []) ∷ []
push_unit c (l ∷ ls) = (c ∷ l) ∷ ls

-- `s.split(c)` for a separator of one code unit.
unfoldable pub split_on : ℕ → Text → List Text
split_on c [] = [] ∷ []
split_on c (d ∷ s) = let rest = split_on c s in if d == c then [] ∷ rest else push_unit d rest
