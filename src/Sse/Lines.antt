-- ===== src/Sse/Lines.antt =====
-- The string operations that the parser uses: replacing CRLF, splitting, searching.
use mathlib.Core.Option
use agentchat_take_home.Base.{
  ℕ, suc, Text, ◌&&◌, List, [], ◌∷◌, ◌++◌, Option, none, some, ◌==◌, nat_eq, if◌then◌else◌,
}

-- `s.replace(/\r\n/g, '\n')`
unfoldable pub normalize : Text → Text
normalize [] = []
normalize (c ∷ []) = c ∷ []
normalize (c ∷ d ∷ s) =
    let shorter = b'\n' ∷ normalize s in
    let longer = c ∷ normalize (d ∷ s) in if c == b'\r' && d == b'\n' then shorter else longer

-- Puts a code unit in front of the first part.
abbrev pub push : ℕ → List Text → List Text
push c [] = (c ∷ []) ∷ []
push c (l ∷ ls) = (c ∷ l) ∷ ls

-- `s.split('\n')`
unfoldable pub split : Text → List Text
split [] = [] ∷ []
split (c ∷ s) = let rest = split s in if c == b'\n' then [] ∷ rest else push c rest

-- `parts.join('\n')`
unfoldable pub join : List Text → Text
join [] = []
join (l ∷ []) = l
join (l ∷ m ∷ ls) = l ++ (b'\n' ∷ join (m ∷ ls))

-- `s.indexOf(c)`; `none` is -1.
unfoldable pub index_of : ℕ → Text → Option ℕ
index_of c [] = none
index_of c (d ∷ s) = let rest = Option.map suc (index_of c s) in if d == c then some 0 else rest

-- `s.indexOf('\n\n')`
unfoldable pub index_of_blank : Text → Option ℕ
index_of_blank [] = none
index_of_blank (c ∷ []) = none
index_of_blank (c ∷ d ∷ s) =
    let rest = Option.map suc (index_of_blank (d ∷ s)) in
    if c == b'\n' && d == b'\n' then some 0 else rest
