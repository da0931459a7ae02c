-- ===== src/App/Invalidation.antt =====
-- App.tsx: the effect that invalidates queries when the members of the conversation have changed.
-- The cache itself is a library: what the effect passes to `invalidateQueries` is a list of keys.
use agentchat_take_home.Base.{
  ℕ, Text, Bool, true, false, ◌&&◌, List, [], ◌∷◌, Option, none, some, ◌==◌, nat_eq, text_eq,
  if◌then◌else◌,
}
use agentchat_take_home.Queries.{conversations_query_key, messages_query_key}
pub mod Live

-- What the effect depends on.
pub record Deps : Type 0 where
  pub changed_at : ℕ
  pub active : Option Text

abbrev invalidate_messages : Option Text → List (List Text)
invalidate_messages none = []
invalidate_messages (some []) = []
invalidate_messages (some (c ∷ cid)) = messages_query_key (c ∷ cid) ∷ []

-- The body of the effect.
unfoldable pub invalidate : Deps → List (List Text)
invalidate d =
    if d.changed_at == 0 then [] else conversations_query_key ∷ invalidate_messages d.active

abbrev same_active : Option Text → Option Text → Bool
same_active none none = true
same_active (some a) (some b) = a == b
same_active _ _ = false

abbrev same_deps : Deps → Deps → Bool
same_deps d e = d.changed_at == e.changed_at && same_active d.active e.active

-- A rendering: the effect runs if a dependency is not what it was at the run before. The result
-- has the dependencies of the last run, and the keys that are invalidated.
unfoldable pub commit : Deps → Option Deps → Deps × List (List Text)
commit d none = (d, invalidate d)
commit d (some ran) = if same_deps d ran then (ran, []) else (d, invalidate d)
