-- ===== src/MessageFeed/Scroll.antt =====
-- MessageFeed.tsx: the state `isAtBottom` and the effects that scroll. Lengths are whole numbers of
-- pixels. A feed is known by a number, as the effect compares arrays by identity.
use agentchat_take_home.Base.{
  ℕ, ◌+◌, Text, Bool, true, false, not, ◌&&◌, ◌||◌, List, [], ◌∷◌, ◌++◌, Option, none, some, ◌==◌,
  nat_eq, text_eq, if◌then◌else◌, ltb,
}
pub mod Undisturbed

-- What `scrollIntoView` is asked for.
pub data Behavior : Type 0 where
  smooth instant : Behavior

-- The state, and the dependencies with which each effect has run last.
pub record Scroll : Type 0 where
  pub is_at_bottom : Bool
  pub followed : Option (ℕ × Bool)
  pub jumped : Option Text

abbrev pub mount : Scroll
mount = record { is_at_bottom = true; followed = none; jumped = none }

abbrev same_bool : Bool → Bool → Bool
same_bool true b = b
same_bool false b = not b

abbrev pub has_followed : ℕ → Bool → Option (ℕ × Bool) → Bool
has_followed feed bottom none = false
has_followed feed bottom (some (old, was)) = feed == old && same_bool bottom was

-- The effect on the feed and `isAtBottom`.
unfoldable pub follow : ℕ → Scroll → Scroll × List Behavior
follow feed s = if has_followed feed s.is_at_bottom s.followed then (s, []) else (
  record s { followed = some (feed, s.is_at_bottom) },
  if s.is_at_bottom then smooth ∷ [] else [],
)

abbrev pub has_jumped : Text → Option Text → Bool
has_jumped cid none = false
has_jumped cid (some old) = cid == old

-- The effect on the conversation.
unfoldable pub jump : Text → Scroll → Scroll × List Behavior
jump cid s =
    if has_jumped cid s.jumped then (s, []) else (record s { jumped = some cid }, instant ∷ [])

-- A rendering.
unfoldable pub draw : ℕ → Text → Scroll → Scroll × List Behavior
draw feed cid s =
    let first = follow feed s in let second = jump cid first.0 in (second.0, first.1 ++ second.1)

-- `handleScroll`, on the sizes of the container.
unfoldable pub handle_scroll : (height top client : ℕ) → Scroll → Scroll
handle_scroll height top client s = record s { is_at_bottom = ltb height (80 + top + client) }
