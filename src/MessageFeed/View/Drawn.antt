-- ===== src/MessageFeed/View/Drawn.antt =====
-- MessageFeed.tsx: when the feed is drawn.
use agentchat_take_home.Base.{
  ℕ, ◌+◌, Text, List, [], ◌∷◌, Option, none, some, ◌≡◌, refl, ap, ◌∙◌, arith, All, length, suc,
  take, map, select,
}
use agentchat_take_home.Sse.Lines.{split, join}
use agentchat_take_home.Sse.Frame.Print.{split-cons, join-split}
use agentchat_take_home.MessageFeed.Content.{Content}
use agentchat_take_home.Types.Ui.{Date, Agent, Message, FeedItem}
use agentchat_take_home.MessageFeed.{Block, messages, system_line, set_agents, group_feed}
use agentchat_take_home.JsMap.{Map}
use agentchat_take_home.MessageFeed.Blocks.{IsWhole, IsBlock, group_feed_lem}
use agentchat_take_home.MessageFeed.View.{
  line, system_line_view, message_content, with_breaks, is_empty, BlockView, FeedView,
  message_group, block_views, opened_at, message_feed,
}

module _ (show to_iso : ℕ → Text) (format_time : Date → Text) where
  message_group-some :
      (by_id : Map Text Agent) (id : Text) (agent : Option Agent) (ms : List Message)
      → IsWhole by_id id agent ms
      → (v : BlockView) × (message_group show to_iso format_time agent ms ≡ some v)
  message_group-some by_id id agent [] h = absurd h
  message_group-some by_id id agent (m ∷ ms) h = (_, refl)

  block_views-some :
      (by_id : Map Text Agent) (agents : List Agent) (bs : List Block)
      → All (IsBlock by_id) bs
      → (vs : List BlockView) × (block_views show to_iso format_time agents bs ≡ some vs)
        × (length vs ≡ length bs)
  block_views-some by_id agents [] h = ([], refl, refl)
  block_views-some by_id agents (messages b ∷ bs) (p, h) =
      let (v, e) = message_group-some by_id b.id b.agent b.messages p in
      let (vs, f, l) = block_views-some by_id agents bs h in (v ∷ vs, rw (e, f) refl, ap suc l)
  block_views-some by_id agents (system_line id e ∷ bs) (p, h) =
      let (vs, f, l) = block_views-some by_id agents bs h in
      (line (system_line_view show to_iso format_time agents e) ∷ vs, rw f refl, ap suc l)

  -- What a drawing of a feed is, where it is opened at a date.
  abbrev pub Drawn : ℕ → List FeedItem → List Agent → Date → Type 0
  Drawn now feed agents none = message_feed show to_iso format_time now feed agents ≡ none
  Drawn now feed agents (some t) =
      (v : FeedView) × (message_feed show to_iso format_time now feed agents ≡ some v)
      × (v.opened ≡ take 10 (to_iso t))
      × (length v.blocks ≡ length (group_feed show feed agents))

  drawn_at :
      (now : ℕ) (feed : List FeedItem) (agents : List Agent) (d : Date)
      → opened_at now feed ≡ d
      → Drawn now feed agents d
  unfolding message_feed
  drawn_at now feed agents none e = rw e refl
  drawn_at now feed agents (some t) e =
      let (vs, f, l) =
        block_views-some (set_agents agents []) agents (group_feed show feed agents)
          (group_feed_lem show feed agents).1 in
      let v : FeedView = record {
        opened = take 10 (to_iso t);
        blocks = vs;
        empty = is_empty feed;
      } in
      (v, rw (e, f) refl, refl, l)

  -- The feed is drawn, every block of it, with the day of its first message, or of the present
  -- where it has no message; only where the date of the first message is invalid it throws.
  pub message_feed-drawn :
      (now : ℕ) (feed : List FeedItem) (agents : List Agent)
      → Drawn now feed agents (opened_at now feed)
  message_feed-drawn now feed agents = drawn_at now feed agents (opened_at now feed) refl

with_breaks-texts : (ls : List Text) → map (λ l. l.0) (with_breaks ls) ≡ ls
with_breaks-texts [] = refl
with_breaks-texts (l ∷ []) = refl
with_breaks-texts (l ∷ k ∷ ls) = ap (◌∷◌ l) (with_breaks-texts (k ∷ ls))

with_breaks-breaks :
    (l : Text) (ls : List Text)
    → length (select (λ l. l.1) (with_breaks (l ∷ ls))) + 1 ≡ length (with_breaks (l ∷ ls))
with_breaks-breaks l [] = omega arith
with_breaks-breaks l (k ∷ ls) = omega (arith, with_breaks-breaks k ls)

-- The lines of a message, put together with a line break between them, are its content, and all of
-- them but one are drawn with a break.
pub message_content-lines :
    (m : Message) (s : Content)
    → (join (map (λ l. l.0) (message_content m s).lines) ≡ m.content)
      × (length (select (λ l. l.1) (message_content m s).lines) + 1
          ≡ length (message_content m s).lines)
unfolding message_content
message_content-lines m s =
    let (l, ls, e) = split-cons m.content in
    (
      ap join (with_breaks-texts (split m.content)) ∙ join-split m.content,
      rw e (with_breaks-breaks l ls),
    )
