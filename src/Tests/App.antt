-- ===== src/Tests/App.antt =====
-- The feed's blocks, the badges, the toasts and the agents at concrete inputs.
use agentchat_take_home.Base.{
  ℕ, Text, codes, true, false, List, [], ◌∷◌, map, none, some, ◌≡◌, refl, arith, All, ◌==◌, text_eq,
  any, ◌≤◌, select, not, text_beq,
}
use agentchat_take_home.JsMap
use agentchat_take_home.Types.Ui.{
  Agent, Conversation, Message, SystemEvent, FeedItem, message, system, agent_joined, online,
}
use agentchat_take_home.MessageFeed.{group_feed, set_agents}
use agentchat_take_home.MessageFeed.Folded.{IsFolded}
use agentchat_take_home.MessageFeed.Blocks.{items, IsBlock, group_feed_lem}
use agentchat_take_home.App.Heads.{
  HeadEvent, no_heads, polled, viewed, head_steps, view, see, unread_ids,
}
use agentchat_take_home.App.Heads.Viewed.{unread_ids-viewed}
use agentchat_take_home.App.Toasts.{no_toasts}
use agentchat_take_home.App.Toasts.Dismissed.{
  ToastEvent, shown, fired, toast_steps, IsTimed, toast_steps-IsTimed,
}
use agentchat_take_home.App.Agents.{agents, members}
use agentchat_take_home.App.Agents.Known.{IsUnique, has_id, agents_lem}

abbrev show : ℕ → Text
show n = n ∷ []

abbrev alice : Agent
alice = record {
  id = codes "alice";
  name = codes "Alice";
  model = codes "m";
  status = online;
  joined_at = none;
  avatar = codes "AL";
}

abbrev from_alice : ℕ → Message
from_alice n = record {
  id = n ∷ [];
  agent_id = codes "alice";
  conversation_id = codes "c";
  content = codes "hi";
  timestamp = none;
  is_streaming = false;
  stream_complete = true;
  seq = n;
}

abbrev joined : SystemEvent
joined = record { kind = agent_joined; agent_id = codes "bob"; timestamp = none; seq = 3 }

abbrev feed : List FeedItem
feed = message (from_alice 1) ∷ message (from_alice 2) ∷ system joined ∷ message (from_alice 4) ∷ []

group_feed_lem_example :
    (items (group_feed show feed (alice ∷ [])) ≡ feed)
    × All (IsBlock (set_agents (alice ∷ []) [])) (group_feed show feed (alice ∷ []))
    × IsFolded (group_feed show feed (alice ∷ []))
group_feed_lem_example = group_feed_lem show feed (alice ∷ [])

-- A head of a conversation.
abbrev conversation : ℕ → Conversation
conversation n = record {
  id = codes "c";
  name = codes "# c";
  member_ids = codes "alice" ∷ [];
  created_at = none;
  last_activity = none;
  description = none;
  message_count = 0;
  head_seq = n;
}

abbrev before : List HeadEvent
before = polled 10 (conversation 5 ∷ []) ∷ polled 20 (conversation 7 ∷ []) ∷ []

known : JsMap.get (codes "c") (head_steps before no_heads).last_seen_seq ≡ some 7
unfolding see JsMap.get JsMap.set text_beq
known = refl

unread_before : unread_ids none (head_steps before no_heads) (conversation 7 ∷ []) ≡ codes "c" ∷ []
unfolding see JsMap.get JsMap.set text_beq unread_ids
unread_before = refl

shown_heads :
    All
      (λ (c : Conversation). c.head_seq ≤ 7)
      (select (λ (c : Conversation). c.id == codes "c") (conversation 7 ∷ []))
unfolding text_beq
shown_heads = (omega arith, tt)

unread_ids-viewed_example :
    any
      (λ i. i == codes "c")
      (unread_ids none
        (head_steps
          (viewed none ∷ polled 30 (conversation 7 ∷ []) ∷ [])
          (view (some (codes "c")) (head_steps before no_heads)))
        (conversation 7 ∷ []))
    ≡ false
unread_ids-viewed_example =
    unread_ids-viewed before (viewed none ∷ polled 30 (conversation 7 ∷ []) ∷ []) b'c' [] 7 none
      (conversation 7 ∷ []) known shown_heads

abbrev changes : List ToastEvent
changes = shown 5 ∷ shown 6 ∷ fired 5 ∷ shown 7 ∷ []

toast_steps-IsTimed_example :
    IsTimed (toast_steps changes no_toasts)
    × ((toast_steps
          (map fired (toast_steps changes no_toasts).timers)
          (toast_steps changes no_toasts)).toasts
        ≡ [])
toast_steps-IsTimed_example = toast_steps-IsTimed changes

agents_lem_example :
    let ids =
      map
        (λ (a : Agent). a.id)
        (agents none none none (some (conversation 7)) (from_alice 1 ∷ []) [] (joined ∷ [])) in
    IsUnique ids
    × All (λ k. has_id k ids ≡ true) (members (some (conversation 7)))
    × All
        (λ (m : Message). has_id m.agent_id ids ≡ true)
        (select (λ (m : Message). not (m.agent_id == [])) (from_alice 1 ∷ []))
    × All
        (λ (e : SystemEvent). has_id e.agent_id ids ≡ true)
        (select (λ (e : SystemEvent). not (e.agent_id == [])) (joined ∷ []))
agents_lem_example =
    agents_lem none none none [] (some (conversation 7)) (from_alice 1 ∷ []) (joined ∷ [])
