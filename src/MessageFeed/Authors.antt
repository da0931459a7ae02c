-- ===== src/MessageFeed/Authors.antt =====
-- groupFeed: where every author is known, every block has its agent.
use agentchat_take_home.Base.{
  ℕ, Text, true, List, [], ◌∷◌, Option, none, some, ◌≡◌, All, is_some, All-append, if-both, text_eq,
}
use agentchat_take_home.JsMap
use agentchat_take_home.JsMap.{Map}
use agentchat_take_home.Types.Ui.{Message, FeedItem, message, system, Agent}
use agentchat_take_home.MessageFeed.{
  MsgBlock, Block, messages, system_line, set_agents, Grouping, all_blocks, is_by, add_message,
  add_item, add_items, group_feed,
}

abbrev pub IsKnown : Block → Type 0
IsKnown (messages b) = is_some b.agent ≡ true
IsKnown (system_line id e) = Unit

abbrev AllKnown : List Block → Option MsgBlock → Type 0
AllKnown bs none = All IsKnown bs
AllKnown bs (some b) = All IsKnown bs × IsKnown (messages b)

AllKnown-all_blocks :
    (bs : List Block) (current : Option MsgBlock)
    → AllKnown bs current
    → All IsKnown (all_blocks (record { blocks = bs; current_msg = current }))
AllKnown-all_blocks bs none h = h
AllKnown-all_blocks bs (some b) (h, k) = All-append IsKnown bs (messages b ∷ []) h (k, tt)

add_message-AllKnown :
    (agent : Option Agent) (m : Message) (bs : List Block) (current : Option MsgBlock)
    → is_some agent ≡ true
    → AllKnown bs current
    → AllKnown (add_message agent m bs current).blocks (add_message agent m bs current).current_msg
add_message-AllKnown agent m bs none a h = (h, a)
add_message-AllKnown agent m bs (some b) a (h, k) =
    if-both (λ (g : Grouping). AllKnown g.blocks g.current_msg) (is_by m.agent_id b.agent)
      (λ _. (h, k)) (λ _. (All-append IsKnown bs (messages b ∷ []) h (k, tt), a))

-- The author of a message is known.
abbrev pub HasAuthor : Map Text Agent → FeedItem → Type 0
HasAuthor agent_by_id (message m) = is_some (JsMap.get m.agent_id agent_by_id) ≡ true
HasAuthor agent_by_id (system e) = Unit

module _ (show : ℕ → Text) (agent_by_id : Map Text Agent) where
  add_items-AllKnown :
      (feed : List FeedItem) (bs : List Block) (current : Option MsgBlock)
      → All (HasAuthor agent_by_id) feed
      → AllKnown bs current
      → All IsKnown (
          all_blocks
            (add_items show agent_by_id feed (record { blocks = bs; current_msg = current })))
  unfolding add_item
  add_items-AllKnown [] bs current h k = AllKnown-all_blocks bs current k
  add_items-AllKnown (system e ∷ feed) bs current (p, h) k = add_items-AllKnown feed _ none h (
      All-append IsKnown (all_blocks (record { blocks = bs; current_msg = current })) _
        (AllKnown-all_blocks bs current k) (tt, tt))
  add_items-AllKnown (message m ∷ feed) bs current (p, h) k =
      add_items-AllKnown feed _ _ h
        (add_message-AllKnown (JsMap.get m.agent_id agent_by_id) m bs current p k)

pub group_feed-AllKnown :
    (show : ℕ → Text) (feed : List FeedItem) (agents : List Agent)
    → All (HasAuthor (set_agents agents [])) feed
    → All IsKnown (group_feed show feed agents)
unfolding group_feed
group_feed-AllKnown show feed agents h =
    add_items-AllKnown show (set_agents agents []) feed [] none h tt
