-- ===== src/MessageFeed/Blocks.antt =====
-- The blocks of the feed hold the feed, and each holds what belongs together.
use mathlib.Core.List.{map-append}
use agentchat_take_home.Base.{
  ℕ, Text, true, List, [], ◌∷◌, ◌++◌, map, Option, none, some, ◌≡◌, refl, ap, ◌∙◌, sym, arith, All,
  append_assoc, append-nil, Bool-cases, inl, inr, text_eq, text_beq_iff, subst, Option-cases,
  All-append,
}
use agentchat_take_home.JsMap
use agentchat_take_home.JsMap.{Map}
use agentchat_take_home.JsMap.Values.{IsKeyed, set-IsKeyed, get-IsKeyed}
use agentchat_take_home.Types.Ui.{Message, FeedItem, message, system, Agent}
use agentchat_take_home.MessageFeed.Folded.{IsFolded, add_items-IsFolded}
use agentchat_take_home.MessageFeed.{
  MsgBlock, Block, messages, system_line, set_agents, Grouping, all_blocks, is_by, new_block,
  add_message, add_item, add_items, group_feed,
}

-- The items of the feed that blocks show.
abbrev pub items : List Block → List FeedItem
items [] = []
items (messages b ∷ bs) = map message b.messages ++ items bs
items (system_line id e ∷ bs) = system e ∷ items bs

-- The messages of a block: the first one gives the block its id, and its agent, the last one in
-- the list with this id; all are of the agent, and a block whose agent is not known holds one
-- message.
abbrev pub IsWhole : Map Text Agent → Text → Option Agent → List Message → Type 0
IsWhole agents id agent [] = ⊥
IsWhole agents id none (m ∷ ms) = (id ≡ m.id) × (ms ≡ []) × (JsMap.get m.agent_id agents ≡ none)
IsWhole agents id (some a) (m ∷ ms) =
    (id ≡ m.id)
    × All (λ (n : Message). n.agent_id ≡ a.id) (m ∷ ms)
    × (JsMap.get m.agent_id agents ≡ some a)

abbrev pub IsBlock : Map Text Agent → Block → Type 0
IsBlock agents (messages b) = IsWhole agents b.id b.agent b.messages
IsBlock agents (system_line id e) = Unit

items-append : (bs cs : List Block) → items (bs ++ cs) ≡ items bs ++ items cs
items-append [] cs = refl
items-append (messages b ∷ bs) cs =
    ap (◌++◌ (map message b.messages)) (items-append bs cs)
    ∙ sym (append_assoc (map message b.messages) (items bs) (items cs))
items-append (system_line id e ∷ bs) cs = ap (◌∷◌ (system e)) (items-append bs cs)

items-new_block :
    (bs : List Block) (agent : Option Agent) (m : Message)
    → items (bs ++ messages (new_block agent m) ∷ []) ≡ items bs ++ message m ∷ []
items-new_block bs agent m = items-append bs (messages (new_block agent m) ∷ [])

items-last :
    (bs : List Block) (b : MsgBlock)
    → items (bs ++ messages b ∷ []) ≡ items bs ++ map message b.messages
items-last bs b =
    items-append bs (messages b ∷ []) ∙ ap (◌++◌ (items bs)) (append-nil (map message b.messages))

items-extend :
    (bs : List Block) (b : MsgBlock) (m : Message)
    → items (bs ++ messages (record b { messages = b.messages ++ m ∷ [] }) ∷ [])
      ≡ items (bs ++ messages b ∷ []) ++ message m ∷ []
items-extend bs b m =
    items-last bs (record b { messages = b.messages ++ m ∷ [] })
    ∙ ap (◌++◌ (items bs)) (map-append message b.messages (m ∷ []))
    ∙ sym (append_assoc (items bs) (map message b.messages) (message m ∷ []))
    ∙ ap (λ l. l ++ message m ∷ []) (sym (items-last bs b))

add_message-items :
    (agent : Option Agent) (m : Message) (bs : List Block) (current : Option MsgBlock)
    → items (all_blocks (add_message agent m bs current))
      ≡ items (all_blocks (record { blocks = bs; current_msg = current })) ++ message m ∷ []
add_message-items agent m bs none = items-new_block bs agent m
add_message-items agent m bs (some b) = elim (Bool-cases (is_by m.agent_id b.agent)) [
  | inl same ↦ rw same (items-extend bs b m)
  | inr other ↦ rw other (items-new_block (bs ++ messages b ∷ []) agent m)
]

new_block-IsWhole :
    (m : Message) (agents : Map Text Agent)
    → IsKeyed (λ (a : Agent). a.id) agents
    → IsBlock agents (messages (new_block (JsMap.get m.agent_id agents) m))
new_block-IsWhole m agents h = elim (Option-cases (JsMap.get m.agent_id agents)) [
  | inl unknown ↦
      subst (λ o. IsBlock agents (messages (new_block o m))) (sym unknown) (refl, refl, unknown)
  | inr (a, found) ↦
      subst (λ o. IsBlock agents (messages (new_block o m))) (sym found)
        (refl, (sym (get-IsKeyed (λ (a : Agent). a.id) m.agent_id agents h found), tt), found)
]

extend-IsWhole :
    (agents : Map Text Agent) (id : Text) (agent : Option Agent) (ms : List Message) (m : Message)
    → IsWhole agents id agent ms
    → is_by m.agent_id agent ≡ true
    → IsWhole agents id agent (ms ++ m ∷ [])
extend-IsWhole agents id agent [] m h e = absurd h
extend-IsWhole agents id none (n ∷ ms) m h e = absurd (ground arith)
extend-IsWhole agents id (some a) (n ∷ ms) m (p, (q, h), found) e = (
  p,
  (
    q,
    All-append (λ (n : Message). n.agent_id ≡ a.id) ms (m ∷ []) h
        (sym ((text_beq_iff a.id m.agent_id).0 e), tt),
  ),
  found,
)

-- Every block is one, the open one too.
abbrev AllBlocks : Map Text Agent → List Block → Option MsgBlock → Type 0
AllBlocks agents bs none = All (IsBlock agents) bs
AllBlocks agents bs (some b) = All (IsBlock agents) bs × IsBlock agents (messages b)

AllBlocks-all_blocks :
    (agents : Map Text Agent) (g : Grouping)
    → AllBlocks agents g.blocks g.current_msg
    → All (IsBlock agents) (all_blocks g)
AllBlocks-all_blocks agents g h = elim (Option-cases g.current_msg) [
  | inl closed ↦
      subst (λ c. All (IsBlock agents) (all_blocks (record g { current_msg = c }))) (sym closed)
        (subst (AllBlocks agents g.blocks) closed h)
  | inr (b, current) ↦
      let both = subst (AllBlocks agents g.blocks) current h in
      subst (λ c. All (IsBlock agents) (all_blocks (record g { current_msg = c }))) (sym current)
        (All-append (IsBlock agents) g.blocks (messages b ∷ []) (both.0) (both.1, tt))
]

add_message-AllBlocks :
    (agents : Map Text Agent) (m : Message) (bs : List Block) (current : Option MsgBlock)
    → IsKeyed (λ (a : Agent). a.id) agents
    → AllBlocks agents bs current
    → AllBlocks agents
        (add_message (JsMap.get m.agent_id agents) m bs current).blocks
        (add_message (JsMap.get m.agent_id agents) m bs current).current_msg
add_message-AllBlocks agents m bs none k h = (h, new_block-IsWhole m agents k)
add_message-AllBlocks agents m bs (some b) k (h, w) = elim (Bool-cases (is_by m.agent_id b.agent)) [
  | inl same ↦ rw same (h, extend-IsWhole agents b.id b.agent b.messages m w same)
  | inr other ↦
      rw other
        (All-append (IsBlock agents) bs (messages b ∷ []) h (w, tt), new_block-IsWhole m agents k)
]

set_agents-IsKeyed :
    (agents : List Agent) (by_id : Map Text Agent)
    → IsKeyed (λ (a : Agent). a.id) by_id
    → IsKeyed (λ (a : Agent). a.id) (set_agents agents by_id)
set_agents-IsKeyed [] by_id k = k
set_agents-IsKeyed (a ∷ agents) by_id k =
    set_agents-IsKeyed agents (JsMap.set a.id a by_id)
      (set-IsKeyed (λ (a : Agent). a.id) a.id a by_id refl k)

module _ (show : ℕ → Text) (agent_by_id : Map Text Agent) where
  add_item-items :
      (item : FeedItem) (g : Grouping)
      → items (all_blocks (add_item show agent_by_id item g)) ≡ items (all_blocks g) ++ item ∷ []
  unfolding add_item
  add_item-items (system e) g = items-append (all_blocks g) _
  add_item-items (message m) g =
      add_message-items (JsMap.get m.agent_id agent_by_id) m g.blocks g.current_msg

  add_items-items :
      (feed : List FeedItem) (g : Grouping)
      → items (all_blocks (add_items show agent_by_id feed g)) ≡ items (all_blocks g) ++ feed
  add_items-items [] g = sym (append-nil (items (all_blocks g)))
  add_items-items (item ∷ feed) g =
      add_items-items feed (add_item show agent_by_id item g)
      ∙ ap (λ l. l ++ feed) (add_item-items item g)
      ∙ append_assoc (items (all_blocks g)) (item ∷ []) feed

  add_item-AllBlocks :
      (item : FeedItem) (g : Grouping)
      → IsKeyed (λ (a : Agent). a.id) agent_by_id
      → AllBlocks agent_by_id g.blocks g.current_msg
      → AllBlocks agent_by_id
          (add_item show agent_by_id item g).blocks
          (add_item show agent_by_id item g).current_msg
  unfolding add_item
  add_item-AllBlocks (system e) g k h =
      All-append (IsBlock agent_by_id) (all_blocks g) _ (AllBlocks-all_blocks agent_by_id g h)
        (tt, tt)
  add_item-AllBlocks (message m) g k h =
      add_message-AllBlocks agent_by_id m g.blocks g.current_msg k h

  add_items-AllBlocks :
      (feed : List FeedItem) (g : Grouping)
      → IsKeyed (λ (a : Agent). a.id) agent_by_id
      → AllBlocks agent_by_id g.blocks g.current_msg
      → All (IsBlock agent_by_id) (all_blocks (add_items show agent_by_id feed g))
  add_items-AllBlocks [] g k h = AllBlocks-all_blocks agent_by_id g h
  add_items-AllBlocks (item ∷ feed) g k h =
      add_items-AllBlocks feed (add_item show agent_by_id item g) k (add_item-AllBlocks item g k h)

-- The blocks show the items of the feed, each once and in their order. A block of messages has the
-- id of its first message, and the agent with the id of this message's sender (the last one in the
-- list); all its messages are of this agent; where the agent is not known it holds one message,
-- also between other messages of the same sender. Of two blocks of messages one behind the other,
-- the second one does not begin with a message of the agent of the first one: what can be folded
-- is folded.
pub group_feed_lem :
    (show : ℕ → Text) (feed : List FeedItem) (agents : List Agent)
    → (items (group_feed show feed agents) ≡ feed)
      × All (IsBlock (set_agents agents [])) (group_feed show feed agents)
      × IsFolded (group_feed show feed agents)
unfolding group_feed
group_feed_lem show feed agents =
    let start : Grouping = record { blocks = []; current_msg = none } in
    let by_id = set_agents agents [] in
    (
      add_items-items show by_id feed start,
      add_items-AllBlocks show by_id feed start (set_agents-IsKeyed agents [] tt) tt,
      add_items-IsFolded show by_id feed start (tt, λ c. tt),
    )
