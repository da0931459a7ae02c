-- ===== src/MessageFeed.antt =====
-- artifacts/agentmail-ui/src/components/MessageFeed.tsx: `groupFeed`, which folds the feed into
-- blocks. `show` is `String` on a number.
use agentchat_take_home.Base.{
  ℕ, Text, codes, Bool, true, false, List, [], ◌∷◌, ◌++◌, Option, none, some, ◌==◌, text_eq,
  if◌then◌else◌,
}
use agentchat_take_home.JsMap
use agentchat_take_home.JsMap.{Map}
use agentchat_take_home.Types.Ui.{Message, SystemEvent, FeedItem, message, system, Agent}
pub mod Blocks
pub mod Folded
pub mod Authors
pub mod Scroll
pub mod Content
pub mod View

pub record MsgBlock : Type 0 where
  pub id : Text
  pub agent : Option Agent
  pub messages : List Message

pub data Block : Type 0 where
  messages : MsgBlock → Block
  system_line : (id : Text) → SystemEvent → Block

-- `new Map(agents.map(a => [a.id, a]))`
abbrev pub set_agents : List Agent → Map Text Agent → Map Text Agent
set_agents [] by_id = by_id
set_agents (a ∷ rest) by_id = set_agents rest (JsMap.set a.id a by_id)

-- `currentMsg` is the last block of `blocks` where it is not null; here it stands apart from the
-- blocks in front of it.
pub record Grouping : Type 0 where
  pub blocks : List Block
  pub current_msg : Option MsgBlock

abbrev pub all_blocks : Grouping → List Block
all_blocks g = elim g.current_msg [ none ↦ g.blocks | some b ↦ g.blocks ++ messages b ∷ [] ]

-- `currentMsg.agent?.id !== agentId` is false.
abbrev pub is_by : Text → Option Agent → Bool
is_by agent_id none = false
is_by agent_id (some a) = a.id == agent_id

abbrev pub new_block : Option Agent → Message → MsgBlock
new_block agent m = record { id = m.id; agent = agent; messages = m ∷ [] }

-- The body of the loop for a message, on `currentMsg`.
abbrev pub add_message : Option Agent → Message → List Block → Option MsgBlock → Grouping
add_message agent m blocks none = record { blocks = blocks; current_msg = some (new_block agent m) }
add_message agent m blocks (some b) =
    if is_by m.agent_id b.agent
    then record {
      blocks = blocks;
      current_msg = some (record b { messages = b.messages ++ m ∷ [] });
    }
    else record { blocks = blocks ++ messages b ∷ []; current_msg = some (new_block agent m) }

module _ (show : ℕ → Text) (agent_by_id : Map Text Agent) where
  unfoldable pub add_item : FeedItem → Grouping → Grouping
  add_item (system e) g = record {
    blocks = all_blocks g ++ system_line (codes "sys-" ++ show e.seq) e ∷ [];
    current_msg = none;
  }
  add_item (message m) g = add_message (JsMap.get m.agent_id agent_by_id) m g.blocks g.current_msg

  abbrev pub add_items : List FeedItem → Grouping → Grouping
  add_items [] g = g
  add_items (item ∷ items) g = add_items items (add_item item g)

unfoldable pub group_feed : (ℕ → Text) → List FeedItem → List Agent → List Block
group_feed show feed agents =
    all_blocks
      (add_items show (set_agents agents []) feed (record { blocks = []; current_msg = none }))
