-- ===== src/MessageFeed/Folded.antt =====
-- Neighbouring blocks of `groupFeed`: what can be folded is folded.
use agentchat_take_home.Base.{
  Text, false, List, [], ◌∷◌, ◌++◌, Option, none, some, ◌≡◌, ◌≢◌, sym, subst, arith, text_eq, ℕ,
  Bool-cases, Option-cases, inl, inr,
}
use agentchat_take_home.JsMap
use agentchat_take_home.JsMap.{Map}
use agentchat_take_home.Types.Ui.{Message, SystemEvent, FeedItem, message, system, Agent}
use agentchat_take_home.MessageFeed.{
  MsgBlock, Block, messages, system_line, Grouping, all_blocks, is_by, new_block, add_message,
  add_item, add_items,
}

-- The messages begin with one that is not of the agent.
abbrev IsOfOther : Option Agent → List Message → Type 0
IsOfOther none ms = Unit
IsOfOther (some a) [] = ⊥
IsOfOther (some a) (m ∷ ms) = m.agent_id ≢ a.id

abbrev IsApart : Block → Block → Type 0
IsApart (messages b) (messages c) = IsOfOther b.agent c.messages
IsApart _ _ = Unit

-- Two blocks of messages one behind the other: the second one is not of the agent of the first.
abbrev pub IsFolded : List Block → Type 0
IsFolded [] = Unit
IsFolded (b ∷ []) = Unit
IsFolded (b ∷ c ∷ bs) = IsApart b c × IsFolded (c ∷ bs)

-- The last block is apart from a block behind it.
abbrev LastIsApart : List Block → Block → Type 0
LastIsApart [] c = Unit
LastIsApart (b ∷ []) c = IsApart b c
LastIsApart (b ∷ d ∷ bs) c = LastIsApart (d ∷ bs) c

append-IsFolded :
    (bs : List Block) (c : Block) → IsFolded bs → LastIsApart bs c → IsFolded (bs ++ c ∷ [])
append-IsFolded [] c h l = tt
append-IsFolded (b ∷ []) c h l = (l, tt)
append-IsFolded (b ∷ d ∷ bs) c (p, h) l = (p, append-IsFolded (d ∷ bs) c h l)

append-LastIsApart : (bs : List Block) (b c : Block) → IsApart b c → LastIsApart (bs ++ b ∷ []) c
append-LastIsApart [] b c h = h
append-LastIsApart (d ∷ []) b c h = h
append-LastIsApart (d ∷ e ∷ bs) b c h = append-LastIsApart (e ∷ bs) b c h

line-LastIsApart :
    (bs : List Block) (id : Text) (e : SystemEvent) → LastIsApart bs (system_line id e)
line-LastIsApart [] id e = tt
line-LastIsApart (messages b ∷ []) id e = tt
line-LastIsApart (system_line i d ∷ []) id e = tt
line-LastIsApart (b ∷ c ∷ bs) id e = line-LastIsApart (c ∷ bs) id e

longer-IsOfOther :
    (o : Option Agent) (ms : List Message) (m : Message)
    → IsOfOther o ms
    → IsOfOther o (ms ++ m ∷ [])
longer-IsOfOther none ms m h = tt
longer-IsOfOther (some a) [] m h = absurd h
longer-IsOfOther (some a) (n ∷ ms) m h = h

longer-IsApart :
    (d : Block) (b : MsgBlock) (m : Message)
    → IsApart d (messages b)
    → IsApart d (messages (record b { messages = b.messages ++ m ∷ [] }))
longer-IsApart (messages d) b m h = longer-IsOfOther d.agent b.messages m h
longer-IsApart (system_line id e) b m h = tt

longer-IsFolded :
    (bs : List Block) (b : MsgBlock) (m : Message)
    → IsFolded (bs ++ messages b ∷ [])
    → IsFolded (bs ++ messages (record b { messages = b.messages ++ m ∷ [] }) ∷ [])
longer-IsFolded [] b m h = tt
longer-IsFolded (d ∷ []) b m (p, h) = (longer-IsApart d b m p, tt)
longer-IsFolded (d ∷ e ∷ bs) b m (p, h) = (p, longer-IsFolded (e ∷ bs) b m h)

is_by-IsOfOther :
    (agent : Option Agent) (m : Message) → is_by m.agent_id agent ≡ false → IsOfOther agent (m ∷ [])
is_by-IsOfOther none m h = tt
is_by-IsOfOther (some a) m h =
    λ e. absurd (ground (arith, sym h, (text_eq.same_iff a.id m.agent_id).1 (sym e)))

-- The blocks and the open one; where none is open, any block may follow.
abbrev Folding : List Block → Option MsgBlock → Type 0
Folding bs none = IsFolded bs × ((c : Block) → LastIsApart bs c)
Folding bs (some b) = IsFolded (bs ++ messages b ∷ [])

Folding-all_blocks : (g : Grouping) → Folding g.blocks g.current_msg → IsFolded (all_blocks g)
Folding-all_blocks g h = elim (Option-cases g.current_msg) [
  | inl closed ↦
      subst (λ c. IsFolded (all_blocks (record g { current_msg = c }))) (sym closed)
        (subst (Folding g.blocks) closed h).0
  | inr (b, current) ↦
      subst (λ c. IsFolded (all_blocks (record g { current_msg = c }))) (sym current)
        (subst (Folding g.blocks) current h)
]

add_message-Folding :
    (agent : Option Agent) (m : Message) (bs : List Block) (current : Option MsgBlock)
    → Folding bs current
    → Folding (add_message agent m bs current).blocks (add_message agent m bs current).current_msg
add_message-Folding agent m bs none (h, any) =
    append-IsFolded bs (messages (new_block agent m)) h (any (messages (new_block agent m)))
add_message-Folding agent m bs (some b) h = elim (Bool-cases (is_by m.agent_id b.agent)) [
  | inl same ↦ rw same (longer-IsFolded bs b m h)
  | inr other ↦ rw other (
      append-IsFolded (bs ++ messages b ∷ []) (messages (new_block agent m)) h (
        append-LastIsApart bs (messages b) (messages (new_block agent m))
          (is_by-IsOfOther b.agent m other)))
]

module _ (show : ℕ → Text) (agent_by_id : Map Text Agent) where
  add_item-Folding :
      (item : FeedItem) (g : Grouping)
      → Folding g.blocks g.current_msg
      → Folding
          (add_item show agent_by_id item g).blocks
          (add_item show agent_by_id item g).current_msg
  unfolding add_item
  add_item-Folding (system e) g h =
      let folded = Folding-all_blocks g h in
      (
        append-IsFolded (all_blocks g) _ folded (line-LastIsApart (all_blocks g) _ e),
        λ c. append-LastIsApart (all_blocks g) _ c tt,
      )
  add_item-Folding (message m) g h =
      add_message-Folding (JsMap.get m.agent_id agent_by_id) m g.blocks g.current_msg h

  pub add_items-IsFolded :
      (feed : List FeedItem) (g : Grouping)
      → Folding g.blocks g.current_msg
      → IsFolded (all_blocks (add_items show agent_by_id feed g))
  add_items-IsFolded [] g h = Folding-all_blocks g h
  add_items-IsFolded (item ∷ feed) g h =
      add_items-IsFolded feed (add_item show agent_by_id item g) (add_item-Folding item g h)
