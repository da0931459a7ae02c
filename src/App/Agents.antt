-- ===== src/App/Agents.antt =====
-- App.tsx: the active conversation and the agents that the components get.
use agentchat_take_home.Base.{
  ℕ, Text, codes, Bool, true, false, not, ◌&&◌, List, [], ◌∷◌, ◌++◌, map, Option, none, some, ◌==◌,
  text_eq, if◌then◌else◌, any, find, take,
}
use agentchat_take_home.Types.Ui.{
  Date, Agent, Message, SystemEvent, Conversation, streaming, online,
}
use agentchat_take_home.Types.Adapters.{synth_agent}
use agentchat_take_home.App.Heads.{add}
pub mod Known

-- The conversation that is shown: that of the list, or one made up until the list has it.
abbrev stub : Date → Text → ℕ → Conversation
stub now id message_count = record {
  id = id;
  name = codes "# " ++ take 8 id;
  member_ids = [];
  created_at = now;
  last_activity = now;
  description = none;
  message_count = message_count;
  head_seq = 0;
}

abbrev or_stub : Date → Text → ℕ → Option Conversation → Conversation
or_stub now id message_count none = stub now id message_count
or_stub now id message_count (some c) = record c { message_count = message_count }

unfoldable pub active_conv : Date → Option Text → List Conversation → ℕ → Option Conversation
active_conv now none conversations message_count = none
active_conv now (some []) conversations message_count = none
active_conv now (some (a ∷ t)) conversations message_count =
    some (
      or_stub now (a ∷ t) message_count
        (find (λ (c : Conversation). c.id == (a ∷ t)) conversations))

-- Adds the ids in their order; those of messages and system events only where they are truthy.
abbrev pub add_all : List Text → List Text → List Text
add_all [] ids = ids
add_all (id ∷ more) ids = add_all more (add id ids)

abbrev pub add_truthy : Text → List Text → List Text
add_truthy [] ids = ids
add_truthy (c ∷ t) ids = add (c ∷ t) ids

abbrev pub add_truthy_all : List Text → List Text → List Text
add_truthy_all [] ids = ids
add_truthy_all (id ∷ more) ids = add_truthy_all more (add_truthy id ids)

abbrev pub members : Option Conversation → List Text
members none = []
members (some c) = c.member_ids

abbrev pub agent_ids : Option Conversation → List Message → List SystemEvent → List Text
agent_ids active messages events =
    add_truthy_all (map (λ (e : SystemEvent). e.agent_id) events)
      (add_truthy_all (map (λ (m : Message). m.agent_id) messages) (add_all (members active) []))

abbrev is_id : Text → Option Text → Bool
is_id id none = false
is_id id (some other) = id == other

abbrev pub agent_of : Date → Option Text → Option Text → List Message → Text → Agent
agent_of now resident my_agent_id live id = synth_agent now id (record {
  is_resident = is_id id resident && not (is_id id my_agent_id);
  status = some (
      if any (λ (m : Message). (m.agent_id == id) && m.is_streaming) live
      then streaming
      else online);
})

-- `live` are the live messages; `my_agent_id` is what `getAgentId` returns.
unfoldable pub agents :
    Date
    → Option Text
    → Option Text
    → Option Conversation
    → List Message
    → List Message
    → List SystemEvent
    → List Agent
agents now resident my_agent_id active messages live events =
    map (agent_of now resident my_agent_id live) (agent_ids active messages events)
