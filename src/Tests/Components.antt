-- ===== src/Tests/Components.antt =====
-- The components and the screen at concrete inputs.
use mathlib.Core.List.{Perm}
use agentchat_take_home.Base.{
  ℕ, Text, codes, true, false, not, ◌||◌, List, [], ◌∷◌, ◌++◌, none, some, ◌≡◌, refl, All, select,
  ltb, ◌==◌, text_eq, text_beq,
}
use agentchat_take_home.Types.Ui.{
  Date, Agent, AgentStatus, online, offline, streaming, Conversation, Message,
}
use agentchat_take_home.MemberList.{is_member, members, status_groups}
use agentchat_take_home.MemberList.Groups.{drawn, by_status, members-groups}
use agentchat_take_home.ConversationSidebar.{has, ConvItem, sorted, conversation_sidebar}
use agentchat_take_home.ConversationSidebar.Order.{IsUnreadFirst, sorted-parts}
use agentchat_take_home.MessageFeed.{group_feed}
use agentchat_take_home.MessageFeed.Authors.{IsKnown}
use agentchat_take_home.MessageFeed.Content.{
  mount, content_steps, show_caret, rendered, faded, copy_clicked, copy_expired, ContentEvent,
}
use agentchat_take_home.MessageFeed.Content.Ends.{content_steps-timed}
use agentchat_take_home.Stream.Feed.{build_feed, merge_history_and_live, set_all}
use agentchat_take_home.JsMap
use agentchat_take_home.Sort.{sort, insert}
use agentchat_take_home.App.Heads.{no_heads, unread_ids}
use agentchat_take_home.App.Screen.{Inputs, agents_of}
use agentchat_take_home.App.Screen.Authors.{agents_of-authors}
use agentchat_take_home.App.Screen.Active.{IsPlain, conversation_sidebar-active}

abbrev show : ℕ → Text
show n = n ∷ []

abbrev agent : Text → AgentStatus → Agent
agent id status = record {
  id = id;
  name = id;
  model = codes "m";
  status = status;
  joined_at = none;
  avatar = id;
}

abbrev all_agents : List Agent
all_agents =
    agent (codes "a") offline
    ∷ agent (codes "b") online
    ∷ agent (codes "z") online
    ∷ agent (codes "c") streaming
    ∷ agent (codes "d") online
    ∷ []

abbrev conversation : Text → ℕ → Conversation
conversation id time = record {
  id = id;
  name = codes "# " ++ id;
  member_ids = codes "a" ∷ codes "b" ∷ codes "c" ∷ codes "d" ∷ [];
  created_at = some 0;
  last_activity = some time;
  description = none;
  message_count = 2;
  head_seq = 5;
}

abbrev talk : Conversation
talk = conversation (codes "k") 7

members-groups_example :
    (drawn (status_groups (members talk all_agents)) ≡ members talk all_agents)
    × (by_status online (members talk all_agents)
        ≡ by_status online (select (is_member talk) all_agents))
members-groups_example = members-groups talk all_agents online

abbrev conversations : List Conversation
conversations = talk ∷ conversation (codes "l") 9 ∷ conversation (codes "s") 1 ∷ []

sorted-parts_example :
    let cs = sorted (codes "s" ∷ []) (codes "k" ∷ []) conversations in
    Perm cs conversations
    × (cs
        ≡ select (λ (c : Conversation). has c.id (codes "s" ∷ [])) cs
          ++ select (λ (c : Conversation). not (has c.id (codes "s" ∷ []))) cs)
    × IsUnreadFirst
        (codes "s" ∷ [])
        (codes "k" ∷ [])
        (select (λ (c : Conversation). has c.id (codes "s" ∷ [])) cs)
    × IsUnreadFirst
        (codes "s" ∷ [])
        (codes "k" ∷ [])
        (select (λ (c : Conversation). not (has c.id (codes "s" ∷ []))) cs)
sorted-parts_example =
    sorted-parts (codes "s" ∷ []) (codes "k" ∷ []) conversations (refl, (refl, (refl, tt)))

-- The message stops, and its text is copied twice.
abbrev events : List ContentEvent
events = rendered false ∷ copy_clicked ∷ copy_clicked ∷ copy_expired ∷ faded ∷ []

content_steps-timed_example :
    (show_caret (content_steps events (mount true)) ≡ (
      (content_steps events (mount true)).is_streaming
      || (content_steps events (mount true)).fade_timer))
    × ((not (content_steps events (mount true)).copied
          || ltb 0 (content_steps events (mount true)).copy_timers)
        ≡ true)
content_steps-timed_example = content_steps-timed events true

abbrev said : Message
said = record {
  id = codes "m1";
  agent_id = codes "b";
  conversation_id = codes "k";
  content = codes "hi";
  timestamp = some 3;
  is_streaming = false;
  stream_complete = true;
  seq = 1;
}

abbrev format_time : Date → Text
format_time d = codes "12:00"

abbrev inputs : Inputs
inputs = record {
  now = 9;
  conversations = conversations;
  active_conv_id = some (codes "k");
  active_ids = [];
  unread_ids = [];
  toasts = [];
  history = said ∷ [];
  live = [];
  events = [];
  resident = none;
  my_agent_id = none;
  is_loading = false;
  error = none;
}

agents_of-authors_example :
    All IsKnown (group_feed show (build_feed (said ∷ []) [] []) (agents_of inputs (some talk)))
unfolding merge_history_and_live set_all sort insert JsMap.set text_beq
agents_of-authors_example = agents_of-authors show inputs (some talk) (refl, tt)

conversation_sidebar-active_example :
    All (IsPlain (codes "k") [] (unread_ids (some (codes "k")) no_heads conversations)) (
      select
        (λ (i : ConvItem). i.id == codes "k")
        (conversation_sidebar conversations
          (codes "k")
          []
          (unread_ids (some (codes "k")) no_heads conversations)).1)
conversation_sidebar-active_example =
    conversation_sidebar-active (codes "k") [] no_heads conversations
