-- ===== src/MessageFeed/View.antt =====
-- MessageFeed.tsx: what `MessageFeed`, `SystemLine`, `MessageGroup` and `MessageContent` show. A
-- rendering that throws is none. `show` is `String` on a number, `to_iso` is `toISOString` on a
-- valid date and `format_time` is the function of that name, of which the platform makes the text.
use mathlib.Core.Option
use agentchat_take_home.Base.{
  ◌>>=◌, ℕ, Text, codes, Bool, true, false, ◌||◌, List, [], ◌∷◌, ◌++◌, Option, none, some, ◌==◌,
  text_eq, take, find, get_or, if◌then◌else◌,
}
use agentchat_take_home.Sse.Lines.{split}
use agentchat_take_home.Types.Ui.{
  Date, Agent, AgentStatus, online, idle, offline, streaming, Message, SystemEvent, MembershipKind,
  agent_joined, agent_left, FeedItem, message, system,
}
use agentchat_take_home.MessageFeed.{MsgBlock, Block, messages, system_line, group_feed}
use agentchat_take_home.MessageFeed.Content.{Content, show_caret}
pub mod Drawn

-- `SystemLine`
pub record SystemLine : Type 0 where
  pub seq : ℕ
  pub color : Text
  pub name : Text
  pub verb : Text
  pub time : Text

abbrev pub verb : MembershipKind → Text
verb agent_joined = codes "joined"
verb agent_left = codes "left"

abbrev pub verb_color : MembershipKind → Text
verb_color agent_joined = codes "text-online"
verb_color agent_left = codes "text-muted-foreground/60"

abbrev pub agent_name : List Agent → Text → Text
agent_name agents id =
    get_or (Option.map (λ (a : Agent). a.name) (find (λ (a : Agent). a.id == id) agents))
      (codes "agent-" ++ take 8 id)

-- `MessageGroup`
pub record MessageGroup : Type 0 where
  pub status_color : Text
  pub avatar_color : Text
  pub avatar : Text
  pub name_color : Text
  pub name : Text
  pub model : Option Text
  pub time : Text
  pub seq : ℕ
  pub messages : List Message

abbrev status : Option Agent → Option AgentStatus
status = Option.map (λ (a : Agent). a.status)

abbrev pub status_color : Option AgentStatus → Text
status_color (some streaming) = codes "bg-streaming border-streaming/30"
status_color (some online) = codes "bg-muted border-border"
status_color (some idle) = codes "bg-muted border-border"
status_color _ = codes "bg-muted/40 border-border/50"

abbrev pub avatar_text_color : Option AgentStatus → Text
avatar_text_color (some streaming) = codes "text-streaming"
avatar_text_color (some offline) = codes "text-muted-foreground/30"
avatar_text_color _ = codes "text-muted-foreground"

abbrev pub name_color : Option AgentStatus → Text
name_color (some streaming) = codes "text-streaming"
name_color (some offline) = codes "text-muted-foreground/50"
name_color _ = codes "text-foreground/90"

-- `MessageContent`: the lines, of which each but the last ends in a break, whether there is a caret
-- and whether it blinks, the start of the id, and the label.
pub record ContentView : Type 0 where
  pub lines : List (Text × Bool)
  pub caret : Option Bool
  pub id : Text
  pub label : Option Text

abbrev pub with_breaks : List Text → List (Text × Bool)
with_breaks [] = []
with_breaks (l ∷ []) = (l, false) ∷ []
with_breaks (l ∷ k ∷ ls) = (l, true) ∷ with_breaks (k ∷ ls)

abbrev pub label : Message → Option Text
label m =
    if m.is_streaming || m.stream_complete
    then some (if m.is_streaming then codes "STREAMING" else codes "COMPLETE")
    else none

unfoldable pub message_content : Message → Content → ContentView
message_content m s = record {
  lines = with_breaks (split m.content);
  caret = if show_caret s then some m.is_streaming else none;
  id = take 8 m.id;
  label = label m;
}

pub data BlockView : Type 0 where
  line : SystemLine → BlockView
  group : MessageGroup → BlockView

pub record FeedView : Type 0 where
  pub opened : Text
  pub blocks : List BlockView
  pub empty : Bool

-- `feed.find(f => f._kind === 'message')`
abbrev pub first_message : List FeedItem → Option Message
first_message [] = none
first_message (message m ∷ feed) = some m
first_message (system e ∷ feed) = first_message feed

-- `firstMessage?.timestamp ?? new Date()`
abbrev pub opened_at : ℕ → List FeedItem → Date
opened_at now feed =
    get_or (Option.map (λ (m : Message). m.timestamp) (first_message feed)) (some now)

abbrev pub is_empty {ℓ} : {A : Type ℓ} → List A → Bool
is_empty [] = true
is_empty (x ∷ xs) = false

module _ (show to_iso : ℕ → Text) (format_time : Date → Text) where
  abbrev pub system_line_view : List Agent → SystemEvent → SystemLine
  system_line_view agents e = record {
    seq = e.seq;
    color = verb_color e.kind;
    name = agent_name agents e.agent_id;
    verb = verb e.kind;
    time = format_time e.timestamp;
  }

  abbrev group_of : Option Agent → Message → List Message → MessageGroup
  group_of agent m ms = record {
    status_color = status_color (status agent);
    avatar_color = avatar_text_color (status agent);
    avatar = get_or (Option.map (λ (a : Agent). a.avatar) agent) (codes "??");
    name_color = name_color (status agent);
    name = get_or (Option.map (λ (a : Agent). a.name) agent) (codes "unknown-agent");
    model = Option.map (λ (a : Agent). a.model) agent;
    time = format_time m.timestamp;
    seq = m.seq;
    messages = m ∷ ms;
  }

  -- It reads the first message.
  abbrev pub message_group : Option Agent → List Message → Option BlockView
  message_group agent [] = none
  message_group agent (m ∷ ms) = some (group (group_of agent m ms))

  abbrev pub block_view : List Agent → Block → Option BlockView
  block_view agents (messages b) = message_group b.agent b.messages
  block_view agents (system_line id e) = some (line (system_line_view agents e))

  abbrev pub block_views : List Agent → List Block → Option (List BlockView)
  block_views agents [] = some []
  block_views agents (b ∷ bs) = do
    v ← block_view agents b
    vs ← block_views agents bs
    some (v ∷ vs)

  unfoldable pub message_feed : ℕ → List FeedItem → List Agent → Option FeedView
  message_feed now feed agents = do
    opened ← opened_at now feed
    blocks ← block_views agents (group_feed show feed agents)
    some (record { opened = take 10 (to_iso opened); blocks = blocks; empty = is_empty feed })
