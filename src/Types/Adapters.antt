-- ===== src/Types/Adapters.antt =====
-- types.ts, "Adapters". `Date.parse` is a parameter; the clock is an argument.
use agentchat_take_home.Base.{
  ℕ, ◌-◌, Text, codes, Bool, true, false, not, [], ◌++◌, map, Option, none, ◌==◌, text_eq, nat_eq,
  if◌then◌else◌, get_or, take, drop, length, select,
}
use agentchat_take_home.Strings.{to_upper}
use agentchat_take_home.Types.Wire.{
  ConversationSummary, HistoryMessage, HistoryMessageStatus, complete, in_progress,
}
use agentchat_take_home.Types.Ui.{Date, Agent, AgentStatus, online, Message, Conversation}

pub record ToUiConversationOpts : Type 0 where
  pub last_activity : Option Date
  pub message_count : Option ℕ

abbrev pub no_opts : ToUiConversationOpts
no_opts = record { last_activity = none; message_count = none }

unfoldable pub to_ui_conversation :
    (Text → Date) → ConversationSummary → ToUiConversationOpts → Conversation
to_ui_conversation parse_date s opts =
    let created_at = parse_date s.created_at in
    record {
      id = s.conversation_id;
      name = codes "# " ++ take 8 s.conversation_id;
      member_ids = s.members;
      created_at = created_at;
      last_activity = get_or opts.last_activity created_at;
      description = none;
      message_count = get_or opts.message_count 0;
      head_seq = get_or s.head_seq 0;
    }

abbrev is_in_progress : HistoryMessageStatus → Bool
is_in_progress in_progress = true
is_in_progress _ = false

abbrev is_complete : HistoryMessageStatus → Bool
is_complete complete = true
is_complete _ = false

unfoldable pub to_ui_message : Date → HistoryMessage → Text → Message
to_ui_message now h cid = record {
  id = h.message_id;
  agent_id = h.sender_id;
  conversation_id = cid;
  content = h.content;
  timestamp = now;
  is_streaming = is_in_progress h.status;
  stream_complete = is_complete h.status;
  seq = h.seq_start;
}

-- `s.slice(-n)`
abbrev pub slice_last : ℕ → Text → Text
slice_last n s = drop (length s - n) s

pub record SynthAgentOpts : Type 0 where
  pub is_resident : Bool
  pub status : Option AgentStatus

unfoldable pub synth_agent : Date → Text → SynthAgentOpts → Agent
synth_agent now agent_id opts =
    let hex = select (λ c. not (c == b'-')) agent_id in
    let last_two = map to_upper (slice_last 2 hex) in
    record {
      id = agent_id;
      name = codes "agent-" ++ slice_last 8 hex;
      model = if opts.is_resident then codes "resident" else codes "user-agent";
      status = get_or opts.status online;
      joined_at = now;
      avatar = if last_two == [] then codes "??" else last_two;
    }
