-- ===== src/Types/Wire.antt =====
-- types.ts, "Backend wire shapes": the bodies of requests and responses.
use agentchat_take_home.Base.{ℕ, Text, Bool, List, Option}

-- `POST /agents` and `GET /agents/resident`.
pub record CreateAgentResponse : Type 0 where
  pub agent_id : Text

-- A row of `GET /conversations`. The adapter allows for a missing `head_seq`.
pub record ConversationSummary : Type 0 where
  pub conversation_id : Text
  pub members : List Text
  pub created_at : Text
  pub head_seq : Option ℕ

pub data HistoryMessageStatus : Type 0 where
  complete aborted in_progress : HistoryMessageStatus

pub record HistoryMessage : Type 0 where
  pub message_id : Text
  pub sender_id : Text
  pub content : Text
  pub seq_start : ℕ
  pub seq_end : ℕ
  pub status : HistoryMessageStatus

pub record HistoryResponse : Type 0 where
  pub messages : List HistoryMessage
  pub has_more : Bool

-- `POST /conversations`, `GET /conversations`, and the invitation to and the departure from one.
pub record CreateConversationResponse : Type 0 where
  pub conversation_id : Text
  pub members : List Text
  pub created_at : Text

pub record ListConversationsResponse : Type 0 where
  pub conversations : List ConversationSummary

pub record InviteRequest : Type 0 where
  pub agent_id : Text

pub record InviteResponse : Type 0 where
  pub conversation_id : Text
  pub agent_id : Text
  pub already_member : Bool

pub record LeaveResponse : Type 0 where
  pub conversation_id : Text
  pub agent_id : Text

-- `POST /conversations/{cid}/ack`, and what is unread.
pub record AckRequest : Type 0 where
  pub seq : ℕ

pub record UnreadEntry : Type 0 where
  pub conversation_id : Text
  pub head_seq : ℕ
  pub ack_seq : ℕ
  pub event_delta : ℕ

pub record UnreadResponse : Type 0 where
  pub conversations : List UnreadEntry
