-- ===== src/Types/Ui.antt =====
-- types.ts, "UI display types".
use agentchat_take_home.Base.{ℕ, Text, Bool, List, Option}

-- A Date: its milliseconds since the epoch, and `none` for an invalid date.
abbrev pub Date : Type 0
Date = Option ℕ

pub data AgentStatus : Type 0 where
  online idle offline streaming : AgentStatus

pub record Agent : Type 0 where
  pub id : Text
  pub name : Text
  pub model : Text
  pub status : AgentStatus
  pub joined_at : Date
  pub avatar : Text

-- `streamTokens` is never set. `streamComplete` is optional in the type, and every place that
-- makes a message sets it.
pub record Message : Type 0 where
  pub id : Text
  pub agent_id : Text
  pub conversation_id : Text
  pub content : Text
  pub timestamp : Date
  pub is_streaming : Bool
  pub stream_complete : Bool
  pub seq : ℕ

pub data MembershipKind : Type 0 where
  agent_joined agent_left : MembershipKind

pub record SystemEvent : Type 0 where
  pub kind : MembershipKind
  pub agent_id : Text
  pub timestamp : Date
  pub seq : ℕ

pub data FeedItem : Type 0 where
  message : Message → FeedItem
  system : SystemEvent → FeedItem

pub record Conversation : Type 0 where
  pub id : Text
  pub name : Text
  pub member_ids : List Text
  pub created_at : Date
  pub last_activity : Date
  pub description : Option Text
  pub message_count : ℕ
  pub head_seq : ℕ
