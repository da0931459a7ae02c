-- ===== src/Types/Event.antt =====
-- types.ts, "SSE event payloads": the events of a stream, a parsed frame, and `isSSEFrame`.
pub mod Guard
use agentchat_take_home.Base.{
  ℕ, Text, codes, Bool, true, false, ◌&&◌, Option, none, some, ◌==◌, nat_eq, text_eq, if◌then◌else◌,
  is_some,
}
use agentchat_take_home.Types.Json.{
  Json, null, boolean, number, string, array, object, finite, not_finite, property,
}

pub data SseEventType : Type 0 where
  message_start message_append message_end message_abort agent_joined agent_left : SseEventType

-- The string of an event type.
abbrev pub event_name : SseEventType → Text
event_name message_start = codes "message_start"
event_name message_append = codes "message_append"
event_name message_end = codes "message_end"
event_name message_abort = codes "message_abort"
event_name agent_joined = codes "agent_joined"
event_name agent_left = codes "agent_left"

-- The event type that a string names.
unfoldable pub event_of : Text → Option SseEventType
event_of t =
    if t == codes "message_start"
    then some message_start
    else if t == codes "message_append"
    then some message_append
    else if t == codes "message_end"
    then some message_end
    else if t == codes "message_abort"
    then some message_abort
    else if t == codes "agent_joined"
    then some agent_joined
    else if t == codes "agent_left"
    then some agent_left
    else none

pub record MessageStartPayload : Type 0 where
  pub message_id : Text
  pub sender_id : Text
  pub timestamp : Text

pub record MessageAppendPayload : Type 0 where
  pub message_id : Text
  pub content : Text
  pub timestamp : Text

pub record MessageEndPayload : Type 0 where
  pub message_id : Text
  pub timestamp : Text

pub record MessageAbortPayload : Type 0 where
  pub message_id : Text
  pub reason : Text
  pub timestamp : Text

-- `AgentJoinedPayload` and `AgentLeftPayload` have the same fields.
pub record MembershipPayload : Type 0 where
  pub agent_id : Text
  pub timestamp : Text

pub record SseFrame : Type 0 where
  pub seq : ℕ
  pub event : SseEventType
  pub payload : Json

-- The test `!v` on a value.
abbrev pub is_falsy : Json → Bool
is_falsy null = true
is_falsy (boolean false) = true
is_falsy (number (finite n)) = n == 0
is_falsy (number not_finite) = false
is_falsy (string s) = s == codes ""
is_falsy _ = false

-- `typeof v === 'object'`
abbrev is_object : Json → Bool
is_object null = true
is_object (array _) = true
is_object (object _) = true
is_object _ = false

abbrev pub is_finite_number : Option Json → Bool
is_finite_number (some (number (finite _))) = true
is_finite_number _ = false

abbrev pub is_event_name : Option Json → Bool
is_event_name (some (string s)) = is_some (event_of s)
is_event_name _ = false

unfoldable pub is_sse_frame : Json → Bool
is_sse_frame v =
    if is_falsy v
    then false
    else if is_object v
    then is_finite_number (property (codes "seq") v) && is_event_name (property (codes "event") v)
    else false
