-- ===== src/Types/Payload.antt =====
-- The payloads of frames as the handlers read them. `frame.data as MessageStartPayload` and the
-- other casts are reads of an object's string fields. A payload that lacks a field which the handler
-- reads is left out; the server sends none. The handlers of message_end and message_abort read the
-- id of the message only, so their other fields are the empty text where they are missing.
use agentchat_take_home.Base.{◌>>=◌, [], codes, Option, some, get_or}
use agentchat_take_home.Types.Json.{Json, string_property}
use agentchat_take_home.Types.Event.{
  SseEventType, message_start, message_append, message_end, message_abort, agent_joined, agent_left,
  MessageStartPayload, MessageAppendPayload, MessageEndPayload, MessageAbortPayload,
  MembershipPayload,
}

pub data Payload : Type 0 where
  started : MessageStartPayload → Payload
  appended : MessageAppendPayload → Payload
  ended : MessageEndPayload → Payload
  aborted : MessageAbortPayload → Payload
  joined : MembershipPayload → Payload
  left : MembershipPayload → Payload

-- The cast that the case of an event makes.
unfoldable pub payload_of : SseEventType → Json → Option Payload
payload_of message_start v = do
  id ← string_property (codes "message_id") v
  sender ← string_property (codes "sender_id") v
  at ← string_property (codes "timestamp") v
  some (started (record { message_id = id; sender_id = sender; timestamp = at }))
payload_of message_append v = do
  id ← string_property (codes "message_id") v
  content ← string_property (codes "content") v
  at ← string_property (codes "timestamp") v
  some (appended (record { message_id = id; content = content; timestamp = at }))
payload_of message_end v = do
  id ← string_property (codes "message_id") v
  let at = get_or (string_property (codes "timestamp") v) []
  some (ended (record { message_id = id; timestamp = at }))
payload_of message_abort v = do
  id ← string_property (codes "message_id") v
  let reason = get_or (string_property (codes "reason") v) []
  let at = get_or (string_property (codes "timestamp") v) []
  some (aborted (record { message_id = id; reason = reason; timestamp = at }))
payload_of agent_joined v = do
  id ← string_property (codes "agent_id") v
  at ← string_property (codes "timestamp") v
  some (joined (record { agent_id = id; timestamp = at }))
payload_of agent_left v = do
  id ← string_property (codes "agent_id") v
  at ← string_property (codes "timestamp") v
  some (left (record { agent_id = id; timestamp = at }))
