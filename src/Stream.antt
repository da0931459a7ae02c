-- ===== src/Stream.antt =====
-- artifacts/agentmail-ui/src/hooks/useConversationStream.ts: the refs and the states of the hook
-- together with the variables of its effect, and one function for each callback. `Date.parse` is
-- a parameter, the readings of the clock are arguments.
use agentchat_take_home.Base.{
  ℕ, ◌+◌, ◌-◌, Text, Bool, true, false, not, ◌&&◌, List, [], ◌∷◌, ◌++◌, Option, none, some, text_eq,
  nat_eq, if◌then◌else◌, ltb, leb,
}
use agentchat_take_home.JsMap
use agentchat_take_home.JsMap.{Map, values}
use agentchat_take_home.Sort.{sort, by}
use agentchat_take_home.Types.Event.{MembershipPayload}
use agentchat_take_home.Types.Payload.{Payload, started, appended, ended, aborted, joined, left}
use agentchat_take_home.Types.Ui.{
  Date, Message, SystemEvent, MembershipKind, agent_joined, agent_left,
}
use agentchat_take_home.Sse.Open.{StreamOpts, Failure}
pub mod Events
pub mod Feed
pub mod Kept
pub mod Projection
pub mod Invariant
pub mod Assembly
pub mod Membership
pub mod Liveness
pub mod Retry
pub mod Calm
pub mod Resume
pub mod Received
pub mod System
pub mod Cleanup

abbrev pub live_membership_window_ms : ℕ
live_membership_window_ms = 5000

abbrev pub max_retries : ℕ
max_retries = 5

pub record Frame : Type 0 where
  pub seq : ℕ
  pub payload : Payload

-- The readings of `Date.now()` in one run of the handler, in their order.
pub record Clock : Type 0 where
  pub changed_at : ℕ
  pub compared_at : ℕ
  pub live_at : ℕ

pub record Stream : Type 0 where
  pub messages : Map Text Message
  pub system_events : Map ℕ SystemEvent
  pub last_seq : Option ℕ
  pub live_messages : List Message
  pub live_system_events : List SystemEvent
  pub connected : Bool
  pub error : Option Failure
  pub last_seen_seq : Option ℕ
  pub agent_membership_changed_at : ℕ
  pub last_live_membership_change_at : ℕ
  pub cancelled : Bool
  pub retry_count : ℕ
  pub retry_timer : Bool
  pub controller : Bool

-- What a callback starts outside the hook.
pub data Effect : Type 0 where
  open_stream : StreamOpts → Effect
  set_timer clear_timer abort : Effect

abbrev pub by_seq : List Message → List Message
by_seq = sort (by (λ m. m.seq))

abbrev pub events_by_seq : List SystemEvent → List SystemEvent
events_by_seq = sort (by (λ e. e.seq))

-- The state when the effect starts: everything is reset.
abbrev pub reset : Stream
reset = record {
  messages = [];
  system_events = [];
  last_seq = none;
  live_messages = [];
  live_system_events = [];
  connected = false;
  error = none;
  last_seen_seq = none;
  agent_membership_changed_at = 0;
  last_live_membership_change_at = 0;
  cancelled = false;
  retry_count = 0;
  retry_timer = false;
  controller = false;
}

unfoldable pub flush : Stream → Stream
flush s = record s { live_messages = by_seq (values s.messages) }

unfoldable pub flush_system : Stream → Stream
flush_system s = record s { live_system_events = events_by_seq (values s.system_events) }

-- `connect`: a new controller, and a stream that resumes behind the last frame.
unfoldable pub connect : Stream → Stream × List Effect
connect s = if s.cancelled then (s, []) else (
  record s { controller = true },
  open_stream (record { last_event_id = s.last_seq; observer = true }) ∷ [],
)

-- The effect's body, for the `cid` that it is given.
unfoldable pub run_effect : Option Text → Stream × List Effect
run_effect none = (reset, [])
run_effect (some []) = (reset, [])
run_effect (some (c ∷ cid)) = connect reset

unfoldable pub on_open : Stream → Stream
on_open s = if s.cancelled then s else record s { connected = true; error = none; retry_count = 0 }

unfoldable pub on_error : Failure → Stream → Stream × List Effect
on_error e s =
    let failed = record s { connected = false; error = some e } in
    if s.cancelled
    then (s, [])
    else if leb max_retries s.retry_count
    then (failed, [])
    else (record failed { retry_count = s.retry_count + 1; retry_timer = true }, set_timer ∷ [])

-- The callback of the timer.
unfoldable pub on_timer : Stream → Stream × List Effect
on_timer s = connect (record s { retry_timer = false })

-- The cleanup of the effect.
unfoldable pub cleanup : Stream → Stream × List Effect
cleanup s = (
  record s { cancelled = true; retry_timer = false; controller = false },
  (if s.retry_timer then clear_timer ∷ [] else []) ++ (if s.controller then abort ∷ [] else []),
)

module _ (parse_date : Text → Date) (cid : Text) where
  -- `messagesRef.current.set`, and `flush`.
  abbrev pub put : Text → Message → Stream → Stream
  put id m s = flush (record s { messages = JsMap.set id m s.messages })

  abbrev pub new_message : ℕ → Text → Text → Text → Text → Message
  new_message seq id agent_id content timestamp = record {
    id = id;
    agent_id = agent_id;
    conversation_id = cid;
    content = content;
    timestamp = parse_date timestamp;
    is_streaming = true;
    stream_complete = false;
    seq = seq;
  }

  -- The case `message_append`, on what the map holds.
  abbrev pub append_to : ℕ → Text → Text → Text → Option Message → Message
  append_to seq id content timestamp none = new_message seq id [] content timestamp
  append_to seq id content timestamp (some m) = record m { content = m.content ++ content }

  -- The cases `message_end` and `message_abort`, on what the map holds.
  abbrev pub close : Bool → Text → Option Message → Stream → Stream
  close complete id none s = s
  close complete id (some m) s =
      put id (record m { is_streaming = false; stream_complete = complete }) s

  abbrev pub is_live : Date → ℕ → Bool
  is_live none now = false
  is_live (some at) now = ltb (now - at) live_membership_window_ms

  -- The cases `agent_joined` and `agent_left`. A date in the future is live, also where `-`
  -- stops at 0.
  unfoldable pub membership : Clock → ℕ → MembershipKind → MembershipPayload → Stream → Stream
  membership clock seq kind p s =
      let event : SystemEvent = record {
        kind = kind;
        agent_id = p.agent_id;
        timestamp = parse_date p.timestamp;
        seq = seq;
      } in
      let recorded =
        flush_system (record s { system_events = JsMap.set seq event s.system_events }) in
      record recorded {
        agent_membership_changed_at = clock.changed_at;
        last_live_membership_change_at =
            if is_live (parse_date p.timestamp) clock.compared_at
            then clock.live_at
            else s.last_live_membership_change_at;
      }

  -- The switch.
  unfoldable pub handle : Clock → ℕ → Payload → Stream → Stream
  handle clock seq (started p) s =
      put p.message_id (new_message seq p.message_id p.sender_id [] p.timestamp) s
  handle clock seq (appended p) s =
      put p.message_id
        (append_to seq p.message_id p.content p.timestamp (JsMap.get p.message_id s.messages)) s
  handle clock seq (ended p) s = close true p.message_id (JsMap.get p.message_id s.messages) s
  handle clock seq (aborted p) s = close false p.message_id (JsMap.get p.message_id s.messages) s
  handle clock seq (joined p) s = membership clock seq agent_joined p s
  handle clock seq (left p) s = membership clock seq agent_left p s

  unfoldable pub on_frame : Clock → Frame → Stream → Stream
  on_frame clock f s =
      if s.cancelled
      then s
      else handle clock f.seq f.payload
          (record s { last_seq = some f.seq; last_seen_seq = some f.seq })

  -- Frames with the readings of the clock, in the order in which they arrive.
  unfoldable pub run : List (Clock × Frame) → Stream → Stream
  run [] s = s
  run ((clock, f) ∷ fs) s = run fs (on_frame clock f s)
