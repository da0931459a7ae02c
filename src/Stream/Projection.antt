-- ===== src/Stream/Projection.antt =====
-- The maps of the hook, one key at a time: every message evolves by the frames that name it, and
-- every system event by the frames with its number.
use agentchat_take_home.Base.{
  ℕ, Text, Bool, true, false, List, [], ◌∷◌, Option, none, some, ◌≡◌, refl, ap, ◌∙◌, arith, ◌==◌,
  text_eq, nat_eq, if◌then◌else◌, text_beq_iff,
}
use agentchat_take_home.JsMap
use agentchat_take_home.JsMap.Laws.{get-set}
use agentchat_take_home.Types.Payload.{Payload, started, appended, ended, aborted, joined, left}
use agentchat_take_home.Types.Ui.{
  Date, Message, SystemEvent, MembershipKind, agent_joined, agent_left,
}
use agentchat_take_home.Types.Event.{MembershipPayload}
use agentchat_take_home.Stream.Kept.{on_frame-handle, on_frame-Kept}
use agentchat_take_home.Stream.{
  Stream, Frame, Clock, flush, flush_system, put, new_message, append_to, close, membership, handle,
  on_frame, run,
}

-- A message that has ended, or was aborted.
abbrev pub closed : Bool → Option Message → Option Message
closed complete none = none
closed complete (some m) = some (record m { is_streaming = false; stream_complete = complete })

module _ (parse_date : Text → Date) (cid : Text) where
  -- What a frame does to the message with one id.
  abbrev pub message_step : Text → Frame → Option Message → Option Message
  message_step id f m = elim f.payload [
    | started p ↦
        if p.message_id == id
        then some (new_message parse_date cid f.seq id p.sender_id [] p.timestamp)
        else m
    | appended p ↦
        if p.message_id == id
        then some (append_to parse_date cid f.seq id p.content p.timestamp m)
        else m
    | ended p ↦ if p.message_id == id then closed true m else m
    | aborted p ↦ if p.message_id == id then closed false m else m
    | joined p ↦ m
    | left p ↦ m
  ]

  abbrev pub message_steps : Text → List (Clock × Frame) → Option Message → Option Message
  message_steps id [] m = m
  message_steps id ((clock, f) ∷ fs) m = message_steps id fs (message_step id f m)

  get-put :
      (id k : Text) (m : Message) (s : Stream)
      → JsMap.get id (put parse_date cid k m s).messages
        ≡ (if k == id then some m else JsMap.get id s.messages)
  unfolding flush
  get-put id k m s = get-set k id m s.messages

  get-close :
      (complete : Bool) (id k : Text) (o : Option Message) (s : Stream)
      → JsMap.get k s.messages ≡ o
      → JsMap.get id (close parse_date cid complete k o s).messages
        ≡ (if k == id then closed complete (JsMap.get id s.messages) else JsMap.get id s.messages)
  get-close complete id k none s e = ground (arith, text_beq_iff k id)
  get-close complete id k (some m) s e = get-put id k _ s ∙ ground (arith, text_beq_iff k id)

  get-handle :
      (clock : Clock) (seq : ℕ) (p : Payload) (id : Text) (s : Stream)
      → JsMap.get id (handle parse_date cid clock seq p s).messages
        ≡ message_step id (record { seq = seq; payload = p }) (JsMap.get id s.messages)
  unfolding handle membership flush_system
  get-handle clock seq (started p) id s =
      get-put id p.message_id _ s ∙ ground (arith, text_beq_iff p.message_id id)
  get-handle clock seq (appended p) id s =
      get-put id p.message_id _ s ∙ ground (arith, text_beq_iff p.message_id id)
  get-handle clock seq (ended p) id s =
      get-close true id p.message_id (JsMap.get p.message_id s.messages) s refl
  get-handle clock seq (aborted p) id s =
      get-close false id p.message_id (JsMap.get p.message_id s.messages) s refl
  get-handle clock seq (joined p) id s = refl
  get-handle clock seq (left p) id s = refl

  -- What a frame does to the system event with one number.
  abbrev pub system_event : MembershipKind → ℕ → MembershipPayload → SystemEvent
  system_event kind seq p = record {
    kind = kind;
    agent_id = p.agent_id;
    timestamp = parse_date p.timestamp;
    seq = seq;
  }

  abbrev pub event_step : ℕ → Frame → Option SystemEvent → Option SystemEvent
  event_step k f e = elim f.payload [
    | joined p ↦ if f.seq == k then some (system_event agent_joined f.seq p) else e
    | left p ↦ if f.seq == k then some (system_event agent_left f.seq p) else e
    | _ ↦ e
  ]

  abbrev pub event_steps : ℕ → List (Clock × Frame) → Option SystemEvent → Option SystemEvent
  event_steps k [] e = e
  event_steps k ((clock, f) ∷ fs) e = event_steps k fs (event_step k f e)

  events-put :
      (k : Text) (m : Message) (s : Stream)
      → (put parse_date cid k m s).system_events ≡ s.system_events
  unfolding flush
  events-put k m s = refl

  events-close :
      (complete : Bool) (k : Text) (o : Option Message) (s : Stream)
      → (close parse_date cid complete k o s).system_events ≡ s.system_events
  events-close complete k none s = refl
  events-close complete k (some m) s = events-put k _ s

  get_event-handle :
      (clock : Clock) (seq : ℕ) (p : Payload) (k : ℕ) (s : Stream)
      → JsMap.get k (handle parse_date cid clock seq p s).system_events
        ≡ event_step k (record { seq = seq; payload = p }) (JsMap.get k s.system_events)
  unfolding handle membership flush_system
  get_event-handle clock seq (started p) k s = ap (JsMap.get k) (events-put _ _ s)
  get_event-handle clock seq (appended p) k s = ap (JsMap.get k) (events-put _ _ s)
  get_event-handle clock seq (ended p) k s = ap (JsMap.get k) (events-close true _ _ s)
  get_event-handle clock seq (aborted p) k s = ap (JsMap.get k) (events-close false _ _ s)
  get_event-handle clock seq (joined p) k s = get-set seq k _ s.system_events
  get_event-handle clock seq (left p) k s = get-set seq k _ s.system_events

  get-on_frame :
      (clock : Clock) (f : Frame) (id : Text) (s : Stream)
      → s.cancelled ≡ false
      → JsMap.get id (on_frame parse_date cid clock f s).messages
        ≡ message_step id f (JsMap.get id s.messages)
  get-on_frame clock f id s live =
      ap (λ (t : Stream). JsMap.get id t.messages) (on_frame-handle parse_date cid clock f s live)
      ∙ get-handle clock f.seq f.payload id _

  get_event-on_frame :
      (clock : Clock) (f : Frame) (k : ℕ) (s : Stream)
      → s.cancelled ≡ false
      → JsMap.get k (on_frame parse_date cid clock f s).system_events
        ≡ event_step k f (JsMap.get k s.system_events)
  get_event-on_frame clock f k s live =
      ap (λ (t : Stream). JsMap.get k t.system_events)
        (on_frame-handle parse_date cid clock f s live)
      ∙ get_event-handle clock f.seq f.payload k _

  -- While the effect is not cleaned up, the map of messages behaves, for each id, as one message
  -- that evolves by the frames that carry this id; and the map of system events, for each number,
  -- as one event that the frames with this number write.
  pub run-steps :
      (fs : List (Clock × Frame)) (s : Stream) (id : Text) (k : ℕ)
      → s.cancelled ≡ false
      → (JsMap.get id (run parse_date cid fs s).messages
          ≡ message_steps id fs (JsMap.get id s.messages))
        × (JsMap.get k (run parse_date cid fs s).system_events
            ≡ event_steps k fs (JsMap.get k s.system_events))
  unfolding run
  run-steps [] s id k live = (refl, refl)
  run-steps ((clock, f) ∷ fs) s id k live =
      let t = on_frame parse_date cid clock f s in
      let still = (on_frame-Kept parse_date cid clock f s).cancelled ∙ live in
      let (messages, events) = run-steps fs t id k still in
      (
        messages ∙ ap (message_steps id fs) (get-on_frame clock f id s live),
        events ∙ ap (event_steps k fs) (get_event-on_frame clock f k s live),
      )
