-- ===== src/Stream/Received.antt =====
-- From the bytes of a stream to the live messages: the callbacks of `openConversationStream`, run
-- in the hook.
pub mod Shown
use agentchat_take_home.Base.{
  ℕ, suc, Text, true, false, List, [], ◌∷◌, ◌++◌, map, Option, none, some, ◌≡◌, refl, ap, ◌∙◌,
  select, All, text_eq,
}
use agentchat_take_home.JsMap
use agentchat_take_home.Types.Adapters.{to_ui_message}
use agentchat_take_home.Types.Json.{Json, Number}
use agentchat_take_home.Types.Payload.{Payload, payload_of}
use agentchat_take_home.Types.Ui.{Date}
use agentchat_take_home.Sse.Lines.{index_of_blank}
use agentchat_take_home.Sse.Buffer.Chunks.{concat}
use agentchat_take_home.Sse.Frame.Blocks.{Block, IsBlock, print_blocks}
use agentchat_take_home.Sse.Frame.Print.{Without}
use agentchat_take_home.Sse.Open.{
  Callback, on_open, on_frame, on_error, response, chunk, StreamRun, open_conversation_stream,
}
use agentchat_take_home.Sse.Open.Printed.{
  callbacks_of, End, closed, lost, answer, end_errors, open_conversation_stream-print_blocks,
}
use agentchat_take_home.Stream.Assembly.{
  Token, Ending, names, message_frames, row, contents, run-message_frames,
}
use agentchat_take_home.Stream.Calm.{calm, on_open-calm, on_error-calm, on_frame-calm}
use agentchat_take_home.Stream.Events.{Event, opened, framed, failed, step, steps}
use agentchat_take_home.Stream.{Stream, Frame, Clock, run}

-- The frame that a handler reads, with the readings of the clock.
abbrev pub read_frame : Clock → ℕ → Option Payload → List (Clock × Frame)
read_frame clock seq none = []
read_frame clock seq (some p) = (clock, record { seq = seq; payload = p }) ∷ []

-- The frames among the callbacks; the clock is read as often as there are frames.
abbrev pub frames_of : (ℕ → Clock) → List Callback → List (Clock × Frame)
frames_of clock [] = []
frames_of clock (on_frame f ∷ cs) =
    read_frame (clock 0) f.seq (payload_of f.event f.payload) ++ frames_of (λ i. clock (suc i)) cs
frames_of clock (on_open ∷ cs) = frames_of clock cs
frames_of clock (on_error e ∷ cs) = frames_of clock cs

abbrev read_event : Clock → ℕ → Option Payload → List Event
read_event clock seq none = []
read_event clock seq (some p) = framed clock (record { seq = seq; payload = p }) ∷ []

-- The callbacks as events of the hook.
abbrev pub events_of : (ℕ → Clock) → List Callback → List Event
events_of clock [] = []
events_of clock (on_frame f ∷ cs) =
    read_event (clock 0) f.seq (payload_of f.event f.payload) ++ events_of (λ i. clock (suc i)) cs
events_of clock (on_open ∷ cs) = opened ∷ events_of clock cs
events_of clock (on_error e ∷ cs) = failed e ∷ events_of clock cs

frames_of_end-nil : (clock : ℕ → Clock) (end : End) → frames_of clock (end_errors end) ≡ []
frames_of_end-nil clock closed = refl
frames_of_end-nil clock (lost true) = refl
frames_of_end-nil clock (lost false) = refl

frames_of_end :
    (clock : ℕ → Clock) (cs : List Callback) (end : End)
    → frames_of clock (cs ++ end_errors end) ≡ frames_of clock cs
frames_of_end clock [] end = frames_of_end-nil clock end
frames_of_end clock (on_frame f ∷ cs) end =
    ap (λ fs. read_frame (clock 0) f.seq (payload_of f.event f.payload) ++ fs)
      (frames_of_end (λ i. clock (suc i)) cs end)
frames_of_end clock (on_open ∷ cs) end = frames_of_end clock cs end
frames_of_end clock (on_error e ∷ cs) end = frames_of_end clock cs end

module _ (parse_date : Text → Date) (cid : Text) where
  read_event-calm :
      (clock : Clock) (seq : ℕ) (o : Option Payload) (es : List Event) (fs : List (Clock × Frame))
      (s : Stream)
      → ((t : Stream) → calm (steps parse_date cid es t) ≡ run parse_date cid fs (calm t))
      → calm (steps parse_date cid (read_event clock seq o ++ es) s)
        ≡ run parse_date cid (read_frame clock seq o ++ fs) (calm s)
  unfolding run
  read_event-calm clock seq none es fs s h = h s
  read_event-calm clock seq (some p) es fs s h =
      let f : Frame = record { seq = seq; payload = p } in
      h (step parse_date cid (framed clock f) s)
      ∙ ap (run parse_date cid fs) (on_frame-calm parse_date cid clock f s)

  -- Apart from the connection, the callbacks of a stream do what its frames do.
  steps-events_of :
      (cs : List Callback) (clock : ℕ → Clock) (s : Stream)
      → calm (steps parse_date cid (events_of clock cs) s)
        ≡ run parse_date cid (frames_of clock cs) (calm s)
  unfolding run
  steps-events_of [] clock s = refl
  steps-events_of (on_open ∷ cs) clock s =
      steps-events_of cs clock (step parse_date cid opened s)
      ∙ ap (run parse_date cid (frames_of clock cs)) (on_open-calm s)
  steps-events_of (on_error e ∷ cs) clock s =
      steps-events_of cs clock (step parse_date cid (failed e) s)
      ∙ ap (run parse_date cid (frames_of clock cs)) (on_error-calm e s)
  steps-events_of (on_frame f ∷ cs) clock s =
      read_event-calm (clock 0) f.seq (payload_of f.event f.payload)
        (events_of (λ i. clock (suc i)) cs) (frames_of (λ i. clock (suc i)) cs) s
        (steps-events_of cs (λ i. clock (suc i)))

  -- A stream of blocks as the server writes them, cut into chunks anyhow, which may break off
  -- inside a block, and end or fail. Take the frames that its blocks carry, and among them those
  -- of one message: `message_start`, any tokens, and `message_end` or `message_abort`, with any
  -- other blocks between them. When the callbacks of `openConversationStream` on this stream have
  -- run in the hook, from any state that is not cleaned up, the live message with this id is what
  -- `toUIMessage` makes of the row that the history has of it, but for the date, which is that of
  -- the first frame. No payload holds a carriage return, and comments, ids and names no line
  -- break.
  pub open_conversation_stream-steps :
      (to_number : Text → Number) (parse_json : Text → Option Json) (status : ℕ)
      (status_text : Text) (bs : List Block) (partial : Text) (chunks : List Text) (end : End)
      (clock : ℕ → Clock) (s : Stream) (id sender at : Text) (c : Clock) (n : ℕ)
      (tokens : List Token) (c' : Clock) (n' : ℕ) (e : Ending) (now : Date)
      → All (IsBlock to_number parse_json) bs
      → Without b'\r' partial
      → index_of_blank partial ≡ none
      → concat chunks ≡ print_blocks bs partial
      → s.cancelled ≡ false
      → select (names id) (frames_of clock (callbacks_of to_number parse_json bs))
        ≡ message_frames id sender at c n tokens c' n' e
      → JsMap.get id
          (steps parse_date cid
            (events_of clock
              (open_conversation_stream to_number parse_json []
                (response true status status_text true)
                (map chunk chunks ++ answer end ∷ [])).callbacks)
            s).messages
        ≡ some (record (to_ui_message now (row id sender (contents tokens) n n' e) cid) {
          timestamp = parse_date at;
        })
  open_conversation_stream-steps to_number parse_json status status_text bs partial chunks end clock
        s id sender at c n tokens c' n' e now blocks w unended parts live picked =
      let calls = callbacks_of to_number parse_json bs in
      let delivered =
        open_conversation_stream-print_blocks to_number parse_json status status_text bs partial
          chunks end blocks w unended parts in
      let all = on_open ∷ calls ++ end_errors end in
      ap
        (λ (r : StreamRun).
          JsMap.get id (steps parse_date cid (events_of clock r.callbacks) s).messages)
        delivered
      ∙ ap (λ (t : Stream). JsMap.get id t.messages) (steps-events_of all clock s)
      ∙ run-message_frames parse_date cid (frames_of clock all) (calm s) id sender at c n tokens c'
          n' e now live (ap (select (names id)) (frames_of_end clock calls end) ∙ picked)
