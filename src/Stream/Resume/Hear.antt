-- ===== src/Stream/Resume/Hear.antt =====
-- The callbacks of one stream in the hook, up to the error that may end it.
use agentchat_take_home.Base.{
  ℕ, suc, Text, true, false, List, [], ◌∷◌, ◌++◌, Option, none, some, ◌≡◌, refl, ap, ◌∙◌, All,
  All-append,
}
use agentchat_take_home.Types.Event.{SseEventType, event_of}
use agentchat_take_home.Types.Json.{Json, Number}
use agentchat_take_home.Types.Payload.{Payload, payload_of}
use agentchat_take_home.Types.Ui.{Date}
use agentchat_take_home.Sse.Frame.Blocks.{Block, note, printed}
use agentchat_take_home.Sse.Open.{read_failed, Callback, on_open, on_frame, on_error}
use agentchat_take_home.Sse.Open.Calls.{IsFrame}
use agentchat_take_home.Sse.Open.Printed.{
  frame_callback, callbacks_of, End, closed, lost, end_errors,
}
use agentchat_take_home.Stream.Events.{opened, framed, step}
use agentchat_take_home.Stream.Received.{read_frame, frames_of}
use agentchat_take_home.Stream.Resume.{retry}
use agentchat_take_home.Stream.{Stream, Frame, Clock, Effect, run}

-- What the end of a stream does.
abbrev pub stop : End → Stream → Stream × List Effect
stop (lost false) s = retry read_failed s
stop _ s = (s, [])

module _ (parse_date : Text → Date) (cid : Text) where
  abbrev read : Clock → ℕ → Option Payload → Stream → Stream
  read clock seq none s = s
  read clock seq (some p) s =
      step parse_date cid (framed clock (record { seq = seq; payload = p })) s

  -- The callbacks of a stream in the hook, up to an error, which is the last one.
  abbrev pub hear : (ℕ → Clock) → List Callback → Stream → Stream × List Effect
  hear clock [] s = (s, [])
  hear clock (on_open ∷ cs) s = hear clock cs (step parse_date cid opened s)
  hear clock (on_frame f ∷ cs) s =
      hear (λ i. clock (suc i)) cs (read (clock 0) f.seq (payload_of f.event f.payload) s)
  hear clock (on_error e ∷ cs) s = retry e s

  hear_end :
      (clock : ℕ → Clock) (end : End) (s : Stream) → hear clock (end_errors end) s ≡ stop end s
  hear_end clock closed s = refl
  hear_end clock (lost true) s = refl
  hear_end clock (lost false) s = refl

  run-read :
      (clock : Clock) (seq : ℕ) (o : Option Payload) (fs : List (Clock × Frame)) (s : Stream)
      → run parse_date cid fs (read clock seq o s)
        ≡ run parse_date cid (read_frame clock seq o ++ fs) s
  unfolding run
  run-read clock seq none fs s = refl
  run-read clock seq (some p) fs s = refl

  pub hear-run :
      (cs : List Callback) (clock : ℕ → Clock) (end : End) (s : Stream)
      → All IsFrame cs
      → hear clock (cs ++ end_errors end) s ≡ stop end (run parse_date cid (frames_of clock cs) s)
  unfolding run
  hear-run [] clock end s h = hear_end clock end s
  hear-run (on_frame f ∷ cs) clock end s (p, h) =
      hear-run cs (λ i. clock (suc i)) end (read (clock 0) f.seq (payload_of f.event f.payload) s) h
      ∙ ap (stop end) (
          run-read (clock 0) f.seq (payload_of f.event f.payload)
            (frames_of (λ i. clock (suc i)) cs) s)
  hear-run (on_open ∷ cs) clock end s (p, h) = absurd p
  hear-run (on_error e ∷ cs) clock end s (p, h) = absurd p

module _ (to_number : Text → Number) (parse_json : Text → Option Json) where
  frame_callback-IsFrame :
      (n : Option ℕ) (o : Option SseEventType) (v : Option Json)
      → All IsFrame (frame_callback to_number parse_json n o v)
  frame_callback-IsFrame n (some event) (some v) = (tt, tt)
  frame_callback-IsFrame n (some event) none = tt
  frame_callback-IsFrame n none v = tt

  pub callbacks_of-IsFrame : (bs : List Block) → All IsFrame (callbacks_of to_number parse_json bs)
  callbacks_of-IsFrame [] = tt
  callbacks_of-IsFrame (note t ∷ bs) = callbacks_of-IsFrame bs
  callbacks_of-IsFrame (printed comments id n name payload ∷ bs) =
      All-append IsFrame
        (frame_callback to_number parse_json n (event_of name) (parse_json payload)) _
        (frame_callback-IsFrame n (event_of name) (parse_json payload)) (callbacks_of-IsFrame bs)
