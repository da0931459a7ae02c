-- ===== src/Sse/Open.antt =====
-- `openConversationStream`: the request that it makes, and the callbacks that it runs for each
-- way in which `fetch` and the reader may answer and in which the calls of `opts.onFrame` may end.
-- `opts.onOpen` and `opts.onError` are taken to return normally.
use agentchat_take_home.Base.{
  ℕ, Text, codes, Bool, true, false, List, [], ◌∷◌, ◌++◌, Option, none, some, ◌==◌, text_eq,
  if◌then◌else◌,
}
use agentchat_take_home.JsMap
use agentchat_take_home.JsMap.{Map}
use agentchat_take_home.Types.Json.{Json, Number}
use agentchat_take_home.Types.Event.{SseFrame, SseEventType, event_name}
use agentchat_take_home.Sse.Lines.{normalize}
use agentchat_take_home.Sse.Frame.{parse_frame}
use agentchat_take_home.Sse.Buffer.{Drained, drain}
pub mod Delivery
pub mod Calls
pub mod Failures
pub mod Printed

pub record StreamOpts : Type 0 where
  pub last_event_id : Option ℕ
  pub observer : Bool

pub record StreamRequest : Type 0 where
  pub url : Text
  pub headers : Map Text Text

abbrev set_last_event_id : (ℕ → Text) → Option ℕ → Map Text Text → Map Text Text
set_last_event_id show none headers = headers
set_last_event_id show (some n) headers = JsMap.set (codes "Last-Event-ID") (show n) headers

-- An empty id is falsy.
abbrev set_agent_id : Option Text → Map Text Text → Map Text Text
set_agent_id none headers = headers
set_agent_id (some []) headers = headers
set_agent_id (some (c ∷ id)) headers = JsMap.set (codes "X-Agent-ID") (c ∷ id) headers

-- The url and the headers. `encode` is `encodeURIComponent`, `show` is `String` on a number, and
-- `agent_id` what `getAgentId` returns.
unfoldable pub stream_request :
    (Text → Text) → (ℕ → Text) → Text → Option Text → Text → StreamOpts → StreamRequest
stream_request encode show api_base agent_id cid opts =
    let url =
      if opts.observer
      then api_base ++ codes "/observer/conversations/" ++ encode cid ++ codes "/stream"
      else api_base ++ codes "/conversations/" ++ encode cid ++ codes "/stream" in
    let identified = if opts.observer then [] else set_agent_id agent_id [] in
    record {
      url = url;
      headers =
          set_last_event_id show opts.last_event_id
            (JsMap.set (codes "Accept") (codes "text/event-stream") identified);
    }

-- How a call of `opts.onFrame` ends; the flag says that it throws an abort.
pub data Handled : Type 0 where
  returned : Handled
  thrown : (aborted : Bool) → Handled

-- What `fetch` answers; the flag of a rejection says that it is an abort.
pub data FetchOutcome : Type 0 where
  fetch_rejected : Bool → FetchOutcome
  response : (ok : Bool) (status : ℕ) (status_text : Text) (has_body : Bool) → FetchOutcome

-- What one `reader.read()` answers; a chunk is decoded text.
pub data ReadOutcome : Type 0 where
  chunk : Text → ReadOutcome
  done : ReadOutcome
  read_rejected : Bool → ReadOutcome

-- The errors that are made or passed on.
pub data Failure : Type 0 where
  fetch_failed : Failure
  open_failed : ℕ → Text → Failure
  no_body : Failure
  sse_error : Failure
  read_failed : Failure
  handler_failed : Failure

pub data Callback : Type 0 where
  on_open : Callback
  on_frame : SseFrame → Callback
  on_error : Failure → Callback

-- How the promise is settled; `pending` while the reader has not answered.
pub data Settled : Type 0 where
  resolved pending : Settled
  rejected : Failure → Settled

pub record StreamRun : Type 0 where
  pub callbacks : List Callback
  pub settled : Settled

abbrev pub after : List Callback → StreamRun → StreamRun
after callbacks r = record r { callbacks = callbacks ++ r.callbacks }

abbrev fail : Failure → StreamRun
fail e = record { callbacks = on_error e ∷ []; settled = rejected e }

-- What an inner loop does: it goes on, with the calls of `onFrame` that are still to come, or one of
-- them throws.
pub data Delivered : Type 0 where
  went : List Callback → List Handled → Delivered
  threw : List Callback → (aborted : Bool) → Delivered

abbrev pub before : List Callback → Delivered → Delivered
before cs (went ds rest) = went (cs ++ ds) rest
before cs (threw ds aborted) = threw (cs ++ ds) aborted

-- The next round, unless a call has thrown.
abbrev pub and_then : Delivered → (List Handled → Delivered) → Delivered
and_then (went cs rest) k = before cs (k rest)
and_then (threw cs aborted) k = threw cs aborted

-- `opts.onFrame(frame)`. The calls end as `handled` says, and those behind its end return.
abbrev pub handle_frame : SseFrame → List Handled → Delivered
handle_frame frame [] = went (on_frame frame ∷ []) []
handle_frame frame (returned ∷ rest) = went (on_frame frame ∷ []) rest
handle_frame frame (thrown aborted ∷ rest) = threw (on_frame frame ∷ []) aborted

-- The body of the inner loop, on what `parseFrame` returns.
unfoldable pub deliver : Option SseFrame → List Handled → Delivered
deliver none handled = went [] handled
deliver (some frame) handled =
    if event_name frame.event == codes "error"
    then went (on_error sse_error ∷ []) handled
    else handle_frame frame handled

-- The outer loop behind an inner loop: where a call has thrown, the catch clause.
abbrev pub continue : Delivered → (List Handled → StreamRun) → StreamRun
continue (went cs rest) k = after cs (k rest)
continue (threw cs true) k = record { callbacks = cs; settled = resolved }
continue (threw cs false) k = record {
  callbacks = cs ++ on_error handler_failed ∷ [];
  settled = resolved;
}

module _ (to_number : Text → Number) (parse_json : Text → Option Json) where
  unfoldable pub deliver_all : List Handled → List Text → Delivered
  deliver_all handled [] = went [] handled
  deliver_all handled (raw ∷ raws) =
      and_then (deliver (parse_frame to_number parse_json raw) handled)
        (λ rest. deliver_all rest raws)

  -- The outer loop, over the answers of the reader.
  unfoldable pub read_loop : Text → List Handled → List ReadOutcome → StreamRun
  read_loop buffer handled [] = record { callbacks = []; settled = pending }
  read_loop buffer handled (chunk value ∷ reads) =
      let next = drain (normalize (buffer ++ value)) in
      continue (deliver_all handled next.raws) (λ rest. read_loop next.buffer rest reads)
  read_loop buffer handled (done ∷ reads) = record { callbacks = []; settled = resolved }
  read_loop buffer handled (read_rejected true ∷ reads) = record {
    callbacks = [];
    settled = resolved;
  }
  read_loop buffer handled (read_rejected false ∷ reads) = record {
    callbacks = on_error read_failed ∷ [];
    settled = resolved;
  }

  unfoldable pub open_conversation_stream :
      List Handled → FetchOutcome → List ReadOutcome → StreamRun
  open_conversation_stream handled (fetch_rejected true) reads = record {
    callbacks = [];
    settled = resolved;
  }
  open_conversation_stream handled (fetch_rejected false) reads = record {
    callbacks = on_error fetch_failed ∷ [];
    settled = resolved;
  }
  open_conversation_stream handled (response false status status_text has_body) reads =
      fail (open_failed status status_text)
  open_conversation_stream handled (response true status status_text false) reads = fail no_body
  open_conversation_stream handled (response true status status_text true) reads =
      after (on_open ∷ []) (read_loop [] handled reads)
