-- ===== src/Sse/Open/Printed.antt =====
-- Whole streams as the server writes them, from the text to the callbacks.
use agentchat_take_home.Base.{
  ℕ, Text, Bool, true, false, List, [], ◌∷◌, ◌++◌, map, Option, none, some, ◌≡◌, refl, sym, subst,
  ap, ◌∙◌, All, length, get_or, if◌then◌else◌,
}
use agentchat_take_home.Types.Json.{Json, Number}
use agentchat_take_home.Types.Event.{SseEventType, SseFrame, event_of}
use agentchat_take_home.Sse.Lines.{normalize, join, index_of_blank}
use agentchat_take_home.Sse.Buffer.{cut, Drained, drain}
use agentchat_take_home.Sse.Buffer.Blocks.{drain-join}
use agentchat_take_home.Sse.Buffer.Chunks.{NoDoubleCr, concat}
use agentchat_take_home.Sse.Buffer.Cut.{drain_on-none}
use agentchat_take_home.Sse.Frame.{parse_frame, with_event, with_data}
use agentchat_take_home.Sse.Frame.Blocks.{
  Block, note, printed, block_lines, print_blocks, IsBlock, block-IsFilled, print_blocks-Without,
  block_lines-ne, NoDoubleCr-Without,
}
use agentchat_take_home.Sse.Frame.Print.{Without, normalize_of_Without}
use agentchat_take_home.Sse.Frame.RoundTrip.{print_frame-parsed, parse_frame-comment}
use agentchat_take_home.Sse.Open.{
  Callback, on_open, on_frame, on_error, read_failed, sse_error, response, ReadOutcome, chunk, done,
  read_rejected, resolved, Handled, Delivered, went, before, and_then, continue, handle_frame,
  deliver, deliver_all, after, read_loop, open_conversation_stream,
}
use agentchat_take_home.Sse.Open.Delivery.{open_conversation_stream-reads, event_name-ne-error}

-- How the reader ends.
pub data End : Type 0 where
  closed : End
  lost : (aborted : Bool) → End

abbrev pub answer : End → ReadOutcome
answer closed = done
answer (lost aborted) = read_rejected aborted

abbrev pub end_errors : End → List Callback
end_errors (lost false) = on_error read_failed ∷ []
end_errors _ = []

cut-none : (t : Text) → index_of_blank t ≡ none → cut t ≡ none
unfolding cut
cut-none t h = rw (h, cut) refl

module _ (to_number : Text → Number) (parse_json : Text → Option Json) where
  abbrev pub frame_callback : Option ℕ → Option SseEventType → Option Json → List Callback
  frame_callback n (some event) (some value) =
      on_frame (record { seq = get_or n 0; event = event; payload = value }) ∷ []
  frame_callback n _ _ = []

  -- What a block stands for: a frame if the event is of the protocol and the payload is JSON.
  abbrev pub callback : Block → List Callback
  callback (note t) = []
  callback (printed comments id n name payload) =
      frame_callback n (event_of name) (parse_json payload)

  abbrev pub callbacks_of : List Block → List Callback
  callbacks_of [] = []
  callbacks_of (b ∷ bs) = callback b ++ callbacks_of bs

  drain-print_blocks :
      (bs : List Block) (partial : Text)
      → All (IsBlock to_number parse_json) bs
      → cut partial ≡ none
      → (drain (print_blocks bs partial)).raws ≡ map (λ b. join (block_lines b)) bs
  drain-print_blocks [] partial h e =
      ap (λ (d : Drained). d.raws) (drain_on-none (length partial) partial e)
  drain-print_blocks (b ∷ bs) partial (p, h) e =
      ap (λ (d : Drained). d.raws)
        (drain-join (block_lines b) (print_blocks bs partial) (block_lines-ne b)
          (block-IsFilled to_number parse_json b p))
      ∙ ap (◌∷◌ (join (block_lines b))) (drain-print_blocks bs partial h e)

  deliver-with_data :
      (n : Option ℕ) (event : SseEventType) (value : Option Json)
      → deliver (with_data to_number parse_json n event value) []
        ≡ went (frame_callback n (some event) value) []
  unfolding deliver
  deliver-with_data n event none = refl
  deliver-with_data n event (some value) =
      let frame : SseFrame = record { seq = get_or n 0; event = event; payload = value } in
      ap (λ x. if x then went (on_error sse_error ∷ []) [] else handle_frame frame [])
        (event_name-ne-error event)

  deliver-with_event :
      (n : Option ℕ) (payload : Text) (o : Option SseEventType)
      → deliver (with_event to_number parse_json n payload o) []
        ≡ went (frame_callback n o (parse_json payload)) []
  unfolding deliver
  deliver-with_event n payload none = refl
  deliver-with_event n payload (some event) = deliver-with_data n event (parse_json payload)

  deliver-block :
      (b : Block)
      → IsBlock to_number parse_json b
      → deliver (parse_frame to_number parse_json (join (block_lines b))) [] ≡ went (callback b) []
  deliver-block (note t) h =
      ap (λ o. deliver o []) (parse_frame-comment to_number parse_json t h)
      ∙ (unfold deliver in refl)
  deliver-block (printed comments id n name payload) (c, h, k, p) =
      ap (λ o. deliver o [])
        (print_frame-parsed to_number parse_json comments id n name payload c h k p)
      ∙ deliver-with_event n payload (event_of name)

  deliver_all-blocks :
      (bs : List Block)
      → All (IsBlock to_number parse_json) bs
      → deliver_all to_number parse_json [] (map (λ b. join (block_lines b)) bs)
        ≡ went (callbacks_of bs) []
  unfolding deliver_all
  deliver_all-blocks [] h = refl
  deliver_all-blocks (b ∷ bs) (p, h) =
      let later : List Handled → Delivered =
        λ rest. deliver_all to_number parse_json rest (map (λ b. join (block_lines b)) bs) in
      ap (λ d. and_then d later) (deliver-block b p)
      ∙ ap (before (callback b)) (deliver_all-blocks bs h)

  read_loop-answer :
      (end : End) (buffer : Text) (rest : List Handled)
      → read_loop to_number parse_json buffer rest (answer end ∷ [])
        ≡ record { callbacks = end_errors end; settled = resolved }
  unfolding read_loop
  read_loop-answer closed buffer rest = refl
  read_loop-answer (lost true) buffer rest = refl
  read_loop-answer (lost false) buffer rest = refl

  -- A stream of blocks as the server writes them, each with a blank line behind it, cut into chunks
  -- anyhow; at its end, where it may break off inside a block that holds no blank line yet, the
  -- reader is done or fails. The callbacks are `onOpen`, then `onFrame` for each block whose event
  -- is of the protocol and whose payload is JSON, in order, with the number of its id (0 where
  -- there is none), its event and the value of its payload, and then `onError` if the reader fails
  -- but not by an abort. Heartbeats and other events pass unseen. The promise is resolved. The
  -- calls of `onFrame` return normally. No payload holds a carriage return, and comments, ids and
  -- names no line break.
  pub open_conversation_stream-print_blocks :
      (status : ℕ) (status_text : Text) (bs : List Block) (partial : Text) (chunks : List Text)
      (end : End)
      → All (IsBlock to_number parse_json) bs
      → Without b'\r' partial
      → index_of_blank partial ≡ none
      → concat chunks ≡ print_blocks bs partial
      → open_conversation_stream to_number parse_json []
          (response true status status_text true)
          (map chunk chunks ++ answer end ∷ [])
        ≡ record { callbacks = on_open ∷ callbacks_of bs ++ end_errors end; settled = resolved }
  open_conversation_stream-print_blocks status status_text bs partial chunks end h w e parts =
      let clean = print_blocks-Without to_number parse_json bs partial h w in
      let text : normalize (concat chunks) ≡ print_blocks bs partial =
        ap normalize parts ∙ normalize_of_Without (print_blocks bs partial) clean in
      let raws : (drain (normalize (concat chunks))).raws ≡ map (λ b. join (block_lines b)) bs =
        ap (λ t. (drain t).raws) text ∙ drain-print_blocks bs partial h (cut-none partial e) in
      open_conversation_stream-reads to_number parse_json [] status status_text chunks
        (answer end ∷ []) _ (subst NoDoubleCr (sym parts) (NoDoubleCr-Without _ clean))
        (read_loop-answer end)
      ∙ ap
          (λ d.
            after (on_open ∷ [])
              (continue d (λ rest. record { callbacks = end_errors end; settled = resolved })))
          (ap (deliver_all to_number parse_json []) raws ∙ deliver_all-blocks bs h)
