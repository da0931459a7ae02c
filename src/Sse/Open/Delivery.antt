-- ===== src/Sse/Open/Delivery.antt =====
-- What `openConversationStream` delivers over a whole stream.
use agentchat_take_home.Base.{
  ℕ, ◌==◌, text_eq, text_beq, Text, codes, true, false, List, [], ◌∷◌, ◌++◌, append_assoc, map,
  Option, ◌≡◌, refl, ap, ◌∙◌, sym,
}
use agentchat_take_home.Types.Json.{Json, Number}
use agentchat_take_home.Types.Event.{
  SseEventType, message_start, message_append, message_end, message_abort, agent_joined, agent_left,
  event_name,
}
use agentchat_take_home.Sse.Lines.{normalize}
use agentchat_take_home.Sse.Buffer.{Drained, drain, feed, feed_all, start}
use agentchat_take_home.Sse.Buffer.Chunks.{NoDoubleCr, concat, feed_all-start}
use agentchat_take_home.Sse.Frame.{parse_frame}
use agentchat_take_home.Sse.Open.{
  Callback, on_open, response, ReadOutcome, chunk, done, Handled, Delivered, went, threw, before,
  and_then, continue, StreamRun, resolved, deliver, deliver_all, after, read_loop,
  open_conversation_stream,
}

after-append : (a b : List Callback) (r : StreamRun) → after (a ++ b) r ≡ after a (after b r)
after-append a b r = simp append_assoc

continue-before :
    (cs : List Callback) (d : Delivered) (k : List Handled → StreamRun)
    → continue (before cs d) k ≡ after cs (continue d k)
continue-before cs (went ds rest) k = after-append cs ds (k rest)
continue-before cs (threw ds true) k = refl
continue-before cs (threw ds false) k = simp append_assoc

continue-and_then :
    (d : Delivered) (f : List Handled → Delivered) (k : List Handled → StreamRun)
    → continue (and_then d f) k ≡ continue d (λ rest. continue (f rest) k)
continue-and_then (went cs rest) f k = continue-before cs (f rest) k
continue-and_then (threw cs true) f k = refl
continue-and_then (threw cs false) f k = refl

-- What comes behind counts only by its values.
continue-same :
    (d : Delivered) (j k : List Handled → StreamRun)
    → ((rest : List Handled) → j rest ≡ k rest)
    → continue d j ≡ continue d k
continue-same (went cs rest) j k h = ap (after cs) (h rest)
continue-same (threw cs true) j k h = refl
continue-same (threw cs false) j k h = refl

pub event_name-ne-error : (e : SseEventType) → (event_name e == codes "error") ≡ false
unfolding text_beq
event_name-ne-error message_start = refl
event_name-ne-error message_append = refl
event_name-ne-error message_end = refl
event_name-ne-error message_abort = refl
event_name-ne-error agent_joined = refl
event_name-ne-error agent_left = refl

module _ (to_number : Text → Number) (parse_json : Text → Option Json) where
  deliver_all-append :
      (handled : List Handled) (a b : List Text) (k : List Handled → StreamRun)
      → continue (deliver_all to_number parse_json handled (a ++ b)) k
        ≡ continue
            (deliver_all to_number parse_json handled a)
            (λ rest. continue (deliver_all to_number parse_json rest b) k)
  unfolding deliver_all
  deliver_all-append handled [] b k = refl
  deliver_all-append handled (raw ∷ a) b k =
      let d = deliver (parse_frame to_number parse_json raw) handled in
      let first : List Handled → Delivered = λ rest. deliver_all to_number parse_json rest a in
      let second : List Handled → StreamRun =
        λ rest. continue (deliver_all to_number parse_json rest b) k in
      continue-and_then d (λ rest. deliver_all to_number parse_json rest (a ++ b)) k
      ∙ continue-same d (λ rest. continue (deliver_all to_number parse_json rest (a ++ b)) k)
          (λ rest. continue (first rest) second) (λ rest. deliver_all-append rest a b k)
      ∙ sym (continue-and_then d first second)

  read_loop-chunk :
      (buffer value : Text) (handled : List Handled) (reads : List ReadOutcome)
      → read_loop to_number parse_json buffer handled (chunk value ∷ reads)
        ≡ continue
            (deliver_all to_number parse_json handled (drain (normalize (buffer ++ value))).raws)
            (λ rest.
              read_loop to_number parse_json
                (drain (normalize (buffer ++ value))).buffer
                rest
                reads)
  unfolding read_loop
  read_loop-chunk buffer value handled reads = refl

  -- The reader's chunks, and what has been delivered before, as one state; behind them are answers
  -- on which the loop ends whatever is in the buffer.
  read_loop-feed_all :
      (chunks : List Text) (d : Drained) (handled : List Handled) (reads : List ReadOutcome)
      (r : List Handled → StreamRun)
      → ((buffer : Text) (rest : List Handled)
          → read_loop to_number parse_json buffer rest reads ≡ r rest)
      → continue
          (deliver_all to_number parse_json handled d.raws)
          (λ rest. read_loop to_number parse_json d.buffer rest (map chunk chunks ++ reads))
        ≡ continue (deliver_all to_number parse_json handled (feed_all d chunks).raws) r
  unfolding feed_all feed
  read_loop-feed_all [] d handled reads r h =
      continue-same (deliver_all to_number parse_json handled d.raws) _ r (h d.buffer)
  read_loop-feed_all (c ∷ chunks) d handled reads r h =
      let next = drain (normalize (d.buffer ++ c)) in
      let later : List Handled → StreamRun =
        λ rest. read_loop to_number parse_json next.buffer rest (map chunk chunks ++ reads) in
      continue-same (deliver_all to_number parse_json handled d.raws)
        (λ rest. read_loop to_number parse_json d.buffer rest (chunk c ∷ map chunk chunks ++ reads))
        (λ rest. continue (deliver_all to_number parse_json rest next.raws) later)
        (λ rest. read_loop-chunk d.buffer c rest (map chunk chunks ++ reads))
      ∙ sym (deliver_all-append handled d.raws next.raws later)
      ∙ read_loop-feed_all chunks (feed d c) handled reads r h

  -- What is delivered over a whole stream, whatever answers it ends with.
  pub open_conversation_stream-reads :
      (handled : List Handled) (status : ℕ) (status_text : Text) (chunks : List Text)
      (reads : List ReadOutcome) (r : List Handled → StreamRun)
      → NoDoubleCr (concat chunks)
      → ((buffer : Text) (rest : List Handled)
          → read_loop to_number parse_json buffer rest reads ≡ r rest)
      → open_conversation_stream to_number parse_json handled
          (response true status status_text true)
          (map chunk chunks ++ reads)
        ≡ after (on_open ∷ []) (
            continue
              (deliver_all to_number parse_json handled (drain (normalize (concat chunks))).raws)
              r)
  unfolding open_conversation_stream deliver_all
  open_conversation_stream-reads handled status status_text chunks reads r h k =
      ap (after (on_open ∷ [])) (
        read_loop-feed_all chunks start handled reads r k
        ∙ ap (λ (d : Drained). continue (deliver_all to_number parse_json handled d.raws) r)
            (feed_all-start chunks h).0)

  read_loop-done :
      (buffer : Text) (handled : List Handled) (reads : List ReadOutcome)
      → read_loop to_number parse_json buffer handled (done ∷ reads)
        ≡ record { callbacks = []; settled = resolved }
  unfolding read_loop
  read_loop-done buffer handled reads = refl

  -- On a stream that the server ends, with no carriage return behind another one, the callbacks
  -- are `onOpen` and then those for the texts that the blank lines of the whole text cut off, up to
  -- a call of `onFrame` that throws, whatever the chunks; if one throws, but not an abort,
  -- `onError` runs and that is the end. The promise is resolved.
  pub open_conversation_stream-chunks :
      (handled : List Handled) (status : ℕ) (status_text : Text) (chunks : List Text)
      → NoDoubleCr (concat chunks)
      → open_conversation_stream to_number parse_json handled
          (response true status status_text true)
          (map chunk chunks ++ done ∷ [])
        ≡ after (on_open ∷ []) (
            continue
              (deliver_all to_number parse_json handled (drain (normalize (concat chunks))).raws)
              (λ rest. record { callbacks = []; settled = resolved }))
  open_conversation_stream-chunks handled status status_text chunks h =
      open_conversation_stream-reads handled status status_text chunks (done ∷ []) _ h
        (λ buffer rest. read_loop-done buffer rest [])
