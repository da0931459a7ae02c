-- ===== src/Sse/Open/Failures.antt =====
-- How often `openConversationStream` runs `onError`.
use agentchat_take_home.Base.{
  ℕ, text_eq, Text, true, false, List, [], ◌∷◌, ◌++◌, append-nil, append_assoc, Option, ◌≡◌, refl,
  ap, ◌∙◌, sym,
}
use agentchat_take_home.Types.Json.{Json, Number}
use agentchat_take_home.Types.Event.{SseFrame}
use agentchat_take_home.Sse.Lines.{normalize}
use agentchat_take_home.Sse.Buffer.{Drained, drain, feed, feed_all, start}
use agentchat_take_home.Sse.Frame.{parse_frame}
use agentchat_take_home.Sse.Open.{
  FetchOutcome, fetch_rejected, response, ReadOutcome, chunk, done, read_rejected, Handled, deliver,
  deliver_all, read_loop, open_conversation_stream,
}
use agentchat_take_home.Sse.Open.Calls.{
  errors, first_thrown, thrown_errors, rest_of, OnCalls, frame_of, deliver-OnCalls,
  and_then-OnCalls, errors-continue, thrown_errors-append,
}

-- The chunks that arrive before the reader ends.
abbrev pub chunks_of : List ReadOutcome → List Text
chunks_of (chunk value ∷ reads) = value ∷ chunks_of reads
chunks_of _ = []

-- The first answer of the reader that is no chunk is a rejection, and no abort.
abbrev pub failed_reads : List ReadOutcome → ℕ
failed_reads [] = 0
failed_reads (chunk value ∷ reads) = failed_reads reads
failed_reads (done ∷ reads) = 0
failed_reads (read_rejected true ∷ reads) = 0
failed_reads (read_rejected false ∷ reads) = 1

module _ (to_number : Text → Number) (parse_json : Text → Option Json) where
  -- The frames that `parseFrame` finds.
  abbrev pub frames_in : List Text → List SseFrame
  frames_in [] = []
  frames_in (raw ∷ raws) = frame_of (parse_frame to_number parse_json raw) ++ frames_in raws

  frames_in-append : (a b : List Text) → frames_in (a ++ b) ≡ frames_in a ++ frames_in b
  frames_in-append [] b = refl
  frames_in-append (raw ∷ a) b =
      ap (◌++◌ (frame_of (parse_frame to_number parse_json raw))) (frames_in-append a b)
      ∙ sym (
          append_assoc (frame_of (parse_frame to_number parse_json raw)) (frames_in a)
            (frames_in b))

  deliver_all-OnCalls :
      (handled : List Handled) (raws : List Text)
      → OnCalls (frames_in raws) handled (deliver_all to_number parse_json handled raws)
  unfolding deliver_all
  deliver_all-OnCalls handled [] = (tt, refl, refl)
  deliver_all-OnCalls handled (raw ∷ raws) =
      and_then-OnCalls (frame_of (parse_frame to_number parse_json raw)) (frames_in raws) handled
        (deliver (parse_frame to_number parse_json raw) handled) _
        (deliver-OnCalls (parse_frame to_number parse_json raw) handled)
        (λ rest. deliver_all-OnCalls rest raws)

  -- The frames for which the outer loop would call `onFrame`.
  abbrev loop_frames : Text → List ReadOutcome → List SseFrame
  loop_frames buffer (chunk value ∷ reads) =
      let next = drain (normalize (buffer ++ value)) in
      frames_in next.raws ++ loop_frames next.buffer reads
  loop_frames buffer _ = []

  loop_frames-feed_all :
      (reads : List ReadOutcome) (d : Drained)
      → frames_in d.raws ++ loop_frames d.buffer reads
        ≡ frames_in (feed_all d (chunks_of reads)).raws
  unfolding feed_all feed
  loop_frames-feed_all (chunk value ∷ reads) d =
      let next = drain (normalize (d.buffer ++ value)) in
      sym (append_assoc (frames_in d.raws) (frames_in next.raws) (loop_frames next.buffer reads))
      ∙ ap (λ fs. fs ++ loop_frames next.buffer reads) (sym (frames_in-append d.raws next.raws))
      ∙ loop_frames-feed_all reads (feed d value)
  loop_frames-feed_all [] d = append-nil (frames_in d.raws)
  loop_frames-feed_all (done ∷ reads) d = append-nil (frames_in d.raws)
  loop_frames-feed_all (read_rejected aborted ∷ reads) d = append-nil (frames_in d.raws)

  read_loop-errors :
      (buffer : Text) (handled : List Handled) (reads : List ReadOutcome)
      → errors (read_loop to_number parse_json buffer handled reads).callbacks
        ≡ thrown_errors (first_thrown (loop_frames buffer reads) handled) (failed_reads reads)
  unfolding read_loop
  read_loop-errors buffer handled [] = refl
  read_loop-errors buffer handled (chunk value ∷ reads) =
      let next = drain (normalize (buffer ++ value)) in
      let now = frames_in next.raws in
      errors-continue now handled (deliver_all to_number parse_json handled next.raws)
        (λ rest. read_loop to_number parse_json next.buffer rest reads)
        (deliver_all-OnCalls handled next.raws)
      ∙ ap (thrown_errors (first_thrown now handled))
          (read_loop-errors next.buffer (rest_of now handled) reads)
      ∙ sym (thrown_errors-append now (loop_frames next.buffer reads) handled (failed_reads reads))
  read_loop-errors buffer handled (done ∷ reads) = refl
  read_loop-errors buffer handled (read_rejected true ∷ reads) = refl
  read_loop-errors buffer handled (read_rejected false ∷ reads) = refl

  -- How often `onError` is to run.
  abbrev pub failures : List Handled → FetchOutcome → List ReadOutcome → ℕ
  failures handled (fetch_rejected true) reads = 0
  failures handled (fetch_rejected false) reads = 1
  failures handled (response true status status_text true) reads =
      thrown_errors (first_thrown (frames_in (feed_all start (chunks_of reads)).raws) handled)
        (failed_reads reads)
  failures handled (response _ _ _ _) reads = 1

  -- Where `onOpen` and `onError` return normally, `onError` runs once if `fetch` is rejected but not
  -- by an abort, if the status is not ok, if there is no body, if a call of `onFrame` for a frame
  -- that arrives throws, and the first one that does throws no abort, or if none throws and the
  -- reader fails but not by an abort before the stream ends. In every other run it does not run,
  -- whatever events the server sends.
  pub open_conversation_stream-errors :
      (handled : List Handled) (fetched : FetchOutcome) (reads : List ReadOutcome)
      → errors (open_conversation_stream to_number parse_json handled fetched reads).callbacks
        ≡ failures handled fetched reads
  unfolding open_conversation_stream
  open_conversation_stream-errors handled (fetch_rejected true) reads = refl
  open_conversation_stream-errors handled (fetch_rejected false) reads = refl
  open_conversation_stream-errors handled (response false status status_text has_body) reads = refl
  open_conversation_stream-errors handled (response true status status_text false) reads = refl
  open_conversation_stream-errors handled (response true status status_text true) reads =
      read_loop-errors [] handled reads
      ∙ ap (λ fs. thrown_errors (first_thrown fs handled) (failed_reads reads))
          (loop_frames-feed_all reads start)
