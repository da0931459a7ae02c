-- ===== src/Stream/Resume/Bytes.antt =====
-- Connections that fail and streams that resume, from the bytes of each stream: what the hook has
-- handled after all of them.
use agentchat_take_home.Base.{
  ℕ, ◌+◌, Text, true, false, List, [], ◌∷◌, ◌++◌, map, Option, none, some, ◌≡◌, refl, sym, ap, ◌∙◌,
  subst, arith, All, take, leb, Bool-cases, inl, inr,
}
use agentchat_take_home.Types.Json.{Json, Number}
use agentchat_take_home.Types.Ui.{Date}
use agentchat_take_home.Sse.Lines.{index_of_blank}
use agentchat_take_home.Sse.Buffer.Chunks.{concat}
use agentchat_take_home.Sse.Frame.Blocks.{Block, IsBlock, print_blocks}
use agentchat_take_home.Sse.Frame.Print.{Without}
use agentchat_take_home.Sse.Open.{
  Failure, read_failed, response, chunk, StreamRun, StreamOpts, open_conversation_stream,
}
use agentchat_take_home.Sse.Open.Printed.{
  callbacks_of, End, closed, lost, answer, open_conversation_stream-print_blocks,
}
use agentchat_take_home.Stream.Calm.{calm}
use agentchat_take_home.Stream.Events.{opened, step}
use agentchat_take_home.Stream.Received.{frames_of}
use agentchat_take_home.Stream.Resume.Hear.{stop, hear, hear-run, callbacks_of-IsFrame}
use agentchat_take_home.Stream.Resume.{IsLog, behind, retry, Handled, Handled-eq, served-Handled}
use agentchat_take_home.Stream.Membership.{run-cancelled}
use agentchat_take_home.Stream.Retry.{on_error_retry, on_error_stop, on_open_live}
use agentchat_take_home.Stream.{
  Stream, Frame, Clock, Effect, open_stream, reset, run_effect, connect, run, max_retries,
}

module _ (to_number : Text → Number) (parse_json : Text → Option Json) where
  -- A text that the server may send, in chunks, on a connection that resumes behind a number: its
  -- blocks carry the next `k` frames of the log, and it may break off inside a block.
  pub record Sent (log : List (Clock × Frame)) (last : Option ℕ) (k : ℕ) (clock : ℕ → Clock)
      (chunks : List Text) : Type 0 where
    pub blocks : List Block
    pub partial : Text
    pub printed_blocks : All (IsBlock to_number parse_json) blocks
    pub printed_partial : Without b'\r' partial
    pub unended : index_of_blank partial ≡ none
    pub text : concat chunks ≡ print_blocks blocks partial
    pub carried :
        frames_of clock (callbacks_of to_number parse_json blocks) ≡ take k (behind last log)

module _ (to_number : Text → Number) (parse_json : Text → Option Json) (parse_date : Text → Date)
    (cid : Text) where
  -- Connections one after the other, each of them the one that the hook opens next: it is refused,
  -- or the server sends a text and the reader ends. `n` is the sum of the numbers of frames.
  pub data Attended (log : List (Clock × Frame)) : ℕ → Stream × List Effect → Stream → Type 0 where
    rest : (r : Stream × List Effect) → Attended log 0 r r.0
    refused :
        {n : ℕ} {s t : Stream} {opts : StreamOpts} (fx : List Effect) (e : Failure)
        → Attended log n (retry e s) t
        → Attended log n (s, open_stream opts ∷ fx) t
    served :
        {n : ℕ} {s t : Stream} {opts : StreamOpts} (fx : List Effect) (k status : ℕ)
        (status_text : Text) (clock : ℕ → Clock) (chunks : List Text) (end : End)
        → Sent to_number parse_json log opts.last_event_id k clock chunks
        → Attended log n
            (hear parse_date cid clock
              (open_conversation_stream to_number parse_json []
                (response true status status_text true)
                (map chunk chunks ++ answer end ∷ [])).callbacks
              s)
            t
        → Attended log (k + n) (s, open_stream opts ∷ fx) t

  -- A stream that is opened resumes behind the last frame.
  abbrev Resumes : Stream × List Effect → Type 0
  Resumes (s, open_stream opts ∷ fx) = opts.last_event_id ≡ s.last_seq
  Resumes _ = Unit

  -- What is between two connections.
  abbrev Between : List (Clock × Frame) → ℕ → Stream × List Effect → Type 0
  Between log m r = (r.0.cancelled ≡ false) × Resumes r × Handled parse_date cid log m r.0

  retry-Between :
      (log : List (Clock × Frame)) (m : ℕ) (e : Failure) (s : Stream)
      → s.cancelled ≡ false
      → Handled parse_date cid log m s
      → Between log m (retry e s)
  retry-Between log m e s live h = elim (Bool-cases (leb max_retries s.retry_count)) [
    | inl full ↦ subst (Between log m) (sym (on_error_stop e s live (ground arith))) (live, tt, h)
    | inr more ↦
        subst (Between log m) (sym (on_error_retry e s live (ground arith))) (live, refl, h)
  ]

  stop-Between :
      (log : List (Clock × Frame)) (m : ℕ) (end : End) (s : Stream)
      → s.cancelled ≡ false
      → Handled parse_date cid log m s
      → Between log m (stop end s)
  stop-Between log m closed s live h = (live, tt, h)
  stop-Between log m (lost true) s live h = (live, tt, h)
  stop-Between log m (lost false) s live h = retry-Between log m read_failed s live h

  heard :
      (log : List (Clock × Frame)) (last : Option ℕ) (k status : ℕ) (status_text : Text)
      (clock : ℕ → Clock) (chunks : List Text) (end : End) (s : Stream)
      → Sent to_number parse_json log last k clock chunks
      → hear parse_date cid clock
          (open_conversation_stream to_number parse_json []
            (response true status status_text true)
            (map chunk chunks ++ answer end ∷ [])).callbacks
          s
        ≡ stop end (run parse_date cid (take k (behind last log)) (step parse_date cid opened s))
  heard log last k status status_text clock chunks end s sent =
      let calls = callbacks_of to_number parse_json sent.blocks in
      let opens = step parse_date cid opened s in
      ap (λ (r : StreamRun). hear parse_date cid clock r.callbacks s)
        (open_conversation_stream-print_blocks to_number parse_json status status_text sent.blocks
          sent.partial chunks end sent.printed_blocks sent.printed_partial sent.unended sent.text)
      ∙ hear-run parse_date cid calls clock end opens
          (callbacks_of-IsFrame to_number parse_json sent.blocks)
      ∙ ap (λ fs. stop end (run parse_date cid fs opens)) sent.carried

  -- A connection that is answered, by what its frames do.
  pub served_frames :
      {log : List (Clock × Frame)} {n : ℕ} {s t : Stream} {opts : StreamOpts} (fx : List Effect)
      (k status : ℕ) (status_text : Text) (clock : ℕ → Clock) (chunks : List Text) (end : End)
      → Sent to_number parse_json log opts.last_event_id k clock chunks
      → Attended log n
          (stop end (
            run parse_date cid
              (take k (behind opts.last_event_id log))
              (step parse_date cid opened s)))
          t
      → Attended log (k + n) (s, open_stream opts ∷ fx) t
  served_frames {log} {n} {s} {t} {opts} fx k status status_text clock chunks end sent more =
      served fx k status status_text clock chunks end sent (
        subst (λ r. Attended log n r t)
          (sym (heard log opts.last_event_id k status status_text clock chunks end s sent)) more)

  served-Between :
      (log : List (Clock × Frame)) (m k : ℕ) (last : Option ℕ) (end : End) (s : Stream)
      → IsLog log
      → s.cancelled ≡ false
      → last ≡ s.last_seq
      → Handled parse_date cid log m s
      → Between log
          (m + k)
          (stop end (run parse_date cid (take k (behind last log)) (step parse_date cid opened s)))
  served-Between log m k last end s l live resumes h =
      let fs = take k (behind s.last_seq log) in
      subst
        (λ o.
          Between log (m + k)
            (stop end (run parse_date cid (take k (behind o log)) (step parse_date cid opened s))))
        (sym resumes)
        (stop-Between log (m + k) end (run parse_date cid fs (step parse_date cid opened s))
          (run-cancelled parse_date cid fs (step parse_date cid opened s)
            ∙ ap (λ (t : Stream). t.cancelled) (on_open_live parse_date cid s live)
            ∙ live)
          (served-Handled parse_date cid log m k s l live h))

  Attended-Handled :
      (log : List (Clock × Frame)) (m : ℕ) {n : ℕ} {r : Stream × List Effect} {t : Stream}
      → IsLog log
      → Between log m r
      → Attended log n r t
      → Handled parse_date cid log (m + n) t
  Attended-Handled log m l (live, _, h) (rest r) =
      Handled-eq parse_date cid log m (m + 0) r.0 h (omega arith)
  Attended-Handled log m l (live, resumes, h) (refused {s = s} fx e more) =
      Attended-Handled log m l (retry-Between log m e s live h) more
  Attended-Handled log m {t = t} l (live, resumes, h)
        (served {n = n} {s = s} {opts = opts} fx k status status_text clock chunks end sent more) =
      let between = served-Between log m k opts.last_event_id end s l live resumes h in
      let reached =
        subst (Between log (m + k))
          (sym (heard log opts.last_event_id k status status_text clock chunks end s sent))
          between in
      Handled-eq parse_date cid log (m + k + n) (m + (k + n)) t
        (Attended-Handled log (m + k) l reached more) (omega arith)

  -- The effect of a conversation that is not the empty text, on a log whose numbers grow: a first
  -- connection and those that the hook opens behind errors. Each is refused, or it is answered by a
  -- text, cut into chunks anyhow, whose blocks carry the next frames of the log behind the number
  -- that the request names, and which may break off inside a block; the reader then fails or is
  -- done. Apart from the fields of the connection, the state after any such connections is the one
  -- that handles the first frames of the log over a single connection, each of them once and in
  -- their order: the sum of the numbers of frames that the texts were to carry, or the whole log
  -- where it is shorter. The calls of `onFrame` return normally. No payload holds a carriage
  -- return, and comments, ids and names no line break.
  pub Attended-run :
      (log : List (Clock × Frame)) (n c : ℕ) (name : Text) (t : Stream)
      → IsLog log
      → Attended log n (run_effect (some (c ∷ name))) t
      → calm t ≡ run parse_date cid (take n log) reset
  unfolding run_effect connect run
  Attended-run log n c name t l attended =
      Handled-eq parse_date cid log (0 + n) n t
        (Attended-Handled log 0 l (refl, refl, refl) attended) (omega arith)
