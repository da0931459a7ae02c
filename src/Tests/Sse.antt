-- ===== src/Tests/Sse.antt =====
-- Runs of the parser and of the reader, and the theorems of Sse on them. Numbers are decimal, and
-- every payload is read as a JSON string.
use agentchat_take_home.Base.{
  ℕ, ◌+◌, ◌*◌, ◌-◌, Text, codes, true, false, List, [], ◌∷◌, ◌++◌, map, Option, none, some, ◌≡◌,
  ◌↔◌, refl, arith, text_beq,
}
use agentchat_take_home.Types.Json.{Json, Number, finite, string, number, object, field, end}
use agentchat_take_home.Types.Event.{
  is_sse_frame, message_append, message_end, agent_left, event_of,
}
use agentchat_take_home.Types.Event.Guard.{IsSseFrame, is_sse_frame-IsSseFrame}
use agentchat_take_home.Sse.Lines.{normalize, split, join, index_of, index_of_blank}
use agentchat_take_home.Sse.Buffer.{feed, feed_all, drain, drain_on, cut}
use agentchat_take_home.Sse.Buffer.Chunks.{NoDoubleCr, concat}
use agentchat_take_home.Sse.Frame.{
  parse_frame, read_lines, read_line, read_field, split_field, strip_space, finish,
}
use agentchat_take_home.Sse.Open.{
  on_error, returned, thrown, handler_failed, continue, after, response, read_rejected, chunk, done,
  on_open, on_frame, resolved, open_conversation_stream, read_loop, deliver, deliver_all,
}
use agentchat_take_home.Sse.Open.Failures.{open_conversation_stream-errors}
use agentchat_take_home.Sse.Open.Calls.{errors}
use agentchat_take_home.Sse.Open.Delivery.{open_conversation_stream-chunks}

decimal_from : ℕ → Text → ℕ
decimal_from n [] = n
decimal_from n (c ∷ s) = decimal_from (n * 10 + (c - b'0')) s

abbrev to_number : Text → Number
to_number s = finite (decimal_from 0 s)

abbrev parse_json : Text → Option Json
parse_json s = some (string s)

parser : Unit {0}
unfolding decimal_from parse_frame read_lines read_line read_field split_field strip_space finish
    normalize split join index_of event_of text_beq
parser = tt

parse_frame_run :
    parse_frame to_number parse_json
      (codes "id: 42\r\nevent: message_append\r\n: note\r\ndata:a\r\ndata: b")
    ≡ some (record { seq = 42; event = message_append; payload = string (codes "a\nb") })
unfolding parser
parse_frame_run = refl

parse_frame_no_data : parse_frame to_number parse_json (codes ": heartbeat") ≡ none
unfolding parser
parse_frame_no_data = refl

-- A stream in three chunks, one of which ends inside a CRLF.
abbrev pieces : List Text
pieces =
    codes "id: 7\r\nevent: message_end\r"
    ∷ codes "\ndata: x\r\n\r"
    ∷ codes "\nid: 8\nevent: agent_left\ndata: y\n\n"
    ∷ []

pieces-NoDoubleCr : NoDoubleCr (concat pieces)
pieces-NoDoubleCr = omega arith

reader_run :
    open_conversation_stream to_number parse_json []
      (response true 200 (codes "OK") true)
      (map chunk pieces ++ done ∷ [])
    ≡ record {
      callbacks =
          on_open
          ∷ on_frame (record { seq = 7; event = message_end; payload = string (codes "x") })
          ∷ on_frame (record { seq = 8; event = agent_left; payload = string (codes "y") })
          ∷ [];
      settled = resolved;
    }
unfolding parser open_conversation_stream read_loop deliver deliver_all drain_on cut index_of_blank
reader_run = refl

-- The first call of `onFrame` throws: the second frame is not delivered, and `onError` runs.
thrown_run :
    open_conversation_stream to_number parse_json
      (thrown false ∷ [])
      (response true 200 (codes "OK") true)
      (map chunk pieces ++ done ∷ [])
    ≡ record {
      callbacks =
          on_open
          ∷ on_frame (record { seq = 7; event = message_end; payload = string (codes "x") })
          ∷ on_error handler_failed
          ∷ [];
      settled = resolved;
    }
unfolding parser open_conversation_stream read_loop deliver deliver_all drain_on cut index_of_blank
thrown_run = refl

open_conversation_stream-chunks_example :
    open_conversation_stream to_number parse_json
      (returned ∷ thrown true ∷ [])
      (response true 200 (codes "OK") true)
      (map chunk pieces ++ done ∷ [])
    ≡ after (on_open ∷ []) (
        continue
          (deliver_all to_number parse_json
            (returned ∷ thrown true ∷ [])
            (drain (normalize (concat pieces))).raws)
          (λ rest. record { callbacks = []; settled = resolved }))
open_conversation_stream-chunks_example =
    open_conversation_stream-chunks to_number parse_json (returned ∷ thrown true ∷ []) 200
      (codes "OK") pieces pieces-NoDoubleCr

-- The second call throws, so that the failure of the reader is not seen.
open_conversation_stream-errors_example :
    errors
      (open_conversation_stream to_number parse_json
        (returned ∷ thrown false ∷ [])
        (response true 200 (codes "OK") true)
        (map chunk pieces ++ read_rejected false ∷ [])).callbacks
    ≡ 1
unfolding parser drain_on cut index_of_blank feed_all feed
open_conversation_stream-errors_example =
    open_conversation_stream-errors to_number parse_json (returned ∷ thrown false ∷ [])
      (response true 200 (codes "OK") true) (map chunk pieces ++ read_rejected false ∷ [])

-- A value as the server would write it with its payload beside the two fields.
abbrev written : Json
written = object (
    field (codes "seq") (number (finite 3))
      (field (codes "data") (string []) (field (codes "event") (string (codes "agent_left")) end)))

is_sse_frame-IsSseFrame_example : (is_sse_frame written ≡ true) ↔ IsSseFrame written
is_sse_frame-IsSseFrame_example = is_sse_frame-IsSseFrame written
