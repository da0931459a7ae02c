-- ===== src/Tests/Received.antt =====
-- A stream from its text to the live message. The payloads hold a field on each line, and numbers
-- are decimal.
mod Bytes
use agentchat_take_home.Base.{
  ℕ, suc, ◌+◌, ◌*◌, ◌-◌, Text, codes, true, false, List, [], ◌∷◌, ◌++◌, map, Option, none, some,
  ◌≡◌, refl, arith, All, take, drop, length, text_eq, text_beq, select,
}
use agentchat_take_home.Types.Adapters.{to_ui_message}
use agentchat_take_home.Types.Event.{message_start, message_append, message_end, event_of}
use agentchat_take_home.Types.Json.{Json, Number, finite, string, object, Fields, end, field}
use agentchat_take_home.Types.Payload.{payload_of}
use agentchat_take_home.Types.Ui.{Date, Message, message}
use agentchat_take_home.Sse.Lines.{split, join, index_of, index_of_blank}
use agentchat_take_home.Sse.Frame.Blocks.{Block, note, printed, print_blocks, IsBlock}
use agentchat_take_home.Sse.Open.{
  response, chunk, read_rejected, on_open, on_frame, on_error, read_failed, resolved,
  open_conversation_stream,
}
use agentchat_take_home.Sse.Open.Printed.{lost, open_conversation_stream-print_blocks}
use agentchat_take_home.Stream.{Stream, Clock, connect, run_effect}
use agentchat_take_home.Stream.Events.{opened, steps}
use agentchat_take_home.Stream.Feed.{build_feed}
use agentchat_take_home.Stream.Assembly.{Token, finished, row}
use agentchat_take_home.Stream.Received.Shown.{
  has_id, received, open_conversation_stream-build_feed,
}

decimal_from : ℕ → Text → ℕ
decimal_from n [] = n
decimal_from n (c ∷ s) = decimal_from (n * 10 + (c - b'0')) s

abbrev to_number : Text → Number
to_number s = finite (decimal_from 0 s)

abbrev fields_of : List Text → Fields
fields_of [] = end
fields_of (l ∷ ls) =
    let rest = fields_of ls in
    elim (index_of b'=' l) [
      | none ↦ rest
      | some i ↦ field (take i l) (string (drop (suc i) l)) rest
    ]

abbrev parse_json : Text → Option Json
parse_json t = some (object (fields_of (split t)))

abbrev parse_date : Text → Date
parse_date t = some (length t)

-- The start of a message.
abbrev opening : Text
opening = codes "message_id=m\nsender_id=bob\ntimestamp=t"

abbrev token : Text
token = codes "message_id=m\ncontent=hi\ntimestamp=t"

abbrev closing : Text
closing = codes "message_id=m\ntimestamp=tt"

abbrev blocks : List Block
blocks =
    note (codes " heartbeat")
    ∷ printed [] (some (codes "4")) (some 4) (codes "message_start") opening
    ∷ printed (codes " x" ∷ []) (some (codes "6")) (some 6) (codes "message_append") token
    ∷ printed [] none none (codes "error") (codes "code=gone")
    ∷ printed [] (some (codes "17")) (some 17) (codes "message_end") closing
    ∷ []

abbrev partial : Text
partial = codes "id: 18\neve"

abbrev whole : Text
whole = print_blocks blocks partial

abbrev chunks : List Text
chunks = take 21 whole ∷ drop 21 whole ∷ []

blocks-IsBlock : All (IsBlock to_number parse_json) blocks
unfolding decimal_from
blocks-IsBlock = (
  omega arith,
  (
    (tt, (4, refl, refl, omega arith), omega arith, omega arith),
    (
      (omega arith, (6, refl, refl, omega arith), omega arith, omega arith),
      (
        (tt, refl, omega arith, omega arith),
        ((tt, (17, refl, refl, omega arith), omega arith, omega arith), tt),
      ),
    ),
  ),
)

unended : index_of_blank partial ≡ none
unfolding index_of_blank
unended = refl

open_conversation_stream-print_blocks_example :
    open_conversation_stream to_number parse_json []
      (response true 200 (codes "OK") true)
      (map chunk chunks ++ read_rejected false ∷ [])
    ≡ record {
      callbacks =
          on_open
          ∷ on_frame (record {
            seq = 4;
            event = message_start;
            payload = object (fields_of (split opening));
          })
          ∷ on_frame (record {
            seq = 6;
            event = message_append;
            payload = object (fields_of (split token));
          })
          ∷ on_frame (record {
            seq = 17;
            event = message_end;
            payload = object (fields_of (split closing));
          })
          ∷ on_error read_failed
          ∷ [];
      settled = resolved;
    }
unfolding event_of text_beq join split index_of
open_conversation_stream-print_blocks_example =
    open_conversation_stream-print_blocks to_number parse_json 200 (codes "OK") blocks partial
      chunks (lost false) blocks-IsBlock (omega arith) unended refl

abbrev clock : ℕ → Clock
clock i = record { changed_at = 9000 + i; compared_at = 9001 + i; live_at = 9002 + i }

abbrev tokens : List Token
tokens = record { clock = clock 1; seq = 6; content = codes "hi"; timestamp = codes "t" } ∷ []

-- The history has a row of the same message already.
abbrev history : List Message
history =
    to_ui_message none (row (codes "m") (codes "bob") (codes "h") 4 6 (finished [])) (codes "c1")
    ∷ []

abbrev live : Stream
live =
    received parse_date (codes "c1") to_number parse_json 200 (codes "OK") chunks (lost false) clock
      (steps parse_date (codes "c1") (opened ∷ []) (run_effect (some (codes "c1"))).0)

open_conversation_stream-build_feed_example :
    select (has_id (codes "m")) (build_feed history live.live_messages live.live_system_events)
    ≡ message
        (record (to_ui_message none
          (row (codes "m") (codes "bob") (codes "hi") 4 17 (finished (codes "tt")))
          (codes "c1")) { timestamp = some 1 })
      ∷ []
unfolding event_of text_beq join split index_of payload_of run_effect connect
    agentchat_take_home.Stream.on_open
open_conversation_stream-build_feed_example =
    open_conversation_stream-build_feed parse_date (codes "c1") to_number parse_json 200
      (codes "OK") blocks partial chunks (lost false) clock (opened ∷ []) history (codes "m")
      (codes "bob") (codes "t") (clock 0) 4 tokens (clock 2) 17 (finished (codes "tt")) none
      blocks-IsBlock (omega arith) unended refl refl refl
