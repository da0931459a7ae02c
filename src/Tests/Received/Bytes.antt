-- ===== src/Tests/Received/Bytes.antt =====
-- The same message over two connections: the first one breaks off inside a block, then one is
-- refused, and the last one resumes.
use agentchat_take_home.Base.{
  ◌+◌, Text, codes, false, List, [], ◌∷◌, none, some, ◌≡◌, refl, arith, take, drop, text_eq,
  text_beq,
}
use agentchat_take_home.JsMap
use agentchat_take_home.Sort.{sort, insert}
use agentchat_take_home.Types.Event.{event_of}
use agentchat_take_home.Types.Payload.{payload_of, started, appended, ended}
use agentchat_take_home.Sse.Lines.{split, join, index_of, index_of_blank}
use agentchat_take_home.Sse.Frame.Blocks.{Block, note, printed, print_blocks}
use agentchat_take_home.Sse.Frame.{}
use agentchat_take_home.Sse.Open.{read_failed, fetch_failed}
use agentchat_take_home.Sse.Open.Printed.{closed, lost}
use agentchat_take_home.Stream.Events.{opened, step}
use agentchat_take_home.Stream.Resume.{retry}
use agentchat_take_home.Stream.{Stream, Frame, Clock, Effect, reset, run_effect, connect, run}
use agentchat_take_home.Stream.Calm.{calm}
use agentchat_take_home.Stream.Resume.Bytes.{
  Sent, Attended, rest, refused, served_frames, Attended-run,
}
use agentchat_take_home.Tests.Received.{
  to_number, decimal_from, parse_json, parse_date, opening, token, closing, clock,
}

abbrev log : List (Clock × Frame)
log =
    (
      clock 0,
      record {
        seq = 4;
        payload =
            started
              (record { message_id = codes "m"; sender_id = codes "bob"; timestamp = codes "t" });
      },
    )
    ∷ (
      clock 1,
      record {
        seq = 6;
        payload =
            appended
              (record { message_id = codes "m"; content = codes "hi"; timestamp = codes "t" });
      },
    )
    ∷ (
      clock 2,
      record {
        seq = 17;
        payload = ended (record { message_id = codes "m"; timestamp = codes "tt" });
      },
    )
    ∷ []

abbrev before : List Block
before =
    note (codes " heartbeat")
    ∷ printed [] (some (codes "4")) (some 4) (codes "message_start") opening
    ∷ printed (codes " x" ∷ []) (some (codes "6")) (some 6) (codes "message_append") token
    ∷ []

abbrev behind : List Block
behind =
    printed [] none none (codes "error") (codes "code=gone")
    ∷ printed [] (some (codes "17")) (some 17) (codes "message_end") closing
    ∷ []

abbrev cut_off : Text
cut_off = codes "id: 17\neve"

abbrev first_text : Text
first_text = print_blocks before cut_off

first_answer :
    Sent to_number parse_json log none 2 clock (take 21 first_text ∷ drop 21 first_text ∷ [])
unfolding decimal_from event_of text_beq join split index_of index_of_blank payload_of
first_answer = record {
  blocks = before;
  partial = cut_off;
  printed_blocks = (
    omega arith,
    (
      (tt, (4, refl, refl, omega arith), omega arith, omega arith),
      ((omega arith, (6, refl, refl, omega arith), omega arith, omega arith), tt),
    ),
  );
  printed_partial = omega arith;
  unended = refl;
  text = refl;
  carried = refl;
}

last_answer :
    Sent to_number parse_json log (some 6) 1 (λ i. clock (i + 2)) (print_blocks behind [] ∷ [])
unfolding decimal_from event_of text_beq join split index_of index_of_blank payload_of
last_answer = record {
  blocks = behind;
  partial = [];
  printed_blocks = (
    (tt, refl, omega arith, omega arith),
    ((tt, (17, refl, refl, omega arith), omega arith, omega arith), tt),
  );
  printed_partial = tt;
  unended = refl;
  text = refl;
  carried = refl;
}

-- Behind the first stream, behind the refused one, and behind the last one.
abbrev first_end : Stream × List Effect
first_end = retry read_failed (
    run parse_date (codes "c1") (take 2 log)
      (step parse_date (codes "c1") opened (run_effect (some (codes "c1"))).0))

abbrev refused_end : Stream × List Effect
refused_end = retry fetch_failed first_end.0

abbrev last_end : Stream
last_end =
    run parse_date (codes "c1") (drop 2 log) (step parse_date (codes "c1") opened refused_end.0)

hook : Unit {0}
unfolding JsMap.get JsMap.set text_beq sort insert run_effect connect run
    agentchat_take_home.Stream.on_open agentchat_take_home.Stream.on_frame
    agentchat_take_home.Stream.on_error agentchat_take_home.Stream.on_timer
    agentchat_take_home.Stream.handle agentchat_take_home.Stream.flush
hook = tt

attended :
    Attended to_number parse_json parse_date
      (codes "c1")
      log
      3
      (run_effect (some (codes "c1")))
      last_end
unfolding hook
attended =
    served_frames to_number parse_json parse_date (codes "c1") [] 2 200 (codes "OK") clock
      (take 21 first_text ∷ drop 21 first_text ∷ []) (lost false) first_answer
      (refused [] fetch_failed (
        served_frames to_number parse_json parse_date (codes "c1") [] 1 200 (codes "OK")
          (λ i. clock (i + 2)) (print_blocks behind [] ∷ []) closed last_answer
          (rest (last_end, []))))

Attended-run_example : calm last_end ≡ run parse_date (codes "c1") (take 3 log) reset
Attended-run_example =
    Attended-run to_number parse_json parse_date (codes "c1") log 3 _ _ last_end (omega arith)
      attended
