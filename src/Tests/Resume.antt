-- ===== src/Tests/Resume.antt =====
-- A message whose frames arrive over several connections of the hook.
use agentchat_take_home.Base.{
  Text, codes, true, false, List, [], ◌∷◌, some, ◌≡◌, refl, arith, length, take, text_eq, text_beq,
}
use agentchat_take_home.JsMap
use agentchat_take_home.Sort.{sort, insert}
use agentchat_take_home.Types.Payload.{started, appended, ended}
use agentchat_take_home.Types.Ui.{Date}
use agentchat_take_home.Sse.Open.{fetch_failed, read_failed}
use agentchat_take_home.Stream.{
  Frame, Clock, reset, run_effect, connect, run, on_open, on_error, on_timer, on_frame, handle,
  flush,
}
use agentchat_take_home.Stream.Calm.{calm}
use agentchat_take_home.Stream.Resume.{Visit, refused, served, attend, budget, attend-run}

abbrev parse_date : Text → Date
parse_date t = some (length t)

abbrev clock : Clock
clock = record { changed_at = 9000; compared_at = 9001; live_at = 9002 }

abbrev log : List (Clock × Frame)
log =
    (
      clock,
      record {
        seq = 4;
        payload =
            started
              (record { message_id = codes "m"; sender_id = codes "bob"; timestamp = codes "t" });
      },
    )
    ∷ (
      clock,
      record {
        seq = 6;
        payload =
            appended
              (record { message_id = codes "m"; content = codes "he"; timestamp = codes "t" });
      },
    )
    ∷ (
      clock,
      record {
        seq = 7;
        payload =
            appended
              (record { message_id = codes "m"; content = codes "llo"; timestamp = codes "t" });
      },
    )
    ∷ (
      clock,
      record {
        seq = 9;
        payload = ended (record { message_id = codes "m"; timestamp = codes "t" });
      },
    )
    ∷ []

-- The second connection that opens delivers nothing.
abbrev visits : List Visit
visits =
    refused fetch_failed
    ∷ served 2 read_failed
    ∷ refused fetch_failed
    ∷ served 0 read_failed
    ∷ served 9 read_failed
    ∷ []

hook : Unit {0}
unfolding JsMap.get JsMap.set text_beq sort insert run on_open on_error on_timer on_frame handle
    flush run_effect connect
hook = tt

attend_contents :
    JsMap.get
      (codes "m")
      (attend parse_date (codes "c1") log visits (run_effect (some (codes "c1")))).messages
    ≡ some (record {
      id = codes "m";
      agent_id = codes "bob";
      conversation_id = codes "c1";
      content = codes "hello";
      timestamp = some 1;
      is_streaming = false;
      stream_complete = true;
      seq = 4;
    })
unfolding hook
attend_contents = refl

attend-run_example :
    calm (attend parse_date (codes "c1") log visits (run_effect (some (codes "c1"))))
    ≡ run parse_date (codes "c1") (take (budget 0 visits) log) reset
attend-run_example = attend-run parse_date (codes "c1") log visits _ _ (omega arith)
