-- ===== src/Tests/Stream.antt =====
-- Runs of the hook's callbacks, and the theorems of Stream on them. A date is read as the number
-- of code units of its text.
use agentchat_take_home.Base.{
  ℕ, Text, codes, true, false, List, [], ◌∷◌, ◌++◌, map, none, some, ◌≡◌, refl, arith, length,
  select, replicate, ◌==◌, text_eq, nat_eq, text_beq,
}
use agentchat_take_home.JsMap
use agentchat_take_home.JsMap.Values.{to_list}
use agentchat_take_home.Sort.{sort, insert, by}
use agentchat_take_home.Sort.Laws.{IsSorted}
use agentchat_take_home.Types.Payload.{started, appended, ended, joined}
use agentchat_take_home.Types.Ui.{
  Date, Message, SystemEvent, message, system, agent_joined, agent_left,
}
use agentchat_take_home.Types.Adapters.{to_ui_message}
use agentchat_take_home.Sse.Open.{fetch_failed, read_failed}
use agentchat_take_home.Stream.{
  Frame, Clock, reset, run_effect, run, on_frame, on_open, on_error, on_timer, connect, handle,
  membership, flush, flush_system,
}
use agentchat_take_home.Stream.Events.{opened, framed, failed, timer, cleaned, steps}
use agentchat_take_home.Stream.Invariant.{IsValid, reset-IsValid, steps-IsValid}
use agentchat_take_home.Stream.Projection.{message_steps, event_steps, run-steps}
use agentchat_take_home.Stream.Assembly.{Token, finished, row, contents, run-message_frames}
use agentchat_take_home.Stream.Membership.{membership_frame, SameFeed, replay-SameFeed}
use agentchat_take_home.Stream.Liveness.{run_historical}
use agentchat_take_home.Stream.Retry.{reopened, resume, reopened-run}
use agentchat_take_home.Stream.System
use agentchat_take_home.Stream.System.{System, Step, Reach, IsSingle, Reach-IsSingle}
use agentchat_take_home.Stream.Cleanup.{IsQuiet, Step-IsQuiet}
use agentchat_take_home.Stream.Feed.{merge_history_and_live, build_feed, set_all, item_seq}
use agentchat_take_home.Stream.Feed.Merge.{latest, merge_history_and_live_lem}
use agentchat_take_home.Stream.Feed.Interleave.{is_message, is_system, build_feed_lem}

abbrev parse_date : Text → Date
parse_date t = some (length t)

abbrev cid : Text
cid = codes "c1"

abbrev clock : Clock
clock = record { changed_at = 9000; compared_at = 9001; live_at = 9002 }

abbrev start_of : ℕ → Text → Clock × Frame
start_of n id = (
  clock,
  record {
    seq = n;
    payload = started (record { message_id = id; sender_id = codes "bob"; timestamp = codes "t" });
  },
)

abbrev piece : ℕ → Text → Text → Clock × Frame
piece n id content = (
  clock,
  record {
    seq = n;
    payload = appended (record { message_id = id; content = content; timestamp = codes "tt" });
  },
)

abbrev end_of : ℕ → Text → Clock × Frame
end_of n id = (
  clock,
  record { seq = n; payload = ended (record { message_id = id; timestamp = codes "ttt" }) },
)

abbrev join_of : ℕ → Clock × Frame
join_of n = (
  clock,
  record { seq = n; payload = joined (record { agent_id = codes "eve"; timestamp = codes "t" }) },
)

-- Two messages whose frames interleave, and an agent that joins.
abbrev frames : List (Clock × Frame)
frames =
    start_of 1 (codes "m")
    ∷ piece 2 (codes "m") (codes "he")
    ∷ start_of 3 (codes "n")
    ∷ piece 4 (codes "m") (codes "llo")
    ∷ join_of 5
    ∷ end_of 6 (codes "m")
    ∷ []

abbrev hello : Message
hello = record {
  id = codes "m";
  agent_id = codes "bob";
  conversation_id = cid;
  content = codes "hello";
  timestamp = some 1;
  is_streaming = false;
  stream_complete = true;
  seq = 1;
}

hook : Unit {0}
unfolding JsMap.get JsMap.set text_beq sort insert run on_frame handle membership flush flush_system
    to_ui_message run_effect connect set_all merge_history_and_live build_feed
hook = tt

frames-run : JsMap.get (codes "m") (run parse_date cid frames reset).messages ≡ some hello
unfolding hook
frames-run = refl

abbrev late : Message
late = record hello { content = codes "old"; seq = 3 }

feed_run :
    build_feed
      (late ∷ [])
      (hello ∷ [])
      (record { kind = agent_left; agent_id = codes "eve"; timestamp = none; seq = 1 } ∷ [])
    ≡ message hello
      ∷ system (record { kind = agent_left; agent_id = codes "eve"; timestamp = none; seq = 1 })
      ∷ []
unfolding hook
feed_run = refl

merge_history_and_live_lem_example :
    (select (λ m. m.id == codes "m") (merge_history_and_live (late ∷ []) (hello ∷ []))
      ≡ to_list (latest (codes "m") (hello ∷ []) (latest (codes "m") (late ∷ []) none)))
    × IsSorted (by (λ (m : Message). m.seq)) (merge_history_and_live (late ∷ []) (hello ∷ []))
merge_history_and_live_lem_example = merge_history_and_live_lem (late ∷ []) (hello ∷ []) (codes "m")

abbrev gone : SystemEvent
gone = record { kind = agent_left; agent_id = codes "eve"; timestamp = none; seq = 1 }

build_feed_lem_example :
    IsSorted (by item_seq) (build_feed (late ∷ []) (hello ∷ []) (gone ∷ []))
    × (select is_message (build_feed (late ∷ []) (hello ∷ []) (gone ∷ []))
        ≡ map message (merge_history_and_live (late ∷ []) (hello ∷ [])))
    × (select is_system (build_feed (late ∷ []) (hello ∷ []) (gone ∷ []))
        ≡ map system (sort (by (λ e. e.seq)) (gone ∷ [])))
    × (select (λ i. item_seq i == 1) (build_feed (late ∷ []) (hello ∷ []) (gone ∷ []))
        ≡ select
            (λ i. item_seq i == 1)
            (map message (merge_history_and_live (late ∷ []) (hello ∷ [])))
          ++ select (λ i. item_seq i == 1) (map system (gone ∷ [])))
build_feed_lem_example = build_feed_lem (late ∷ []) (hello ∷ []) (gone ∷ []) 1

steps-IsValid_example : IsValid cid (
    steps parse_date cid
      (opened ∷ framed clock (start_of 1 (codes "m")).1 ∷ failed read_failed ∷ timer ∷ cleaned ∷ [])
      (run_effect (some cid)).0)
steps-IsValid_example =
    steps-IsValid parse_date cid
      (opened ∷ framed clock (start_of 1 (codes "m")).1 ∷ failed read_failed ∷ timer ∷ cleaned ∷ [])

run-steps_example :
    (JsMap.get (codes "n") (run parse_date cid frames reset).messages
      ≡ message_steps parse_date cid (codes "n") frames (JsMap.get (codes "n") reset.messages))
    × (JsMap.get 5 (run parse_date cid frames reset).system_events
        ≡ event_steps parse_date cid 5 frames (JsMap.get 5 reset.system_events))
run-steps_example = run-steps parse_date cid frames reset (codes "n") 5 refl

abbrev tokens : List Token
tokens =
    record { clock = clock; seq = 2; content = codes "he"; timestamp = codes "tt" }
    ∷ record { clock = clock; seq = 4; content = codes "llo"; timestamp = codes "tt" }
    ∷ []

run-message_frames_example :
    JsMap.get (codes "m") (run parse_date cid frames reset).messages
    ≡ some
        (record (to_ui_message
          (some 77)
          (row (codes "m") (codes "bob") (contents tokens) 1 6 (finished (codes "ttt")))
          cid) { timestamp = parse_date (codes "t") })
unfolding hook
run-message_frames_example =
    run-message_frames parse_date cid frames reset (codes "m") (codes "bob") (codes "t") clock 1
      tokens clock 6 (finished (codes "ttt")) (some 77) refl refl

replay-SameFeed_example :
    SameFeed
      (run parse_date cid frames (
        on_frame parse_date cid clock
          (membership_frame 9 agent_left (record { agent_id = codes "eve"; timestamp = codes "t" }))
          reset))
      (on_frame parse_date cid clock
        (membership_frame 9 agent_left (record { agent_id = codes "eve"; timestamp = codes "t" }))
        (run parse_date cid frames (
          on_frame parse_date cid clock
            (membership_frame 9 agent_left
              (record { agent_id = codes "eve"; timestamp = codes "t" }))
            reset)))
unfolding hook
replay-SameFeed_example =
    replay-SameFeed parse_date cid 9 agent_left
      (record { agent_id = codes "eve"; timestamp = codes "t" }) clock clock frames reset
      (reset-IsValid cid) refl (omega arith)

-- A clock near the times of the changes: the first readings are old, the last is recent.
abbrev soon : Clock
soon = record { changed_at = 100; compared_at = 101; live_at = 102 }

run_historical_example :
    ((run parse_date cid frames reset).last_live_membership_change_at
      ≡ reset.last_live_membership_change_at)
    × ((on_frame parse_date cid soon
          (membership_frame 9 agent_joined
            (record { agent_id = codes "eve"; timestamp = codes "t" }))
          (run parse_date cid frames reset)).last_live_membership_change_at
        ≡ 102)
run_historical_example =
    run_historical parse_date cid frames reset soon 9 agent_joined
      (record { agent_id = codes "eve"; timestamp = codes "t" }) refl (omega arith) (omega arith)

reopened-run_example :
    reopened (replicate 7 fetch_failed) (run parse_date cid frames (on_open reset))
    ≡ replicate 5 (resume (some 6))
reopened-run_example = reopened-run parse_date cid (replicate 7 fetch_failed) frames reset refl

-- The stream opens and fails, and the timer opens the next one.
abbrev opening : System
opening = System.after (run_effect (some cid)) 0 0

abbrev open_now : System
open_now = record opening { stream = on_open opening.stream }

abbrev waiting : System
waiting = System.after (on_error read_failed open_now.stream) 0 0

abbrev reopening : System
reopening = System.after (on_timer waiting.stream) 0 0

reached : Reach parse_date cid reopening
unfolding hook on_open on_error on_timer
reached =
    System.next
      (System.next (System.next System.start (System.opened (omega arith)))
        (System.failed read_failed (omega arith)))
      (System.fired (omega arith))

Reach-IsSingle_example : IsSingle reopening
Reach-IsSingle_example = Reach-IsSingle parse_date cid reached

-- A stream that fails after the cleanup.
abbrev dead : System
dead = record {
  stream = record reset { cancelled = true; live_messages = hello ∷ [] };
  streams = 1;
  timers = 0;
}

failing : Step parse_date cid dead (System.after (on_error read_failed dead.stream) 0 0)
failing = System.failed read_failed (omega arith)

Step-IsQuiet_example : IsQuiet dead (System.after (on_error read_failed dead.stream) 0 0)
Step-IsQuiet_example = Step-IsQuiet parse_date cid failing refl
