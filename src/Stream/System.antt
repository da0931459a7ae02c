-- ===== src/Stream/System.antt =====
-- The hook's effect with the streams and the timers that it has started, as a step relation.
use agentchat_take_home.Base.{
  ℕ, ◌+◌, ◌-◌, ◌≤◌, ◌<◌, Text, true, false, List, [], ◌∷◌, Option, none, some, ◌≡◌, arith,
  if◌then◌else◌,
}
use agentchat_take_home.Types.Ui.{Date}
use agentchat_take_home.Sse.Open.{Failure}
use agentchat_take_home.Stream.Kept.{on_frame-Kept}
use agentchat_take_home.Stream.{
  Stream, Frame, Clock, Effect, open_stream, set_timer, clear_timer, abort, connect, run_effect,
  on_open, on_error, on_timer, cleanup, on_frame,
}

-- `streams` counts the calls of `openConversationStream` that have not ended, `timers` the timers
-- that are set and have not fired.
pub record System : Type 0 where
  pub stream : Stream
  pub streams : ℕ
  pub timers : ℕ

-- An aborted stream ends later, with no callback.
abbrev pub perform : List Effect → ℕ × ℕ → ℕ × ℕ
perform [] n = n
perform (open_stream opts ∷ fx) (streams, timers) = perform fx (streams + 1, timers)
perform (set_timer ∷ fx) (streams, timers) = perform fx (streams, timers + 1)
perform (clear_timer ∷ fx) (streams, timers) = perform fx (streams, timers - 1)
perform (abort ∷ fx) (streams, timers) = perform fx (streams, timers)

abbrev pub after : Stream × List Effect → ℕ → ℕ → System
after (s, fx) streams timers = record {
  stream = s;
  streams = (perform fx (streams, timers)).0;
  timers = (perform fx (streams, timers)).1;
}

-- The callbacks of a stream run while it has not ended; an error ends it, and so does the server
-- or an abort.
pub data Step (parse_date : Text → Date) (cid : Text) (s : System) : System → Type 0 where
  opened : 0 < s.streams → Step parse_date cid s (record s { stream = on_open s.stream })
  framed :
      (clock : Clock) (f : Frame)
      → 0 < s.streams
      → Step parse_date cid s (record s { stream = on_frame parse_date cid clock f s.stream })
  failed :
      (e : Failure)
      → 0 < s.streams
      → Step parse_date cid s (after (on_error e s.stream) (s.streams - 1) s.timers)
  ended : 0 < s.streams → Step parse_date cid s (record s { streams = s.streams - 1 })
  fired : 0 < s.timers → Step parse_date cid s (after (on_timer s.stream) s.streams (s.timers - 1))
  cleaned :
      s.stream.cancelled ≡ false
      → Step parse_date cid s (after (cleanup s.stream) s.streams s.timers)

pub data Reach (parse_date : Text → Date) (cid : Text) : System → Type 0 where
  start : Reach parse_date cid (after (run_effect (some cid)) 0 0)
  next : {s t : System} → Reach parse_date cid s → Step parse_date cid s t → Reach parse_date cid t

-- At most one stream or timer, the variable tells whether there is a timer, and there is none
-- behind the cleanup.
pub record IsSingle (s : System) : Type 0 where
  pub single : s.streams + s.timers ≤ 1
  pub known : (if s.stream.retry_timer then 1 else 0) ≡ s.timers
  pub cleared : s.stream.cancelled ≡ true → s.timers ≡ 0

start-IsSingle : (c : Option Text) → IsSingle (after (run_effect c) 0 0)
unfolding run_effect connect
start-IsSingle none = ground arith
start-IsSingle (some []) = ground arith
start-IsSingle (some (c ∷ t)) = ground arith

module _ (parse_date : Text → Date) (cid : Text) where
  opened-IsSingle : (s : System) → IsSingle s → IsSingle (record s { stream = on_open s.stream })
  unfolding on_open
  opened-IsSingle s i = ground arith

  framed-IsSingle :
      (s : System) (clock : Clock) (f : Frame)
      → IsSingle s
      → IsSingle (record s { stream = on_frame parse_date cid clock f s.stream })
  framed-IsSingle s clock f i =
      let k = on_frame-Kept parse_date cid clock f s.stream in
      record {
        single = i.single;
        known = rw k.retry_timer i.known;
        cleared = λ h. i.cleared (rw k.cancelled at h);
      }

  failed-IsSingle :
      (s : System) (e : Failure)
      → 0 < s.streams
      → IsSingle s
      → IsSingle (after (on_error e s.stream) (s.streams - 1) s.timers)
  unfolding on_error
  failed-IsSingle s e h i = ground arith

  fired-IsSingle :
      (s : System)
      → 0 < s.timers
      → IsSingle s
      → IsSingle (after (on_timer s.stream) s.streams (s.timers - 1))
  unfolding on_timer connect
  fired-IsSingle s h i = ground arith

  cleaned-IsSingle :
      (s : System) → IsSingle s → IsSingle (after (cleanup s.stream) s.streams s.timers)
  unfolding cleanup
  cleaned-IsSingle s i = ground arith

  Step-IsSingle : {s t : System} → IsSingle s → Step parse_date cid s t → IsSingle t
  Step-IsSingle {s} i (opened h) = opened-IsSingle s i
  Step-IsSingle {s} i (framed clock f h) = framed-IsSingle s clock f i
  Step-IsSingle {s} i (failed e h) = failed-IsSingle s e h i
  Step-IsSingle {s} i (ended h) = record {
    single = omega (arith, i.single);
    known = i.known;
    cleared = i.cleared;
  }
  Step-IsSingle {s} i (fired h) = fired-IsSingle s h i
  Step-IsSingle {s} i (cleaned h) = cleaned-IsSingle s i

  -- In every state that the effect reaches, however its streams, its timer and the cleanup
  -- interleave: at most one stream or timer is there, `retryTimer` is set exactly while a timer
  -- is, and once the effect is cleaned up there is no timer.
  pub Reach-IsSingle : {s : System} → Reach parse_date cid s → IsSingle s
  Reach-IsSingle start = start-IsSingle (some cid)
  Reach-IsSingle (next r st) = Step-IsSingle (Reach-IsSingle r) st
