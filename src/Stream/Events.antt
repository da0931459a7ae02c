-- ===== src/Stream/Events.antt =====
-- The callbacks of the effect of useConversationStream.ts, as events, and runs of them.
use agentchat_take_home.Base.{Text, List, [], ◌∷◌}
use agentchat_take_home.Types.Ui.{Date}
use agentchat_take_home.Sse.Open.{Failure}
use agentchat_take_home.Stream.{
  Stream, Frame, Clock, on_open, on_frame, on_error, on_timer, cleanup,
}

-- What may happen to the effect of a conversation: the callbacks of its streams, in any order and
-- from any of them, the timer and the cleanup.
pub data Event : Type 0 where
  opened : Event
  framed : Clock → Frame → Event
  failed : Failure → Event
  timer cleaned : Event

module _ (parse_date : Text → Date) (cid : Text) where
  abbrev pub step : Event → Stream → Stream
  step opened s = on_open s
  step (framed clock f) s = on_frame parse_date cid clock f s
  step (failed e) s = (on_error e s).0
  step timer s = (on_timer s).0
  step cleaned s = (cleanup s).0

  abbrev pub steps : List Event → Stream → Stream
  steps [] s = s
  steps (e ∷ es) s = steps es (step e s)
