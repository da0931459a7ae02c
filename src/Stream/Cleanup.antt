-- ===== src/Stream/Cleanup.antt =====
-- After the cleanup the effect does nothing any more.
use agentchat_take_home.Base.{
  ℕ, ◌-◌, ◌≤◌, Text, true, ◌≡◌, refl, sym, ap, subst, arith, if◌then◌else◌, none, some, [],
}
use agentchat_take_home.Types.Ui.{Date}
use agentchat_take_home.Sse.Open.{Failure}
use agentchat_take_home.Stream.System.{
  System, Step, opened, framed, failed, ended, fired, cleaned, after,
}
use agentchat_take_home.Stream.{
  Stream, Frame, Clock, connect, on_open, on_error, on_timer, handle, on_frame,
}

-- What the hook returns is the same, and no stream or timer is new.
pub record IsQuiet (s t : System) : Type 0 where
  pub cancelled : t.stream.cancelled ≡ true
  pub live_messages : t.stream.live_messages ≡ s.stream.live_messages
  pub live_system_events : t.stream.live_system_events ≡ s.stream.live_system_events
  pub connected : t.stream.connected ≡ s.stream.connected
  pub error : t.stream.error ≡ s.stream.error
  pub last_seen_seq : t.stream.last_seen_seq ≡ s.stream.last_seen_seq
  pub changed_at : t.stream.agent_membership_changed_at ≡ s.stream.agent_membership_changed_at
  pub live_changed_at :
      t.stream.last_live_membership_change_at ≡ s.stream.last_live_membership_change_at
  pub streams : t.streams ≤ s.streams
  pub timers : t.timers ≤ s.timers

quiet :
    (s : System) (n m : ℕ)
    → s.stream.cancelled ≡ true
    → n ≤ s.streams
    → m ≤ s.timers
    → IsQuiet s (record s { streams = n; timers = m })
quiet s n m c h k = record {
  cancelled = c;
  live_messages = refl;
  live_system_events = refl;
  connected = refl;
  error = refl;
  last_seen_seq = refl;
  changed_at = refl;
  live_changed_at = refl;
  streams = h;
  timers = k;
}

on_open_dead : (s : Stream) → s.cancelled ≡ true → on_open s ≡ s
unfolding on_open
on_open_dead s c =
    ap (λ b. if b then s else record s { connected = true; error = none; retry_count = 0 }) c

on_error_dead : (e : Failure) (s : Stream) → s.cancelled ≡ true → on_error e s ≡ (s, [])
unfolding on_error
on_error_dead e s c = ground arith

fired_dead :
    (s : System)
    → s.stream.cancelled ≡ true
    → IsQuiet s (after (on_timer s.stream) s.streams (s.timers - 1))
unfolding on_timer connect
fired_dead s c = ground arith

module _ (parse_date : Text → Date) (cid : Text) where
  pub on_frame_dead :
      (clock : Clock) (f : Frame) (s : Stream)
      → s.cancelled ≡ true
      → on_frame parse_date cid clock f s ≡ s
  unfolding on_frame
  on_frame_dead clock f s c =
      ap
        (λ b.
          if b
          then s
          else handle parse_date cid clock f.seq f.payload
              (record s { last_seq = some f.seq; last_seen_seq = some f.seq }))
        c

  -- Once the effect is cleaned up, whatever callback still runs, it is still cleaned up, what the
  -- hook returns is as it was, and no stream and no timer is started.
  pub Step-IsQuiet :
      {s t : System} → Step parse_date cid s t → s.stream.cancelled ≡ true → IsQuiet s t
  Step-IsQuiet {s} (opened h) c =
      subst (λ t. IsQuiet s (record s { stream = t })) (sym (on_open_dead s.stream c))
        (quiet s s.streams s.timers c (omega arith) (omega arith))
  Step-IsQuiet {s} (framed clock f h) c =
      subst (λ t. IsQuiet s (record s { stream = t })) (sym (on_frame_dead clock f s.stream c))
        (quiet s s.streams s.timers c (omega arith) (omega arith))
  Step-IsQuiet {s} (failed e h) c =
      subst (λ r. IsQuiet s (after r (s.streams - 1) s.timers)) (sym (on_error_dead e s.stream c))
        (quiet s (s.streams - 1) s.timers c (omega arith) (omega arith))
  Step-IsQuiet {s} (ended h) c = quiet s (s.streams - 1) s.timers c (omega arith) (omega arith)
  Step-IsQuiet {s} (fired h) c = fired_dead s c
  Step-IsQuiet {s} (cleaned h) c = absurd (ground arith)
