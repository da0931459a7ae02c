-- ===== src/Stream/Kept.antt =====
-- What the handler of a frame leaves alone, and that it records the frame's number.
use agentchat_take_home.Base.{
  ℕ, Text, Bool, true, false, Option, none, some, ◌≡◌, refl, ap, ◌∙◌, if◌then◌else◌, text_eq,
  if-both,
}
use agentchat_take_home.Types.Payload.{Payload, started, appended, ended, aborted, joined, left}
use agentchat_take_home.Types.Ui.{Date, Message}
use agentchat_take_home.Stream.{
  Stream, Frame, Clock, flush, flush_system, put, close, membership, handle, on_frame,
}

pub record Kept (s t : Stream) : Type 0 where
  pub cancelled : t.cancelled ≡ s.cancelled
  pub retry_count : t.retry_count ≡ s.retry_count
  pub retry_timer : t.retry_timer ≡ s.retry_timer
  pub controller : t.controller ≡ s.controller

kept :
    (s t : Stream)
    → t.cancelled ≡ s.cancelled
    → t.retry_count ≡ s.retry_count
    → t.retry_timer ≡ s.retry_timer
    → t.controller ≡ s.controller
    → Kept s t
kept s t a b c d = record { cancelled = a; retry_count = b; retry_timer = c; controller = d }

-- The state with the number of a frame recorded.
abbrev pub seen : ℕ → Stream → Stream
seen seq s = record s { last_seq = some seq; last_seen_seq = some seq }

module _ (parse_date : Text → Date) (cid : Text) where
  put-Kept : (k : Text) (m : Message) (s : Stream) → Kept s (put parse_date cid k m s)
  unfolding flush
  put-Kept k m s = kept s _ refl refl refl refl

  close-Kept :
      (complete : Bool) (k : Text) (o : Option Message) (s : Stream)
      → Kept s (close parse_date cid complete k o s)
  close-Kept complete k none s = kept s _ refl refl refl refl
  close-Kept complete k (some m) s = put-Kept k _ s

  handle-Kept :
      (clock : Clock) (seq : ℕ) (p : Payload) (s : Stream)
      → Kept s (handle parse_date cid clock seq p s)
  unfolding handle membership flush_system
  handle-Kept clock seq (started p) s = put-Kept _ _ s
  handle-Kept clock seq (appended p) s = put-Kept _ _ s
  handle-Kept clock seq (ended p) s = close-Kept true _ _ s
  handle-Kept clock seq (aborted p) s = close-Kept false _ _ s
  handle-Kept clock seq (joined p) s = kept s _ refl refl refl refl
  handle-Kept clock seq (left p) s = kept s _ refl refl refl refl

  pub on_frame-handle :
      (clock : Clock) (f : Frame) (s : Stream)
      → s.cancelled ≡ false
      → on_frame parse_date cid clock f s
        ≡ handle parse_date cid clock f.seq f.payload (seen f.seq s)
  unfolding on_frame
  on_frame-handle clock f s live =
      ap (λ b. if b then s else handle parse_date cid clock f.seq f.payload (seen f.seq s)) live

  pub on_frame-Kept :
      (clock : Clock) (f : Frame) (s : Stream) → Kept s (on_frame parse_date cid clock f s)
  unfolding on_frame
  on_frame-Kept clock f s =
      if-both (Kept s) s.cancelled (λ _. kept s _ refl refl refl refl)
        (λ _.
          let k = handle-Kept clock f.seq f.payload (seen f.seq s) in
          record {
            cancelled = k.cancelled;
            retry_count = k.retry_count;
            retry_timer = k.retry_timer;
            controller = k.controller;
          })

  put-last_seq :
      (k : Text) (m : Message) (s : Stream) → (put parse_date cid k m s).last_seq ≡ s.last_seq
  unfolding flush
  put-last_seq k m s = refl

  close-last_seq :
      (complete : Bool) (k : Text) (o : Option Message) (s : Stream)
      → (close parse_date cid complete k o s).last_seq ≡ s.last_seq
  close-last_seq complete k none s = refl
  close-last_seq complete k (some m) s = put-last_seq k _ s

  handle-last_seq :
      (clock : Clock) (seq : ℕ) (p : Payload) (s : Stream)
      → (handle parse_date cid clock seq p s).last_seq ≡ s.last_seq
  unfolding handle membership flush_system
  handle-last_seq clock seq (started p) s = put-last_seq _ _ s
  handle-last_seq clock seq (appended p) s = put-last_seq _ _ s
  handle-last_seq clock seq (ended p) s = close-last_seq true _ _ s
  handle-last_seq clock seq (aborted p) s = close-last_seq false _ _ s
  handle-last_seq clock seq (joined p) s = refl
  handle-last_seq clock seq (left p) s = refl

  pub on_frame-last_seq :
      (clock : Clock) (f : Frame) (s : Stream)
      → s.cancelled ≡ false
      → (on_frame parse_date cid clock f s).last_seq ≡ some f.seq
  on_frame-last_seq clock f s live =
      ap (λ (t : Stream). t.last_seq) (on_frame-handle clock f s live)
      ∙ handle-last_seq clock f.seq f.payload (seen f.seq s)
