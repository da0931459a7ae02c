-- ===== src/Stream/Calm.antt =====
-- The state of the hook apart from the connection.
use agentchat_take_home.Base.{
  ℕ, Text, Bool, true, false, List, [], ◌∷◌, Option, none, some, ◌≡◌, refl, sym, ap, ◌∙◌,
  Bool-cases, inl, inr, leb, if-both,
}
use agentchat_take_home.Types.Payload.{Payload, started, appended, ended, aborted, joined, left}
use agentchat_take_home.Types.Ui.{Date, Message}
use agentchat_take_home.Sse.Open.{Failure}
use agentchat_take_home.Stream.Cleanup.{on_frame_dead}
use agentchat_take_home.Stream.Kept.{seen, on_frame-handle}
use agentchat_take_home.Stream.{
  Stream, Frame, Clock, flush, put, close, membership, flush_system, handle, on_frame, on_open,
  on_error, run, max_retries, Effect,
}

-- The state without the fields that belong to the connection.
abbrev pub calm : Stream → Stream
calm s = record s {
  connected = false;
  error = none;
  retry_count = 0;
  retry_timer = false;
  controller = false;
}

pub on_open-calm : (s : Stream) → calm (on_open s) ≡ calm s
unfolding on_open
on_open-calm s = if-both (λ (t : Stream). calm t ≡ calm s) s.cancelled (λ _. refl) (λ _. refl)

pub on_error-calm : (e : Failure) (s : Stream) → calm (on_error e s).0 ≡ calm s
unfolding on_error
on_error-calm e s =
    if-both (λ (r : Stream × List Effect). calm r.0 ≡ calm s) s.cancelled (λ _. refl)
      (λ _.
        if-both (λ (r : Stream × List Effect). calm r.0 ≡ calm s) (leb max_retries s.retry_count)
          (λ _. refl) (λ _. refl))

module _ (parse_date : Text → Date) (cid : Text) where
  put-calm :
      (k : Text) (m : Message) (s : Stream)
      → calm (put parse_date cid k m s) ≡ put parse_date cid k m (calm s)
  unfolding flush
  put-calm k m s = refl

  close-calm :
      (complete : Bool) (k : Text) (o : Option Message) (s : Stream)
      → calm (close parse_date cid complete k o s) ≡ close parse_date cid complete k o (calm s)
  close-calm complete k none s = refl
  close-calm complete k (some m) s = put-calm k _ s

  handle-calm :
      (clock : Clock) (seq : ℕ) (p : Payload) (s : Stream)
      → calm (handle parse_date cid clock seq p s) ≡ handle parse_date cid clock seq p (calm s)
  unfolding handle membership flush_system
  handle-calm clock seq (started p) s = put-calm _ _ s
  handle-calm clock seq (appended p) s = put-calm _ _ s
  handle-calm clock seq (ended p) s = close-calm true _ _ s
  handle-calm clock seq (aborted p) s = close-calm false _ _ s
  handle-calm clock seq (joined p) s = refl
  handle-calm clock seq (left p) s = refl

  pub on_frame-calm :
      (clock : Clock) (f : Frame) (s : Stream)
      → calm (on_frame parse_date cid clock f s) ≡ on_frame parse_date cid clock f (calm s)
  on_frame-calm clock f s = elim (Bool-cases s.cancelled) [
    | inl off ↦
        ap calm (on_frame_dead parse_date cid clock f s off)
        ∙ sym (on_frame_dead parse_date cid clock f (calm s) off)
    | inr live ↦
        ap calm (on_frame-handle parse_date cid clock f s live)
        ∙ handle-calm clock f.seq f.payload (seen f.seq s)
        ∙ sym (on_frame-handle parse_date cid clock f (calm s) live)
  ]

  pub run-calm :
      (fs : List (Clock × Frame)) (s : Stream)
      → calm (run parse_date cid fs s) ≡ run parse_date cid fs (calm s)
  unfolding run
  run-calm [] s = refl
  run-calm ((clock, f) ∷ fs) s =
      run-calm fs _ ∙ ap (run parse_date cid fs) (on_frame-calm clock f s)
