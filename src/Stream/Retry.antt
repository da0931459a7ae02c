-- ===== src/Stream/Retry.antt =====
-- Reconnects: how many there are, and where the stream resumes.
use agentchat_take_home.Base.{
  ℕ, zero, suc, ◌+◌, ◌≤◌, ◌<◌, Text, true, false, List, [], ◌∷◌, ◌++◌, Option, none, some, ◌≡◌,
  refl, ap, ◌∙◌, arith, length, replicate, if◌then◌else◌,
}
use Prim.Native.Nat.{min}
use agentchat_take_home.Types.Ui.{Date}
use agentchat_take_home.Sse.Open.{Failure}
use agentchat_take_home.Stream.Kept.{on_frame-Kept, on_frame-last_seq}
use agentchat_take_home.Stream.Membership.{run-cancelled}
use agentchat_take_home.Stream.{
  Stream, Frame, Clock, Effect, open_stream, set_timer, connect, on_open, on_error, on_timer, run,
  max_retries,
}

-- The timer fires if the callback has set it.
abbrev pub fire : Stream × List Effect → Stream × List Effect
fire (s, set_timer ∷ _) = on_timer s
fire (s, fx) = (s, [])

-- Errors one after the other, each on the stream that the timer behind the one before has opened:
-- the streams that are opened.
abbrev pub reopened : List Failure → Stream → List Effect
reopened [] s = []
reopened (e ∷ es) s = (fire (on_error e s)).1 ++ reopened es (fire (on_error e s)).0

-- The request for a stream that resumes behind a number.
abbrev pub resume : Option ℕ → Effect
resume n = open_stream (record { last_event_id = n; observer = true })

abbrev pub reconnected : Failure → Stream → Stream
reconnected e s = record s {
  connected = false;
  error = some e;
  retry_count = s.retry_count + 1;
  retry_timer = false;
  controller = true;
}

abbrev pub stopped : Failure → Stream → Stream
stopped e s = record s { connected = false; error = some e }

pub on_error_retry :
    (e : Failure) (s : Stream)
    → s.cancelled ≡ false
    → s.retry_count < max_retries
    → fire (on_error e s) ≡ (reconnected e s, resume s.last_seq ∷ [])
unfolding on_error on_timer connect
on_error_retry e s live more = ground arith

pub on_error_stop :
    (e : Failure) (s : Stream)
    → s.cancelled ≡ false
    → max_retries ≤ s.retry_count
    → fire (on_error e s) ≡ (stopped e s, [])
unfolding on_error
on_error_stop e s live more = ground arith

reopened-cons :
    (e : Failure) (es : List Failure) (s t : Stream) (fx : List Effect)
    → fire (on_error e s) ≡ (t, fx)
    → reopened (e ∷ es) s ≡ fx ++ reopened es t
reopened-cons e es s t fx h = ap (λ (r : Stream × List Effect). r.1 ++ reopened es r.0) h

replicate_eq {ℓ} : {A : Type ℓ} (a : A) (m n : ℕ) → m ≡ n → replicate m a ≡ replicate n a
replicate_eq a m n h = ap (λ k. replicate k a) h

reopened-min :
    (es : List Failure) (s : Stream) (k : ℕ)
    → s.cancelled ≡ false
    → s.retry_count + k ≡ max_retries
    → reopened es s ≡ replicate (min (length es) k) (resume s.last_seq)
reopened-min [] s k live h = replicate_eq _ 0 (min 0 k) (omega arith)
reopened-min (e ∷ es) s zero live h =
    reopened-cons e es s _ _ (on_error_stop e s live (omega arith))
    ∙ reopened-min es (stopped e s) zero live h
    ∙ replicate_eq _ (min (length es) 0) (min (suc (length es)) 0) (omega arith)
reopened-min (e ∷ es) s (suc k) live h =
    reopened-cons e es s _ _ (on_error_retry e s live (omega arith))
    ∙ ap (◌∷◌ (resume s.last_seq)) (reopened-min es (reconnected e s) k live (omega arith))
    ∙ replicate_eq _ (suc (min (length es) k)) (min (suc (length es)) (suc k)) (omega arith)

-- The number of the last frame, and `old` if there is none.
abbrev pub last_number : List (Clock × Frame) → Option ℕ → Option ℕ
last_number [] old = old
last_number ((clock, f) ∷ fs) old = last_number fs (some f.seq)

module _ (parse_date : Text → Date) (cid : Text) where
  pub run-last_seq :
      (fs : List (Clock × Frame)) (s : Stream)
      → s.cancelled ≡ false
      → (run parse_date cid fs s).last_seq ≡ last_number fs s.last_seq
  unfolding run
  run-last_seq [] s live = refl
  run-last_seq ((clock, f) ∷ fs) s live =
      run-last_seq fs _ ((on_frame-Kept parse_date cid clock f s).cancelled ∙ live)
      ∙ ap (last_number fs) (on_frame-last_seq parse_date cid clock f s live)

  pub run-retry_count :
      (fs : List (Clock × Frame)) (s : Stream)
      → (run parse_date cid fs s).retry_count ≡ s.retry_count
  unfolding run
  run-retry_count [] s = refl
  run-retry_count ((clock, f) ∷ fs) s =
      run-retry_count fs _ ∙ (on_frame-Kept parse_date cid clock f s).retry_count

  pub on_open_live :
      (s : Stream)
      → s.cancelled ≡ false
      → on_open s ≡ record s { connected = true; error = none; retry_count = 0 }
  unfolding on_open
  on_open_live s live =
      ap (λ b. if b then s else record s { connected = true; error = none; retry_count = 0 }) live

  -- A stream opens and delivers some frames, and then come errors, each on the stream that the
  -- timer behind the error before has opened. For the first five errors a stream is opened, for
  -- the others none; each resumes behind the last frame that was delivered, or as before if there
  -- was none.
  pub reopened-run :
      (es : List Failure) (fs : List (Clock × Frame)) (s : Stream)
      → s.cancelled ≡ false
      → reopened es (run parse_date cid fs (on_open s))
        ≡ replicate (min (length es) max_retries) (resume (last_number fs s.last_seq))
  reopened-run es fs s live =
      let t : Stream = record s { connected = true; error = none; retry_count = 0 } in
      let u = run parse_date cid fs t in
      let count = run-retry_count fs t in
      ap (λ (x : Stream). reopened es (run parse_date cid fs x)) (on_open_live s live)
      ∙ reopened-min es u max_retries (run-cancelled parse_date cid fs t ∙ live)
          (omega (arith, count))
      ∙ ap (λ n. replicate (min (length es) max_retries) (resume n)) (run-last_seq fs t live)
