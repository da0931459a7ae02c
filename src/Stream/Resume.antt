-- ===== src/Stream/Resume.antt =====
-- Connections that fail and streams that resume: what the hook has handled after all of them. The
-- server of the stream is a parameter in the form of its log: the connection that resumes behind
-- a number delivers the frames with a greater number, in the order of the log.
pub mod Hear
pub mod Bytes
use agentchat_take_home.Base.{
  ℕ, zero, suc, ◌+◌, ◌≤◌, ◌<◌, Text, Bool, true, false, List, [], ◌∷◌, ◌++◌, Option, none, some,
  ◌≡◌, refl, sym, subst, ap, ap₂, ◌∙◌, arith, All, take, drop, if◌then◌else◌, ltb, leb, Bool-cases,
  inl, inr,
}
use agentchat_take_home.Types.Ui.{Date}
use agentchat_take_home.Sse.Open.{Failure, StreamOpts}
use agentchat_take_home.Stream.Calm.{calm, run-calm}
use agentchat_take_home.Stream.Membership.{run-cancelled}
use agentchat_take_home.Stream.Retry.{
  fire, resume, reconnected, stopped, on_error_retry, on_error_stop, last_number, run-last_seq,
  run-retry_count, on_open_live,
}
use agentchat_take_home.Stream.{
  Stream, Frame, Clock, Effect, open_stream, reset, on_open, on_error, connect, run_effect, run,
  max_retries,
}

-- A connection: it is refused, or it opens and delivers a number of frames, and then it fails.
pub data Visit : Type 0 where
  refused : Failure → Visit
  served : ℕ → Failure → Visit

-- A log whose numbers grow.
abbrev pub IsLog : List (Clock × Frame) → Type 0
IsLog [] = Unit
IsLog ((clock, f) ∷ log) = All (λ (x : Clock × Frame). f.seq < x.1.seq) log × IsLog log

abbrev keep : Bool → Clock × Frame → List (Clock × Frame) → List (Clock × Frame)
keep true x xs = x ∷ xs
keep false x xs = xs

-- What a server delivers to a client that names the last number that it has seen.
abbrev pub behind : Option ℕ → List (Clock × Frame) → List (Clock × Frame)
behind none log = log
behind (some n) [] = []
behind (some n) ((clock, f) ∷ log) = keep (ltb n f.seq) (clock, f) (behind (some n) log)

behind_whole :
    (n : ℕ) (log : List (Clock × Frame))
    → All (λ (x : Clock × Frame). n < x.1.seq) log
    → behind (some n) log ≡ log
behind_whole n [] h = refl
behind_whole n ((clock, f) ∷ log) (p, h) =
    let later : ltb n f.seq ≡ true = ground arith in
    ap (λ b. keep b (clock, f) (behind (some n) log)) later
    ∙ ap (◌∷◌ (clock, f)) (behind_whole n log h)

-- The last number of a part of a log that begins behind `m`.
last_number-take :
    (n m : ℕ) (log : List (Clock × Frame))
    → All (λ (x : Clock × Frame). m < x.1.seq) log
    → IsLog log
    → (k : ℕ) × (last_number (take n log) (some m) ≡ some k) × (m ≤ k)
last_number-take zero m log h l = (m, refl, omega arith)
last_number-take (suc n) m [] h l = (m, refl, omega arith)
last_number-take (suc n) m ((clock, f) ∷ log) (p, h) (q, l) =
    let (k, e, le) = last_number-take n f.seq log q l in (k, e, omega arith)

behind-last_number :
    (n : ℕ) (old : Option ℕ) (log : List (Clock × Frame))
    → IsLog log
    → behind old log ≡ log
    → behind (last_number (take n log) old) log ≡ drop n log
behind-last_number zero old log l h = h
behind-last_number (suc n) none [] l h = refl
behind-last_number (suc n) (some m) [] l h = refl
behind-last_number (suc n) old ((clock, f) ∷ log) (q, l) h =
    let (k, e, le) = last_number-take n f.seq log q l in
    let seen_before : ltb k f.seq ≡ false = ground arith in
    ap (λ o. behind o ((clock, f) ∷ log)) e
    ∙ ap (λ b. keep b (clock, f) (behind (some k) log)) seen_before
    ∙ ap (λ o. behind o log) (sym e)
    ∙ behind-last_number n (some f.seq) log l (behind_whole f.seq log q)

take_eq {ℓ} : {A : Type ℓ} (m n : ℕ) (xs : List A) → m ≡ n → take m xs ≡ take n xs
take_eq m n xs h = ap (λ i. take i xs) h

take-add {ℓ} :
    {A : Type ℓ} (n k : ℕ) (xs : List A) → take n xs ++ take k (drop n xs) ≡ take (n + k) xs
take-add zero k xs = take_eq k (0 + k) xs (omega arith)
take-add (suc n) zero [] = take_eq (suc (n + 0)) (suc n + 0) [] (omega arith)
take-add (suc n) (suc k) [] = take_eq (suc (n + suc k)) (suc n + suc k) [] (omega arith)
take-add (suc n) k (x ∷ xs) =
    ap (◌∷◌ x) (take-add n k xs) ∙ take_eq (suc (n + k)) (suc n + k) (x ∷ xs) (omega arith)

-- An error, and the timer that it may set.
abbrev pub retry : Failure → Stream → Stream × List Effect
retry e s = fire (on_error e s)

-- How many frames the connections deliver in all, of a log that is long enough: a connection that
-- opens sets the count of errors back, and the sixth error in a row opens nothing more.
abbrev pub budget : ℕ → List Visit → ℕ
budget errors [] = 0
budget errors (served k e ∷ visits) = k + budget 1 visits
budget errors (refused e ∷ visits) =
    let rest = budget (errors + 1) visits in if leb max_retries errors then 0 else rest

budget_full :
    (e : Failure) (visits : List Visit) (errors : ℕ)
    → leb max_retries errors ≡ true
    → budget errors (refused e ∷ visits) ≡ 0
budget_full e visits errors h = ap (λ b. if b then 0 else budget (errors + 1) visits) h

budget_more :
    (e : Failure) (visits : List Visit) (errors : ℕ)
    → leb max_retries errors ≡ false
    → budget errors (refused e ∷ visits) ≡ budget (errors + 1) visits
budget_more e visits errors h = ap (λ b. if b then 0 else budget (errors + 1) visits) h

module _ (parse_date : Text → Date) (cid : Text) where
  run-append :
      (fs gs : List (Clock × Frame)) (s : Stream)
      → run parse_date cid (fs ++ gs) s ≡ run parse_date cid gs (run parse_date cid fs s)
  unfolding run
  run-append [] gs s = refl
  run-append ((clock, f) ∷ fs) gs s = run-append fs gs _

  -- One connection, and the timer behind its error.
  abbrev pub visit : List (Clock × Frame) → Visit → StreamOpts → Stream → Stream × List Effect
  visit log (refused e) opts s = fire (on_error e s)
  visit log (served k e) opts s =
      fire (on_error e (run parse_date cid (take k (behind opts.last_event_id log)) (on_open s)))

  -- Connections one after the other, each of them the one that the hook opens next.
  abbrev pub attend : List (Clock × Frame) → List Visit → Stream × List Effect → Stream
  attend log (v ∷ visits) (s, open_stream opts ∷ fx) = attend log visits (visit log v opts s)
  attend log visits (s, fx) = s

  attend_stopped :
      (log : List (Clock × Frame)) (visits : List Visit) (s : Stream)
      → attend log visits (s, []) ≡ s
  attend_stopped log [] s = refl
  attend_stopped log (v ∷ visits) s = refl

  -- What the state holds after some connections is what `run` gives for the first `n` frames.
  abbrev pub Handled : List (Clock × Frame) → ℕ → Stream → Type 0
  Handled log n s = calm s ≡ run parse_date cid (take n log) reset

  Handled-last_seq :
      (log : List (Clock × Frame)) (n : ℕ) (s : Stream)
      → Handled log n s
      → s.last_seq ≡ last_number (take n log) none
  Handled-last_seq log n s h =
      ap (λ (t : Stream). t.last_seq) h ∙ run-last_seq parse_date cid (take n log) reset refl

  pub served-Handled :
      (log : List (Clock × Frame)) (n k : ℕ) (s : Stream)
      → IsLog log
      → s.cancelled ≡ false
      → Handled log n s
      → Handled log (n + k) (run parse_date cid (take k (behind s.last_seq log)) (on_open s))
  served-Handled log n k s l live h =
      let rest : behind s.last_seq log ≡ drop n log =
        ap (λ o. behind o log) (Handled-last_seq log n s h)
        ∙ behind-last_number n none log l refl in
      run-calm parse_date cid (take k (behind s.last_seq log)) (on_open s)
      ∙ ap₂ (λ fs (t : Stream). run parse_date cid (take k fs) t) rest
          (ap calm (on_open_live parse_date cid s live) ∙ h)
      ∙ sym (run-append (take n log) (take k (drop n log)) reset)
      ∙ ap (λ fs. run parse_date cid fs reset) (take-add n k log)

  pub Handled-eq :
      (log : List (Clock × Frame)) (m n : ℕ) (s : Stream)
      → Handled log m s
      → m ≡ n
      → Handled log n s
  Handled-eq log m n s h e = subst (λ i. Handled log i s) e h

  attend-Handled :
      (log : List (Clock × Frame)) (visits : List Visit) (n : ℕ) (s : Stream)
      → IsLog log
      → s.cancelled ≡ false
      → Handled log n s
      → Handled log
          (n + budget s.retry_count visits)
          (attend log visits (s, resume s.last_seq ∷ []))
  attend-Handled log [] n s l live h = Handled-eq log n (n + 0) s h (omega arith)
  attend-Handled log (served k e ∷ visits) n s l live h =
      let t = run parse_date cid (take k (behind s.last_seq log)) (on_open s) in
      let handled = served-Handled log n k s l live h in
      let calm_count : t.retry_count ≡ 0 =
        run-retry_count parse_date cid (take k (behind s.last_seq log)) (on_open s)
        ∙ ap (λ (u : Stream). u.retry_count) (on_open_live parse_date cid s live) in
      let live_t : t.cancelled ≡ false =
        run-cancelled parse_date cid (take k (behind s.last_seq log)) (on_open s)
        ∙ ap (λ (u : Stream). u.cancelled) (on_open_live parse_date cid s live)
        ∙ live in
      let same : budget (t.retry_count + 1) visits ≡ budget 1 visits =
        ap (λ c. budget (c + 1) visits) calm_count in
      subst (λ r. Handled log (n + (k + budget 1 visits)) (attend log visits r))
        (sym (on_error_retry e t live_t (omega (arith, calm_count))))
        (Handled-eq log (n + k + budget (t.retry_count + 1) visits) _
          (attend log visits (reconnected e t, resume t.last_seq ∷ []))
          (attend-Handled log visits (n + k) (reconnected e t) l live_t handled)
          (omega (arith, same)))
  attend-Handled log (refused e ∷ visits) n s l live h =
      elim (Bool-cases (leb max_retries s.retry_count)) [
        | inl full ↦
            subst
              (λ r.
                Handled log (n + budget s.retry_count (refused e ∷ visits)) (attend log visits r))
              (sym (on_error_stop e s live (ground arith)))
              (subst (Handled log _) (sym (attend_stopped log visits (stopped e s))) (
                Handled-eq log n _ (stopped e s) h
                  (omega (arith, budget_full e visits s.retry_count full))))
        | inr more ↦
            subst
              (λ r.
                Handled log (n + budget s.retry_count (refused e ∷ visits)) (attend log visits r))
              (sym (on_error_retry e s live (ground arith)))
              (Handled-eq log _ _ (attend log visits (reconnected e s, resume s.last_seq ∷ []))
                (attend-Handled log visits n (reconnected e s) l live h)
                (omega (arith, budget_more e visits s.retry_count more)))
      ]

  -- The effect of a conversation that is not the empty text, on a log whose numbers grow: a
  -- first connection and those that the hook opens behind errors, each of them refused, or failing
  -- behind some frames. Apart from the fields of the connection, the state is then the one that
  -- handles the first frames of the log over a single connection: each of them once and in their
  -- order. There are as many as the connections deliver in all, where no connection counts behind
  -- the sixth one in a row that is refused (or the fifth, if the one before them has opened).
  pub attend-run :
      (log : List (Clock × Frame)) (visits : List Visit) (c : ℕ) (name : Text)
      → IsLog log
      → calm (attend log visits (run_effect (some (c ∷ name))))
        ≡ run parse_date cid (take (budget 0 visits) log) reset
  unfolding run_effect connect run
  attend-run log visits c name l =
      attend-Handled log visits 0 (record reset { controller = true }) l refl refl
      ∙ ap (λ fs. run parse_date cid fs reset)
          (take_eq (0 + budget 0 visits) (budget 0 visits) log (omega arith))
