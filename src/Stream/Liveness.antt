-- ===== src/Stream/Liveness.antt =====
-- The signal that drives toasts: it reacts to live membership changes and not to old ones that a
-- stream delivers when it catches up.
use agentchat_take_home.Base.{
  ℕ, ◌+◌, ◌≤◌, ◌<◌, Text, Bool, true, false, List, [], ◌∷◌, Option, none, some, ◌≡◌, refl, ap, ◌∙◌,
  arith, All, if◌then◌else◌,
}
use agentchat_take_home.Types.Event.{MembershipPayload}
use agentchat_take_home.Types.Payload.{Payload, started, appended, ended, aborted, joined, left}
use agentchat_take_home.Types.Ui.{Date, Message, MembershipKind}
use agentchat_take_home.Stream.Kept.{on_frame-handle, on_frame-Kept, seen}
use agentchat_take_home.Stream.Membership.{membership_frame, on_frame-membership, run-cancelled}
use agentchat_take_home.Stream.{
  Stream, Frame, Clock, flush, flush_system, put, close, is_live, membership, handle, on_frame, run,
  live_membership_window_ms,
}

-- The server's time of a change is not valid, or lies five seconds or more before the clock.
abbrev pub IsOld : Date → ℕ → Type 0
IsOld none now = Unit
IsOld (some at) now = at + live_membership_window_ms ≤ now

abbrev pub IsRecent : Date → ℕ → Type 0
IsRecent none now = ⊥
IsRecent (some at) now = now < at + live_membership_window_ms

module _ (parse_date : Text → Date) (cid : Text) where
  -- Frames of messages, and membership changes that are old when they arrive.
  abbrev pub IsHistorical : Clock × Frame → Type 0
  IsHistorical (clock, f) = elim f.payload [
    | joined p ↦ IsOld (parse_date p.timestamp) clock.compared_at
    | left p ↦ IsOld (parse_date p.timestamp) clock.compared_at
    | _ ↦ Unit
  ]

  is_live_old : (d : Date) (now : ℕ) → IsOld d now → is_live parse_date cid d now ≡ false
  is_live_old none now h = refl
  is_live_old (some at) now h = ground arith

  is_live_recent : (d : Date) (now : ℕ) → IsRecent d now → is_live parse_date cid d now ≡ true
  is_live_recent none now h = absurd h
  is_live_recent (some at) now h = ground arith

  put-last_live :
      (k : Text) (m : Message) (s : Stream)
      → (put parse_date cid k m s).last_live_membership_change_at ≡ s.last_live_membership_change_at
  unfolding flush
  put-last_live k m s = refl

  close-last_live :
      (complete : Bool) (k : Text) (o : Option Message) (s : Stream)
      → (close parse_date cid complete k o s).last_live_membership_change_at
        ≡ s.last_live_membership_change_at
  close-last_live complete k none s = refl
  close-last_live complete k (some m) s = put-last_live k _ s

  membership-last_live :
      (clock : Clock) (seq : ℕ) (kind : MembershipKind) (p : MembershipPayload) (s : Stream)
      → (membership parse_date cid clock seq kind p s).last_live_membership_change_at ≡ (
          if is_live parse_date cid (parse_date p.timestamp) clock.compared_at
          then clock.live_at
          else s.last_live_membership_change_at)
  unfolding membership flush_system
  membership-last_live clock seq kind p s = refl

  membership_old :
      (clock : Clock) (seq : ℕ) (kind : MembershipKind) (p : MembershipPayload) (s : Stream)
      → IsOld (parse_date p.timestamp) clock.compared_at
      → (membership parse_date cid clock seq kind p s).last_live_membership_change_at
        ≡ s.last_live_membership_change_at
  membership_old clock seq kind p s h =
      membership-last_live clock seq kind p s
      ∙ ap (λ b. if b then clock.live_at else s.last_live_membership_change_at)
          (is_live_old (parse_date p.timestamp) clock.compared_at h)

  handle_old :
      (clock : Clock) (seq : ℕ) (p : Payload) (s : Stream)
      → IsHistorical (clock, record { seq = seq; payload = p })
      → (handle parse_date cid clock seq p s).last_live_membership_change_at
        ≡ s.last_live_membership_change_at
  unfolding handle
  handle_old clock seq (started p) s h = put-last_live _ _ s
  handle_old clock seq (appended p) s h = put-last_live _ _ s
  handle_old clock seq (ended p) s h = close-last_live true _ _ s
  handle_old clock seq (aborted p) s h = close-last_live false _ _ s
  handle_old clock seq (joined p) s h = membership_old clock seq _ p s h
  handle_old clock seq (left p) s h = membership_old clock seq _ p s h

  run_old :
      (fs : List (Clock × Frame)) (s : Stream)
      → s.cancelled ≡ false
      → All IsHistorical fs
      → (run parse_date cid fs s).last_live_membership_change_at ≡ s.last_live_membership_change_at
  unfolding run
  run_old [] s live h = refl
  run_old ((clock, f) ∷ fs) s live (p, h) =
      run_old fs _ ((on_frame-Kept parse_date cid clock f s).cancelled ∙ live) h
      ∙ ap (λ (t : Stream). t.last_live_membership_change_at)
          (on_frame-handle parse_date cid clock f s live)
      ∙ handle_old clock f.seq f.payload (seen f.seq s) p

  -- While the effect is not cleaned up, any frames whose membership changes are all old leave the
  -- live signal as it was; a recent change behind them sets it to the clock.
  pub run_historical :
      (fs : List (Clock × Frame)) (s : Stream) (clock : Clock) (seq : ℕ) (kind : MembershipKind)
      (p : MembershipPayload)
      → s.cancelled ≡ false
      → All IsHistorical fs
      → IsRecent (parse_date p.timestamp) clock.compared_at
      → ((run parse_date cid fs s).last_live_membership_change_at
          ≡ s.last_live_membership_change_at)
        × ((on_frame parse_date cid clock
              (membership_frame seq kind p)
              (run parse_date cid fs s)).last_live_membership_change_at
            ≡ clock.live_at)
  run_historical fs s clock seq kind p live h recent =
      let t = run parse_date cid fs s in
      (
        run_old fs s live h,
        ap (λ (u : Stream). u.last_live_membership_change_at)
              (on_frame-membership parse_date cid clock seq kind p t
                (run-cancelled parse_date cid fs s ∙ live))
            ∙ membership-last_live clock seq kind p (seen seq t)
            ∙ ap (λ b. if b then clock.live_at else t.last_live_membership_change_at)
                (is_live_recent (parse_date p.timestamp) clock.compared_at recent),
      )
