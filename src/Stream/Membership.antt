-- ===== src/Stream/Membership.antt =====
-- Membership changes: frames that are delivered again, and the signal for live changes.
use agentchat_take_home.Base.{
  ℕ, Text, false, List, [], ◌∷◌, Option, some, ◌≡◌, refl, sym, ap, subst, ◌∙◌, ◌≢◌, arith, All,
  ==_false, nat_eq,
}
use agentchat_take_home.JsMap
use agentchat_take_home.JsMap.{values}
use agentchat_take_home.JsMap.Laws.{set_same, get-set_self}
use agentchat_take_home.Types.Event.{MembershipPayload}
use agentchat_take_home.Types.Payload.{Payload, joined, left}
use agentchat_take_home.Types.Ui.{Date, SystemEvent, MembershipKind, agent_joined, agent_left}
use agentchat_take_home.Stream.Invariant.{IsValid, on_frame-IsValid}
use agentchat_take_home.Stream.Kept.{on_frame-handle, on_frame-Kept, seen}
use agentchat_take_home.Stream.Projection.{system_event, event_step, event_steps, run-steps}
use agentchat_take_home.Stream.{
  Stream, Frame, Clock, events_by_seq, flush_system, membership, handle, on_frame, run,
}

abbrev pub membership_payload : MembershipKind → MembershipPayload → Payload
membership_payload agent_joined p = joined p
membership_payload agent_left p = left p

abbrev pub membership_frame : ℕ → MembershipKind → MembershipPayload → Frame
membership_frame seq kind p = record { seq = seq; payload = membership_payload kind p }

-- The two states show the same feed.
pub record SameFeed (s t : Stream) : Type 0 where
  pub system_events : t.system_events ≡ s.system_events
  pub live_system_events : t.live_system_events ≡ s.live_system_events
  pub messages : t.messages ≡ s.messages
  pub live_messages : t.live_messages ≡ s.live_messages

module _ (parse_date : Text → Date) (cid : Text) where
  run-IsValid :
      (fs : List (Clock × Frame)) (s : Stream)
      → IsValid cid s
      → IsValid cid (run parse_date cid fs s)
  unfolding run
  run-IsValid [] s v = v
  run-IsValid ((clock, f) ∷ fs) s v = run-IsValid fs _ (on_frame-IsValid parse_date cid clock f s v)

  pub run-cancelled :
      (fs : List (Clock × Frame)) (s : Stream) → (run parse_date cid fs s).cancelled ≡ s.cancelled
  unfolding run
  run-cancelled [] s = refl
  run-cancelled ((clock, f) ∷ fs) s =
      run-cancelled fs _ ∙ (on_frame-Kept parse_date cid clock f s).cancelled

  handle-membership :
      (clock : Clock) (seq : ℕ) (kind : MembershipKind) (p : MembershipPayload) (s : Stream)
      → handle parse_date cid clock seq (membership_payload kind p) s
        ≡ membership parse_date cid clock seq kind p s
  unfolding handle
  handle-membership clock seq agent_joined p s = refl
  handle-membership clock seq agent_left p s = refl

  pub on_frame-membership :
      (clock : Clock) (seq : ℕ) (kind : MembershipKind) (p : MembershipPayload) (s : Stream)
      → s.cancelled ≡ false
      → on_frame parse_date cid clock (membership_frame seq kind p) s
        ≡ membership parse_date cid clock seq kind p (seen seq s)
  on_frame-membership clock seq kind p s live =
      on_frame-handle parse_date cid clock (membership_frame seq kind p) s live
      ∙ handle-membership clock seq kind p (seen seq s)

  event_step_other :
      (k : ℕ) (f : Frame) (e : Option SystemEvent) → f.seq ≢ k → event_step parse_date cid k f e ≡ e
  event_step_other k f e h = ground (arith, ==_false f.seq k h)

  event_steps_other :
      (k : ℕ) (fs : List (Clock × Frame)) (e : Option SystemEvent)
      → All (λ cf. cf.1.seq ≢ k) fs
      → event_steps parse_date cid k fs e ≡ e
  event_steps_other k [] e h = refl
  event_steps_other k ((clock, f) ∷ fs) e (p, h) =
      ap (event_steps parse_date cid k fs) (event_step_other k f e p) ∙ event_steps_other k fs e h

  recorded :
      (clock : Clock) (seq : ℕ) (kind : MembershipKind) (p : MembershipPayload) (s : Stream)
      → s.cancelled ≡ false
      → JsMap.get seq (on_frame parse_date cid clock (membership_frame seq kind p) s).system_events
        ≡ some (system_event parse_date cid kind seq p)
  unfolding membership flush_system
  recorded clock seq kind p s live =
      ap (λ (t : Stream). JsMap.get seq t.system_events)
        (on_frame-membership clock seq kind p s live)
      ∙ get-set_self seq _ s.system_events

  membership-SameFeed :
      (clock : Clock) (seq : ℕ) (kind : MembershipKind) (p : MembershipPayload) (s : Stream)
      → JsMap.get seq s.system_events ≡ some (system_event parse_date cid kind seq p)
      → s.live_system_events ≡ events_by_seq (values s.system_events)
      → SameFeed s (membership parse_date cid clock seq kind p (seen seq s))
  unfolding membership flush_system
  membership-SameFeed clock seq kind p s there published =
      let same = set_same seq (system_event parse_date cid kind seq p) s.system_events there in
      record {
        system_events = same;
        live_system_events = ap (λ m. events_by_seq (values m)) same ∙ sym published;
        messages = refl;
        live_messages = refl;
      }

  -- A membership frame that is delivered again, with the same number and payload, after any other
  -- frames with other numbers: it changes neither the recorded nor the published system events,
  -- nor the messages.
  pub replay-SameFeed :
      (seq : ℕ) (kind : MembershipKind) (p : MembershipPayload) (c c' : Clock)
      (fs : List (Clock × Frame)) (s : Stream)
      → IsValid cid s
      → s.cancelled ≡ false
      → All (λ cf. cf.1.seq ≢ seq) fs
      → SameFeed
          (run parse_date cid fs (on_frame parse_date cid c (membership_frame seq kind p) s))
          (on_frame parse_date cid c'
            (membership_frame seq kind p)
            (run parse_date cid fs (on_frame parse_date cid c (membership_frame seq kind p) s)))
  replay-SameFeed seq kind p c c' fs s v live h =
      let f = membership_frame seq kind p in
      let first = on_frame parse_date cid c f s in
      let before = run parse_date cid fs first in
      let alive : first.cancelled ≡ false = (on_frame-Kept parse_date cid c f s).cancelled ∙ live in
      let valid = run-IsValid fs first (on_frame-IsValid parse_date cid c f s v) in
      let there =
        (run-steps parse_date cid fs first [] seq alive).1
        ∙ event_steps_other seq fs _ h
        ∙ recorded c seq kind p s live in
      subst (SameFeed before)
        (sym (on_frame-membership c' seq kind p before (run-cancelled fs first ∙ alive)))
        (membership-SameFeed c' seq kind p before there valid.events_published)
