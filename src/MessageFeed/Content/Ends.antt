-- ===== src/MessageFeed/Content/Ends.antt =====
-- MessageFeed.tsx: the caret and the mark of a copy do not stay.
use agentchat_take_home.Base.{
  ℕ, zero, suc, ◌<◌, Bool, true, false, not, ◌||◌, List, [], ◌∷◌, ◌≡◌, refl, arith, Bool-cases, inl,
  inr, ltb,
}
use agentchat_take_home.MessageFeed.Content.{
  Content, mount, render, end_fade, handle_copy, expire, end_copied, show_caret, ContentEvent,
  rendered, faded, copy_clicked, copy_expired, content_step, content_steps,
}

-- While the message does not stream, the caret fades only with its timer, and the timer is not set
-- while it streams; the mark stands only with a timer that has not run.
pub record IsTimed (s : Content) : Type 0 where
  pub seen : s.prev_streaming ≡ s.is_streaming
  pub idle : s.is_streaming ≡ false → s.fading ≡ s.fade_timer
  pub streams : s.is_streaming ≡ true → s.fade_timer ≡ false
  pub marked : s.copied ≡ true → 0 < s.copy_timers

render-IsTimed : (b : Bool) (s : Content) → IsTimed s → IsTimed (render b s)
unfolding render
render-IsTimed true s t = record {
  seen = ground (arith, t);
  idle = ground (arith, t);
  streams = ground (arith, t);
  marked = ground (arith, t);
}
render-IsTimed false s t = record {
  seen = ground (arith, t);
  idle = ground (arith, t);
  streams = ground (arith, t);
  marked = ground (arith, t);
}

end_fade-IsTimed : (s : Content) → IsTimed s → IsTimed (end_fade s)
unfolding end_fade
end_fade-IsTimed s t = record {
  seen = ground (arith, t);
  idle = ground (arith, t);
  streams = ground (arith, t);
  marked = ground (arith, t);
}

expire-IsTimed : (n : ℕ) (s : Content) → IsTimed s → IsTimed (expire n s)
expire-IsTimed zero s t = t
expire-IsTimed (suc n) s t = record {
  seen = t.seen;
  idle = t.idle;
  streams = t.streams;
  marked = λ h. cc (h);
}

content_step-IsTimed : (e : ContentEvent) (s : Content) → IsTimed s → IsTimed (content_step e s)
unfolding handle_copy end_copied
content_step-IsTimed (rendered b) s t = render-IsTimed b s t
content_step-IsTimed faded s t = end_fade-IsTimed s t
content_step-IsTimed copy_clicked s t = record {
  seen = t.seen;
  idle = t.idle;
  streams = t.streams;
  marked = λ h. omega arith;
}
content_step-IsTimed copy_expired s t = expire-IsTimed s.copy_timers s t

content_steps-IsTimed :
    (es : List ContentEvent) (s : Content) → IsTimed s → IsTimed (content_steps es s)
content_steps-IsTimed [] s t = t
content_steps-IsTimed (e ∷ es) s t =
    content_steps-IsTimed es (content_step e s) (content_step-IsTimed e s t)

mount-IsTimed : (b : Bool) → IsTimed (mount b)
mount-IsTimed b = record {
  seen = refl;
  idle = λ h. refl;
  streams = λ h. refl;
  marked = λ h. cc (h);
}

caret_lem : (s : Content) → IsTimed s → show_caret s ≡ (s.is_streaming || s.fade_timer)
caret_lem s t = ground (arith, t)

marked_lem : (s : Content) → IsTimed s → (not s.copied || ltb 0 s.copy_timers) ≡ true
marked_lem s t = elim (Bool-cases s.copied) [
  | inl h ↦ rw h (ground (arith, t.marked h))
  | inr h ↦ rw h refl
]

-- Whatever happens, the caret is shown while the message streams, and otherwise exactly while the
-- timer is set that takes it away; and where the button says that the text is copied, a timer is
-- left that takes that back.
pub content_steps-timed :
    (es : List ContentEvent) (b : Bool)
    → let s = content_steps es (mount b) in
      (show_caret s ≡ (s.is_streaming || s.fade_timer))
      × ((not s.copied || ltb 0 s.copy_timers) ≡ true)
content_steps-timed es b =
    let t = content_steps-IsTimed es (mount b) (mount-IsTimed b) in
    (caret_lem (content_steps es (mount b)) t, marked_lem (content_steps es (mount b)) t)
