-- ===== src/MessageFeed/Content.antt =====
-- MessageFeed.tsx: the state of `MessageContent`: the caret, which stays for a while after the
-- message has stopped streaming, and the button that copies.
use agentchat_take_home.Base.{
  ℕ, zero, suc, ◌+◌, Bool, true, false, not, ◌&&◌, ◌||◌, List, [], ◌∷◌, if◌then◌else◌,
}
pub mod Ends

-- The property `isStreaming`, the ref, the states, whether the timer of the effect is set, and how
-- many timers of the button have not run.
pub record Content : Type 0 where
  pub is_streaming : Bool
  pub prev_streaming : Bool
  pub fading : Bool
  pub fade_timer : Bool
  pub copied : Bool
  pub copy_timers : ℕ

abbrev pub mount : Bool → Content
mount is_streaming = record {
  is_streaming = is_streaming;
  prev_streaming = is_streaming;
  fading = false;
  fade_timer = false;
  copied = false;
  copy_timers = 0;
}

-- The effect, behind its cleanup.
abbrev pub run_effect : Content → Content
run_effect s =
    if s.prev_streaming && not s.is_streaming
    then record s { fading = true; fade_timer = true; prev_streaming = s.is_streaming }
    else record s { prev_streaming = s.is_streaming }

-- A rendering with a property: the effect runs where the property is another.
unfoldable pub render : Bool → Content → Content
render true s =
    if s.is_streaming then s else run_effect (record s { is_streaming = true; fade_timer = false })
render false s =
    if s.is_streaming then run_effect (record s { is_streaming = false; fade_timer = false }) else s

-- The callback of the effect's timer, which runs only while it is set.
unfoldable pub end_fade : Content → Content
end_fade s = if s.fade_timer then record s { fading = false; fade_timer = false } else s

-- `handleCopy`, but for the write to the clipboard; its timers are never cleared.
unfoldable pub handle_copy : Content → Content
handle_copy s = record s { copied = true; copy_timers = s.copy_timers + 1 }

abbrev expire : ℕ → Content → Content
expire zero s = s
expire (suc n) s = record s { copied = false; copy_timers = n }

-- The callback of a timer of the button.
unfoldable pub end_copied : Content → Content
end_copied s = expire s.copy_timers s

abbrev pub show_caret : Content → Bool
show_caret s = s.is_streaming || s.fading

-- What can happen to it.
pub data ContentEvent : Type 0 where
  rendered : Bool → ContentEvent
  faded copy_clicked copy_expired : ContentEvent

abbrev pub content_step : ContentEvent → Content → Content
content_step (rendered b) s = render b s
content_step faded s = end_fade s
content_step copy_clicked s = handle_copy s
content_step copy_expired s = end_copied s

abbrev pub content_steps : List ContentEvent → Content → Content
content_steps [] s = s
content_steps (e ∷ es) s = content_steps es (content_step e s)
