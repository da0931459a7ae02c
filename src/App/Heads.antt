-- ===== src/App/Heads.antt =====
-- App.tsx: the head of each conversation, when it last advanced, what was viewed of it, and the
-- badges that the sidebar shows.
use agentchat_take_home.Base.{
  ℕ, ◌-◌, Text, Bool, true, false, not, ◌&&◌, List, [], ◌∷◌, ◌++◌, Option, none, some, ◌==◌,
  text_eq, if◌then◌else◌, ltb, get_or, any,
}
use agentchat_take_home.JsMap
use agentchat_take_home.JsMap.{Map}
use agentchat_take_home.Types.Ui.{Conversation}
pub mod Track
pub mod Viewed

abbrev pub active_window_ms : ℕ
active_window_ms = 4000

-- The three refs.
pub record Heads : Type 0 where
  pub last_seen_seq : Map Text ℕ
  pub last_advance_at : Map Text ℕ
  pub viewed_seq : Map Text ℕ

abbrev pub no_heads : Heads
no_heads = record { last_seen_seq = []; last_advance_at = []; viewed_seq = [] }

abbrev pub advance : ℕ → Conversation → Heads → Heads
advance now c h = record h {
  last_seen_seq = JsMap.set c.id c.head_seq h.last_seen_seq;
  last_advance_at = JsMap.set c.id now h.last_advance_at;
}

abbrev pub first_view : Conversation → Heads → Heads
first_view c h =
    if JsMap.has c.id h.viewed_seq
    then h
    else record h { viewed_seq = JsMap.set c.id c.head_seq h.viewed_seq }

-- The body of the loop, on the number seen before; `none` is -1, below every head.
abbrev pub see_from : Option ℕ → ℕ → Conversation → Heads → Heads
see_from none now c h = first_view c (advance now c h)
see_from (some prev) now c h = if ltb prev c.head_seq then advance now c h else h

unfoldable pub see : ℕ → Conversation → Heads → Heads
see now c h = see_from (JsMap.get c.id h.last_seen_seq) now c h

-- The effect on the answer of a poll.
abbrev pub poll : ℕ → List Conversation → Heads → Heads
poll now [] h = h
poll now (c ∷ cs) h = poll now cs (see now c h)

abbrev pub view_to : Text → Option ℕ → Heads → Heads
view_to id none h = h
view_to id (some current) h = record h { viewed_seq = JsMap.set id current h.viewed_seq }

-- The effect that marks the active conversation as viewed; an empty id is falsy.
unfoldable pub view : Option Text → Heads → Heads
view none h = h
view (some []) h = h
view (some (c ∷ t)) h = view_to (c ∷ t) (JsMap.get (c ∷ t) h.last_seen_seq) h

-- `Set.prototype.add`
abbrev pub add : Text → List Text → List Text
add id ids = if any (λ i. i == id) ids then ids else ids ++ id ∷ []

abbrev pub is_active_id : Text → Option Text → Bool
is_active_id id none = false
is_active_id id (some active) = id == active

-- The tests of the loop. A subtraction that stops at 0 is below the window as well.
abbrev pub is_active : ℕ → Heads → Conversation → Bool
is_active now h c = ltb (now - get_or (JsMap.get c.id h.last_advance_at) 0) active_window_ms

abbrev pub is_unread : Option Text → Heads → Conversation → Bool
is_unread active h c =
    not (is_active_id c.id active) && ltb (get_or (JsMap.get c.id h.viewed_seq) 0) c.head_seq

abbrev pub collect : (Conversation → Bool) → List Conversation → List Text → List Text
collect p [] ids = ids
collect p (c ∷ cs) ids = collect p cs (if p c then add c.id ids else ids)

unfoldable pub active_ids : ℕ → Heads → List Conversation → List Text
active_ids now h cs = collect (is_active now h) cs []

unfoldable pub unread_ids : Option Text → Heads → List Conversation → List Text
unread_ids active h cs = collect (is_unread active h) cs []

-- What changes the refs: a poll's answer, and the other effect.
pub data HeadEvent : Type 0 where
  polled : (now : ℕ) → List Conversation → HeadEvent
  viewed : Option Text → HeadEvent

abbrev pub head_step : HeadEvent → Heads → Heads
head_step (polled now cs) h = poll now cs h
head_step (viewed active) h = view active h

abbrev pub head_steps : List HeadEvent → Heads → Heads
head_steps [] h = h
head_steps (e ∷ es) h = head_steps es (head_step e h)

-- The effect that selects a conversation, on the list that a query has loaded.
abbrev first_id : List Conversation → Option Text
first_id [] = none
first_id (c ∷ cs) = some c.id

unfoldable pub auto_select : Bool → List Conversation → Option Text → Option Text
auto_select false cs active = active
auto_select true cs none = first_id cs
auto_select true [] (some []) = some []
auto_select true (c ∷ cs) (some []) = some c.id
auto_select true cs (some (a ∷ t)) = some (a ∷ t)
