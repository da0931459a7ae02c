-- ===== src/Types/Event/Guard.antt =====
-- `isSSEFrame` as a guard: which values it accepts.
use agentchat_take_home.Base.{
  ℕ, Text, codes, true, ◌&&◌, Option, none, some, ◌≡◌, refl, subst, ap, ap₂, ◌∙◌, ◌↔◌, arith, ◌==◌,
  text_eq, nat_eq, text_beq, if◌then◌else◌, is_some, Bool-cases, inl, inr,
}
use agentchat_take_home.Types.Json.{
  Json, null, boolean, number, string, array, object, finite, not_finite, property,
}
use agentchat_take_home.Types.Event.{
  SseEventType, message_start, message_append, message_end, message_abort, agent_joined, agent_left,
  event_name, event_of, is_finite_number, is_event_name, is_sse_frame,
}

-- The value has the fields `seq` and `event` of an SSEFrame, with their types.
abbrev pub IsSseFrame : Json → Type 0
IsSseFrame v =
    (n : ℕ) × (e : SseEventType) × (property (codes "seq") v ≡ some (number (finite n)))
    × (property (codes "event") v ≡ some (string (event_name e)))

-- The text is the name of an event.
abbrev IsName : Text → Type 0
IsName t = (e : SseEventType) × (t ≡ event_name e)

named_or :
    (t : Text) (e : SseEventType) (rest : Option SseEventType)
    → (is_some rest ≡ true → IsName t)
    → is_some (if t == event_name e then some e else rest) ≡ true
    → IsName t
named_or t e rest k h = elim (Bool-cases (t == event_name e)) [
  | inl same ↦ (e, (text_eq.same_iff t (event_name e)).0 same)
  | inr other ↦ k (subst (λ b. is_some (if b then some e else rest) ≡ true) other h)
]

event_of-IsName : (t : Text) → is_some (event_of t) ≡ true → IsName t
unfolding event_of
event_of-IsName t = named_or t message_start _ (
    named_or t message_append _ (
      named_or t message_end _ (
        named_or t message_abort _
          (named_or t agent_joined _ (named_or t agent_left none (λ h. ground arith))))))

is_event_name-IsName :
    (o : Option Json)
    → is_event_name o ≡ true
    → (e : SseEventType) × (o ≡ some (string (event_name e)))
is_event_name-IsName (some (string t)) h =
    let (e, same) = event_of-IsName t h in (e, ap (λ u. some (string u)) same)
is_event_name-IsName (some null) h = ground arith
is_event_name-IsName (some (boolean _)) h = ground arith
is_event_name-IsName (some (number _)) h = ground arith
is_event_name-IsName (some (array _)) h = ground arith
is_event_name-IsName (some (object _)) h = ground arith
is_event_name-IsName none h = ground arith

is_finite_number-number :
    (o : Option Json) → is_finite_number o ≡ true → (n : ℕ) × (o ≡ some (number (finite n)))
is_finite_number-number (some (number (finite n))) h = (n, refl)
is_finite_number-number (some (number not_finite)) h = ground arith
is_finite_number-number (some null) h = ground arith
is_finite_number-number (some (boolean _)) h = ground arith
is_finite_number-number (some (string _)) h = ground arith
is_finite_number-number (some (array _)) h = ground arith
is_finite_number-number (some (object _)) h = ground arith
is_finite_number-number none h = ground arith

is_sse_frame_fields :
    (v : Json)
    → is_sse_frame v ≡ true
    → (is_finite_number (property (codes "seq") v) ≡ true)
      × (is_event_name (property (codes "event") v) ≡ true)
unfolding is_sse_frame
is_sse_frame_fields v h = ground arith

is_some-event_of : (e : SseEventType) → is_some (event_of (event_name e)) ≡ true
unfolding event_of text_beq
is_some-event_of message_start = refl
is_some-event_of message_append = refl
is_some-event_of message_end = refl
is_some-event_of message_abort = refl
is_some-event_of agent_joined = refl
is_some-event_of agent_left = refl

is_sse_frame_of_fields :
    (v : Json) (n : ℕ) (e : SseEventType)
    → property (codes "seq") v ≡ some (number (finite n))
    → property (codes "event") v ≡ some (string (event_name e))
    → is_sse_frame v ≡ true
unfolding is_sse_frame
is_sse_frame_of_fields (object fs) n e seq event =
    ap₂ ◌&&◌ (ap is_finite_number seq) (ap is_event_name event ∙ is_some-event_of e)
is_sse_frame_of_fields null n e seq event = ground arith
is_sse_frame_of_fields (boolean _) n e seq event = ground arith
is_sse_frame_of_fields (number _) n e seq event = ground arith
is_sse_frame_of_fields (string _) n e seq event = ground arith
is_sse_frame_of_fields (array _) n e seq event = ground arith

-- `isSSEFrame` accepts a value if and only if its field `seq` is a finite number and its field
-- `event` is the name of an event of the protocol. (It asks nothing of the payload.)
pub is_sse_frame-IsSseFrame : (v : Json) → (is_sse_frame v ≡ true) ↔ IsSseFrame v
is_sse_frame-IsSseFrame v = (
  λ h.
      let (a, b) = is_sse_frame_fields v h in
      let (n, seq) = is_finite_number-number (property (codes "seq") v) a in
      let (e, event) = is_event_name-IsName (property (codes "event") v) b in (n, e, seq, event),
  λ (n, e, seq, event). is_sse_frame_of_fields v n e seq event,
)
