-- ===== src/Stream/Assembly.antt =====
-- A message that is streamed token by token, and the same message as a row of the history.
use agentchat_take_home.Base.{
  ℕ, Text, Bool, false, List, [], ◌∷◌, ◌++◌, append-nil, append_assoc, map, Option, some, ◌≡◌, refl,
  sym, ap, ◌∙◌, arith, inl, inr, ◌==◌, ==_refl, text_eq, if◌then◌else◌, Bool-cases, select,
  select_in, select_out,
}
use agentchat_take_home.JsMap
use agentchat_take_home.Types.Event.{}
use agentchat_take_home.Types.Payload.{Payload, started, appended, ended, aborted, joined, left}
use agentchat_take_home.Types.Wire.{
  HistoryMessage, HistoryMessageStatus, complete as completed, aborted as cut_short,
}
use agentchat_take_home.Types.Ui.{Date, Message}
use agentchat_take_home.Types.Adapters.{to_ui_message}
use agentchat_take_home.Stream.Projection.{message_step, message_steps, run-steps}
use agentchat_take_home.Stream.{Stream, Frame, Clock, new_message, run}

-- A frame carries the id of a message.
abbrev pub names : Text → Clock × Frame → Bool
names id (clock, f) = elim f.payload [
  | started p ↦ p.message_id == id
  | appended p ↦ p.message_id == id
  | ended p ↦ p.message_id == id
  | aborted p ↦ p.message_id == id
  | joined p ↦ false
  | left p ↦ false
]

-- One token, with the number and the time of its frame.
pub record Token : Type 0 where
  pub clock : Clock
  pub seq : ℕ
  pub content : Text
  pub timestamp : Text

abbrev pub contents : List Token → Text
contents [] = []
contents (t ∷ ts) = t.content ++ contents ts

abbrev pub token_frame : Text → Token → Clock × Frame
token_frame id t = (
  t.clock,
  record {
    seq = t.seq;
    payload = appended (record { message_id = id; content = t.content; timestamp = t.timestamp });
  },
)

-- The frame that ends a message: `message_end`, or `message_abort` with a reason.
pub data Ending : Type 0 where
  finished : Text → Ending
  truncated : Text → Text → Ending

abbrev pub ending_payload : Text → Ending → Payload
ending_payload id (finished at) = ended (record { message_id = id; timestamp = at })
ending_payload id (truncated reason at) =
    aborted (record { message_id = id; reason = reason; timestamp = at })

abbrev pub status_of : Ending → HistoryMessageStatus
status_of (finished at) = completed
status_of (truncated reason at) = cut_short

-- The frames of one message, with its sender.
abbrev pub message_frames :
    Text → Text → Text → Clock → ℕ → List Token → Clock → ℕ → Ending → List (Clock × Frame)
message_frames id sender at c n tokens c' n' ending =
    (
      c,
      record {
        seq = n;
        payload = started (record { message_id = id; sender_id = sender; timestamp = at });
      },
    )
    ∷ (map (token_frame id) tokens
        ++ (c', record { seq = n'; payload = ending_payload id ending }) ∷ [])

-- The row of the history for a message that has ended.
abbrev pub row : Text → Text → Text → ℕ → ℕ → Ending → HistoryMessage
row id sender content n n' ending = record {
  message_id = id;
  sender_id = sender;
  content = content;
  seq_start = n;
  seq_end = n';
  status = status_of ending;
}

module _ (parse_date : Text → Date) (cid : Text) where
  message_step_other :
      (id : Text) (clock : Clock) (f : Frame) (m : Option Message)
      → names id (clock, f) ≡ false
      → message_step parse_date cid id f m ≡ m
  message_step_other id clock f m h = ground arith

  -- Only the frames that carry the id count.
  message_steps-select :
      (id : Text) (fs : List (Clock × Frame)) (m : Option Message)
      → message_steps parse_date cid id fs m
        ≡ message_steps parse_date cid id (select (names id) fs) m
  message_steps-select id [] m = refl
  message_steps-select id ((clock, f) ∷ fs) m = elim (Bool-cases (names id (clock, f))) [
    | inl named ↦
        message_steps-select id fs _
        ∙ ap (λ l. message_steps parse_date cid id l m)
            (sym (select_in (names id) (clock, f) fs named))
    | inr other ↦
        ap (message_steps parse_date cid id fs) (message_step_other id clock f m other)
        ∙ message_steps-select id fs m
        ∙ ap (λ l. message_steps parse_date cid id l m)
            (sym (select_out (names id) (clock, f) fs other))
  ]

  message_step_token :
      (id : Text) (t : Token) (m : Message)
      → message_step parse_date cid id (token_frame id t).1 (some m)
        ≡ some (record m { content = m.content ++ t.content })
  message_step_token id t m = rw (==_refl id)

  message_steps_tokens :
      (id : Text) (tokens : List Token) (fs : List (Clock × Frame)) (m : Message)
      → message_steps parse_date cid id (map (token_frame id) tokens ++ fs) (some m)
        ≡ message_steps parse_date cid id fs
            (some (record m { content = m.content ++ contents tokens }))
  message_steps_tokens id [] fs m = rw append-nil
  message_steps_tokens id (t ∷ ts) fs m =
      ap (message_steps parse_date cid id (map (token_frame id) ts ++ fs))
        (message_step_token id t m)
      ∙ message_steps_tokens id ts fs (record m { content = m.content ++ t.content })
      ∙ ap (λ c. message_steps parse_date cid id fs (some (record m { content = c })))
          (append_assoc m.content t.content (contents ts))

  message_step_ending :
      (id sender at content : Text) (n n' : ℕ) (e : Ending) (now : Date)
      → message_step parse_date cid id
          (record { seq = n'; payload = ending_payload id e })
          (some (record (new_message parse_date cid n id sender [] at) { content = content }))
        ≡ some (record (to_ui_message now (row id sender content n n' e) cid) {
          timestamp = parse_date at;
        })
  unfolding to_ui_message
  message_step_ending id sender at content n n' (finished t) now = rw (==_refl id)
  message_step_ending id sender at content n n' (truncated reason t) now = rw (==_refl id)

  message_steps_whole :
      (id sender at : Text) (c : Clock) (n : ℕ) (tokens : List Token) (c' : Clock) (n' : ℕ)
      (e : Ending) (old : Option Message) (now : Date)
      → message_steps parse_date cid id (message_frames id sender at c n tokens c' n' e) old
        ≡ some (record (to_ui_message now (row id sender (contents tokens) n n' e) cid) {
          timestamp = parse_date at;
        })
  message_steps_whole id sender at c n tokens c' n' e old now =
      let last : List (Clock × Frame) =
        (c', record { seq = n'; payload = ending_payload id e }) ∷ [] in
      let new = new_message parse_date cid n id sender [] at in
      ap
        (λ b.
          message_steps parse_date cid id (map (token_frame id) tokens ++ last)
            (if b then some new else old))
        (==_refl id)
      ∙ message_steps_tokens id tokens last new
      ∙ message_step_ending id sender at (contents tokens) n n' e now

  -- Take any frames whose frames for one id are `message_start`, any tokens, and `message_end` or
  -- `message_abort`, in this order, with any frames of other messages and any membership changes
  -- between them. After them the live message with this id is what `toUIMessage` makes of the
  -- row that the history has of it (its sender, the tokens joined, the number of its first frame,
  -- and the status complete or aborted), but for the date, which is that of the first frame.
  pub run-message_frames :
      (fs : List (Clock × Frame)) (s : Stream) (id sender at : Text) (c : Clock) (n : ℕ)
      (tokens : List Token) (c' : Clock) (n' : ℕ) (e : Ending) (now : Date)
      → s.cancelled ≡ false
      → select (names id) fs ≡ message_frames id sender at c n tokens c' n' e
      → JsMap.get id (run parse_date cid fs s).messages
        ≡ some (record (to_ui_message now (row id sender (contents tokens) n n' e) cid) {
          timestamp = parse_date at;
        })
  run-message_frames fs s id sender at c n tokens c' n' e now live h =
      (run-steps parse_date cid fs s id 0 live).0
      ∙ message_steps-select id fs (JsMap.get id s.messages)
      ∙ ap (λ l. message_steps parse_date cid id l (JsMap.get id s.messages)) h
      ∙ message_steps_whole id sender at c n tokens c' n' e (JsMap.get id s.messages) now
