-- ===== src/Sse/Frame.antt =====
-- `parseFrame`: the text between two blank lines, as a frame.
pub mod Print
pub mod RoundTrip
pub mod Blocks
use agentchat_take_home.Base.{
  ℕ, suc, Text, codes, Bool, true, false, List, [], ◌∷◌, ◌++◌, Option, none, some, ◌==◌, nat_eq,
  text_eq, if◌then◌else◌, take, drop, get_or,
}
use agentchat_take_home.Types.Json.{Json, Number, finite, not_finite}
use agentchat_take_home.Types.Event.{SseEventType, SseFrame, event_of}
use agentchat_take_home.Sse.Lines.{normalize, split, join, index_of}

-- The variables of the loop.
pub record Fields : Type 0 where
  pub id : Option ℕ
  pub event : Option Text
  pub data_parts : List Text

abbrev pub no_fields : Fields
no_fields = record { id = none; event = none; data_parts = [] }

-- One leading space behind the colon is dropped.
unfoldable pub strip_space : Text → Text
strip_space [] = []
strip_space (c ∷ s) = if c == b' ' then s else c ∷ s

-- The field and the value of a line.
unfoldable pub split_field : Text → Text × Text
split_field line = elim (index_of b':' line) [
  | none ↦ (line, [])
  | some colon ↦ (take colon line, strip_space (drop (suc colon) line))
]

module _ (to_number : Text → Number) (parse_json : Text → Option Json) where
  abbrev pub set_id : Number → Fields → Fields
  set_id (finite n) f = record f { id = some n }
  set_id not_finite f = f

  -- The switch on the field.
  unfoldable pub read_field : Fields → Text → Text → Fields
  read_field f field value =
      if field == codes "id"
      then set_id (to_number value) f
      else if field == codes "event"
      then record f { event = some value }
      else if field == codes "data"
      then record f { data_parts = f.data_parts ++ value ∷ [] }
      else f

  -- The body of the loop; empty lines and comments are skipped.
  unfoldable pub read_line : Fields → Text → Fields
  read_line f [] = f
  read_line f (c ∷ s) =
      if c == b':' then f else let (field, value) = split_field (c ∷ s) in read_field f field value

  unfoldable pub read_lines : Fields → List Text → Fields
  read_lines f [] = f
  read_lines f (line ∷ lines) = read_lines (read_line f line) lines

  abbrev pub with_data : Option ℕ → SseEventType → Option Json → Option SseFrame
  with_data id event none = none
  with_data id event (some payload) =
      some (record { seq = get_or id 0; event = event; payload = payload })

  abbrev pub with_event : Option ℕ → Text → Option SseEventType → Option SseFrame
  with_event id payload none = none
  with_event id payload (some event) = with_data id event (parse_json payload)

  abbrev pub valid_event : Option Text → Option SseEventType
  valid_event none = none
  valid_event (some name) = event_of name

  -- What stands behind the loop.
  unfoldable pub finish : Option ℕ → Option Text → List Text → Option SseFrame
  finish id event [] = none
  finish id event (part ∷ parts) = with_event id (join (part ∷ parts)) (valid_event event)

  unfoldable pub parse_frame : Text → Option SseFrame
  parse_frame [] = none
  parse_frame (c ∷ s) =
      let f = read_lines no_fields (split (normalize (c ∷ s))) in finish f.id f.event f.data_parts
