-- ===== src/MemberList.antt =====
-- artifacts/agentmail-ui/src/components/MemberList.tsx: the members in groups by status, and what
-- the rows show. `show` is `String` on a number and `to_iso` is `toISOString` on a valid date.
use mathlib.Core.Option
use agentchat_take_home.Base.{
  ℕ, Text, codes, Bool, true, false, List, [], ◌∷◌, ◌++◌, Option, none, some, ◌==◌, text_eq, nat_eq,
  map, take, length, select, any,
}
use agentchat_take_home.Strings.{replace}
use agentchat_take_home.Sort.{sort, by}
use agentchat_take_home.Types.Ui.{
  Agent, AgentStatus, online, idle, offline, streaming, Conversation, Date,
}
pub mod Groups

-- `STATUS_ORDER.indexOf`, on the order that has every status.
abbrev pub status_order : AgentStatus → ℕ
status_order streaming = 0
status_order online = 1
status_order idle = 2
status_order offline = 3

abbrev pub is_member : Conversation → Agent → Bool
is_member c a = any (λ id. id == a.id) c.member_ids

unfoldable pub members : Conversation → List Agent → List Agent
members c agents = sort (by (λ a. status_order a.status)) (select (is_member c) agents)

abbrev pub has_status : AgentStatus → Agent → Bool
has_status s a = status_order a.status == status_order s

-- `AgentRow`: the classes that depend on the status.
pub record AgentRow : Type 0 where
  pub agent : Agent
  pub box : Text
  pub avatar_color : Text
  pub status_color : Text
  pub pulses : Bool
  pub name_color : Text
  pub model_color : Text

abbrev pub status_color : AgentStatus → Text
status_color online = codes "bg-online"
status_color streaming = codes "bg-streaming"
status_color idle = codes "bg-idle"
status_color offline = codes "bg-offline"

abbrev box : AgentStatus → Text
box offline = codes "bg-muted/40 border-border/50"
box streaming = codes "bg-streaming/10 border-streaming/30"
box _ = codes "bg-muted border-border"

abbrev avatar_color : AgentStatus → Text
avatar_color offline = codes "text-muted-foreground/40"
avatar_color streaming = codes "text-streaming"
avatar_color _ = codes "text-muted-foreground"

abbrev name_color : AgentStatus → Text
name_color offline = codes "text-muted-foreground/40"
name_color _ = codes "text-foreground/80"

abbrev model_color : AgentStatus → Text
model_color offline = codes "text-muted-foreground/25"
model_color _ = codes "text-muted-foreground/50"

abbrev pub agent_row : Agent → AgentRow
agent_row a = record {
  agent = a;
  box = box a.status;
  avatar_color = avatar_color a.status;
  status_color = status_color a.status;
  pulses = has_status streaming a;
  name_color = name_color a.status;
  model_color = model_color a.status;
}

-- `StatusGroup`; its count is the number of its rows.
pub record StatusGroup : Type 0 where
  pub label : Text
  pub color : Text
  pub rows : List AgentRow

-- A group that is empty is not drawn.
abbrev pub status_group : Text → Text → List Agent → List StatusGroup
status_group label color [] = []
status_group label color (a ∷ ms) =
    (record { label = label; color = color; rows = map agent_row (a ∷ ms) }) ∷ []

abbrev pub status_groups : List Agent → List StatusGroup
status_groups ms =
    status_group (codes "Streaming") (codes "text-streaming") (select (has_status streaming) ms)
    ++ (status_group (codes "Online") (codes "text-online") (select (has_status online) ms)
        ++ (status_group (codes "Idle") (codes "text-idle") (select (has_status idle) ms)
            ++ status_group (codes "Offline") (codes "text-offline")
                (select (has_status offline) ms)))

pub record MemberListView : Type 0 where
  pub count : ℕ
  pub groups : List StatusGroup
  pub meta : List (Text × Text)

module _ (show : ℕ → Text) (to_iso : ℕ → Text) where
  abbrev meta_rows : Conversation → ℕ → ℕ → List (Text × Text)
  meta_rows c count created =
      (codes "id", replace (codes "conv-") (codes "conv_") c.id)
      ∷ (codes "msgs", show c.message_count)
      ∷ (codes "members", show count)
      ∷ (codes "created", take 10 (to_iso created))
      ∷ []

  abbrev view : Conversation → List Agent → ℕ → MemberListView
  view c ms created = record {
    count = length ms;
    groups = status_groups ms;
    meta = meta_rows c (length ms) created;
  }

  -- `toISOString` throws on an invalid date, and the rendering with it: none.
  unfoldable pub member_list : Conversation → List Agent → Option MemberListView
  member_list c agents = Option.map (view c (members c agents)) c.created_at
