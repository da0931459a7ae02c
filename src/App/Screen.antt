-- ===== src/App/Screen.antt =====
-- App.tsx: what the root component renders of its states and queries: the sidebar, the toasts, and
-- the header, the feed and the members of the active conversation, or the empty state.
use agentchat_take_home.Base.{
  ℕ, ◌>>=◌, Text, Bool, true, false, List, [], ◌∷◌, Option, none, some, map, get_or, length,
}
use agentchat_take_home.Types.Ui.{Date, Agent, Message, SystemEvent, Conversation}
use agentchat_take_home.Stream.Feed.{merge_history_and_live, build_feed}
use agentchat_take_home.App.Agents.{active_conv, agents}
use agentchat_take_home.App.Toasts.{Toast}
use agentchat_take_home.ConversationSidebar.{ConvItem, conversation_sidebar}
use agentchat_take_home.ConversationHeader.{HeaderView, header}
use agentchat_take_home.MessageFeed.View.{FeedView, message_feed}
use agentchat_take_home.MemberList.{MemberListView, member_list}
pub mod Counts
pub mod Authors
pub mod Active

-- `EmptyState`; its third branch has no data.
pub data EmptyState : Type 0 where
  failed : (error : Text) → EmptyState
  loading scanning : EmptyState

unfoldable pub empty_state : Option Text → Bool → EmptyState
empty_state (some (c ∷ error)) is_loading = failed (c ∷ error)
empty_state _ true = loading
empty_state _ false = scanning

-- What the component reads: `history` and `live` are the data of `useMessages` and the messages of
-- the stream, `resident` is the data of the query for the resident agent.
pub record Inputs : Type 0 where
  pub now : ℕ
  pub conversations : List Conversation
  pub active_conv_id : Option Text
  pub active_ids : List Text
  pub unread_ids : List Text
  pub toasts : List Toast
  pub history : List Message
  pub live : List Message
  pub events : List SystemEvent
  pub resident : Option Text
  pub my_agent_id : Option Text
  pub is_loading : Bool
  pub error : Option Text

pub data Main : Type 0 where
  shown : HeaderView → FeedView → MemberListView → Main
  empty : EmptyState → Main

pub record Screen : Type 0 where
  pub sidebar : ℕ × List ConvItem
  pub toasts : List Text
  pub main : Main

abbrev pub messages_of : Inputs → List Message
messages_of i = merge_history_and_live i.history i.live

abbrev pub conversation_of : Inputs → Option Conversation
conversation_of i =
    active_conv (some i.now) i.active_conv_id i.conversations (length (messages_of i))

unfoldable pub agents_of : Inputs → Option Conversation → List Agent
agents_of i active =
    agents (some i.now) i.resident i.my_agent_id active (messages_of i) i.live i.events

module _ (show to_iso : ℕ → Text) (format_time : Date → Text) where
  -- A rendering that throws is none.
  abbrev pub main_of : Inputs → Option Conversation → Option Main
  main_of i none = some (empty (empty_state i.error i.is_loading))
  main_of i (some c) = do
    feed ←
        message_feed show to_iso format_time i.now (build_feed i.history i.live i.events)
          (agents_of i (some c))
    members ← member_list show to_iso c (agents_of i (some c))
    some (shown (header c (agents_of i (some c))) feed members)

  unfoldable pub screen : Inputs → Option Screen
  screen i = do
    main ← main_of i (conversation_of i)
    some (record {
      sidebar =
          conversation_sidebar i.conversations (get_or i.active_conv_id []) i.active_ids
            i.unread_ids;
      toasts = map (λ (t : Toast). t.text) i.toasts;
      main = main;
    })
