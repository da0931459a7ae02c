-- ===== src/Queries.antt =====
-- artifacts/agentmail-ui/src/hooks/useMessages.ts and useConversations.ts: what the queries make of
-- the bodies. `now` is the clock, `parse_date` is Date.parse.
use agentchat_take_home.Base.{Text, codes, List, [], ◌∷◌, map, Option, none, some}
use agentchat_take_home.Sort.{sort, by}
use agentchat_take_home.Types.Wire.{HistoryMessage, HistoryResponse, ConversationSummary}
use agentchat_take_home.Types.Ui.{Date, Message, Conversation}
use agentchat_take_home.Types.Adapters.{to_ui_message, to_ui_conversation, no_opts}
pub mod Loaded

-- The keys of the queries. A key is an array of strings.
abbrev pub messages_query_key : Text → List Text
messages_query_key cid = codes "messages" ∷ cid ∷ []

abbrev messages_disabled_key : List Text
messages_disabled_key = codes "messages" ∷ codes "__disabled__" ∷ []

abbrev pub conversations_query_key : List Text
conversations_query_key = codes "conversations" ∷ []

-- The key that `useMessages` subscribes to.
abbrev pub messages_key : Option Text → List Text
messages_key none = messages_disabled_key
messages_key (some []) = messages_disabled_key
messages_key (some (c ∷ t)) = messages_query_key (c ∷ t)

-- The query of `useMessages`; an empty id is falsy.
unfoldable pub messages_query : Date → Option Text → HistoryResponse → List Message
messages_query now none res = []
messages_query now (some []) res = []
messages_query now (some (c ∷ t)) res =
    sort (by (λ (m : Message). m.seq)) (map (λ h. to_ui_message now h (c ∷ t)) res.messages)

-- The query of `useConversations`.
unfoldable pub conversations_query : (Text → Date) → List ConversationSummary → List Conversation
conversations_query parse_date conversations =
    map (λ c. to_ui_conversation parse_date c no_opts) conversations
