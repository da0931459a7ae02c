-- ===== src/Stream/Feed.antt =====
-- `mergeHistoryAndLive` and `buildFeed` of useConversationStream.ts.
use agentchat_take_home.Base.{ℕ, Text, List, [], ◌∷◌, ◌++◌, map, text_eq}
use agentchat_take_home.JsMap
use agentchat_take_home.JsMap.{Map, values}
use agentchat_take_home.Sort.{sort, by}
use agentchat_take_home.Types.Ui.{Message, SystemEvent, FeedItem, message, system}
pub mod Merge
pub mod Interleave

-- `for (const m of messages) byId.set(m.id, m)`
unfoldable pub set_all : List Message → Map Text Message → Map Text Message
set_all [] by_id = by_id
set_all (m ∷ ms) by_id = set_all ms (JsMap.set m.id m by_id)

unfoldable pub merge_history_and_live : List Message → List Message → List Message
merge_history_and_live history live =
    let by_id = set_all live (set_all history []) in sort (by (λ m. m.seq)) (values by_id)

abbrev pub item_seq : FeedItem → ℕ
item_seq (message m) = m.seq
item_seq (system e) = e.seq

unfoldable pub build_feed : List Message → List Message → List SystemEvent → List FeedItem
build_feed history live system_events =
    let messages = merge_history_and_live history live in
    sort (by item_seq) (map message messages ++ map system system_events)
