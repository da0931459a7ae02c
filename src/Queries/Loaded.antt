-- ===== src/Queries/Loaded.antt =====
-- What is shown of a conversation whose history is loaded and whose stream has sent nothing.
use agentchat_take_home.Base.{
  Text, List, [], ◌∷◌, ◌++◌, Option, none, some, ◌≡◌, ◌≢◌, refl, sym, ap, ◌∙◌, All, ==_false,
  append_assoc, append-nil, text_eq,
}
use agentchat_take_home.JsMap
use agentchat_take_home.JsMap.{Map, values}
use agentchat_take_home.JsMap.Laws.{Absent, Absent-set}
use agentchat_take_home.Sort.{sort, by}
use agentchat_take_home.Sort.Laws.{IsSorted, by-IsPreorder, sort-IsSorted, sort_of_IsSorted}
use agentchat_take_home.Types.Wire.{HistoryResponse}
use agentchat_take_home.Types.Ui.{Date, Message}
use agentchat_take_home.Stream.Feed.{set_all, merge_history_and_live}
use agentchat_take_home.Queries.{messages_query}

-- No two messages have the same id.
abbrev pub Differ : List Message → Type 0
Differ [] = Unit
Differ (m ∷ ms) = All (λ (n : Message). m.id ≢ n.id) ms × Differ ms

values-set :
    (k : Text) (v : Message) (m : Map Text Message)
    → Absent k m
    → values (JsMap.set k v m) ≡ values m ++ v ∷ []
unfolding JsMap.set
values-set k v [] a = refl
values-set k v ((i, w) ∷ m) (p, a) = rw (==_false i k p) (ap (◌∷◌ w) (values-set k v m a))

keep_others :
    (m : Message) (ms : List Message) (by_id : Map Text Message)
    → All (λ (n : Message). m.id ≢ n.id) ms
    → All (λ (n : Message). Absent n.id by_id) ms
    → All (λ (n : Message). Absent n.id (JsMap.set m.id m by_id)) ms
keep_others m [] by_id d a = tt
keep_others m (n ∷ ms) by_id (p, d) (b, a) =
    (Absent-set m.id n.id m by_id p b, keep_others m ms by_id d a)

values-set_all :
    (ms : List Message) (by_id : Map Text Message)
    → Differ ms
    → All (λ (n : Message). Absent n.id by_id) ms
    → values (set_all ms by_id) ≡ values by_id ++ ms
unfolding set_all
values-set_all [] by_id d a = sym (append-nil (values by_id))
values-set_all (m ∷ ms) by_id (p, d) (b, a) =
    values-set_all ms (JsMap.set m.id m by_id) d (keep_others m ms by_id p a)
    ∙ ap (λ l. l ++ ms) (values-set m.id m by_id b)
    ∙ append_assoc (values by_id) (m ∷ []) ms

none_yet : (ms : List Message) → All (λ (n : Message). Absent {V = Message} n.id []) ms
none_yet [] = tt
none_yet (m ∷ ms) = (tt, none_yet ms)

merge_history_and_live-nil :
    (history : List Message)
    → Differ history
    → merge_history_and_live history [] ≡ sort (by (λ (m : Message). m.seq)) history
unfolding merge_history_and_live set_all
merge_history_and_live-nil history d =
    ap (sort (by (λ (m : Message). m.seq))) (values-set_all history [] d (none_yet history))

messages_query-IsSorted :
    (now : Date) (cid : Option Text) (res : HistoryResponse)
    → IsSorted (by (λ (m : Message). m.seq)) (messages_query now cid res)
unfolding messages_query
messages_query-IsSorted now none res = tt
messages_query-IsSorted now (some []) res = tt
messages_query-IsSorted now (some (c ∷ t)) res =
    sort-IsSorted (by (λ (m : Message). m.seq)) (by-IsPreorder (λ (m : Message). m.seq)) _

-- Where no two of the loaded messages have the same id, what is shown before the stream has sent
-- a message is what `useMessages` has loaded, in the same order.
pub messages_query-shown :
    (now : Date) (cid : Option Text) (res : HistoryResponse)
    → Differ (messages_query now cid res)
    → merge_history_and_live (messages_query now cid res) [] ≡ messages_query now cid res
messages_query-shown now cid res d =
    merge_history_and_live-nil (messages_query now cid res) d
    ∙ sort_of_IsSorted (by (λ (m : Message). m.seq)) (messages_query now cid res)
        (messages_query-IsSorted now cid res)
