-- ===== src/Stream/Feed/Merge.antt =====
-- What `mergeHistoryAndLive` returns: for each id one message, live before history, in the order
-- of the sequence numbers.
use agentchat_take_home.Base.{
  Text, List, [], ◌∷◌, Option, none, some, ◌≡◌, refl, sym, ap, ◌∙◌, subst, ◌==◌, text_eq, select,
  length, ◌≤◌, if◌then◌else◌,
}
use agentchat_take_home.JsMap
use agentchat_take_home.JsMap.{Map, values}
use agentchat_take_home.JsMap.Laws.{IsDistinct, set-IsDistinct, get-set}
use agentchat_take_home.JsMap.Values.{to_list, length-to_list, IsKeyed, set-IsKeyed, select-values}
use agentchat_take_home.Sort.{by}
use agentchat_take_home.Sort.Laws.{IsSorted, by-IsPreorder, sort-IsSorted}
use agentchat_take_home.Sort.Select.{select-sort_single}
use agentchat_take_home.Types.Ui.{Message}
use agentchat_take_home.Stream.Feed.{set_all, merge_history_and_live}

-- The last message with an id, and `old` if there is none.
abbrev pub latest : Text → List Message → Option Message → Option Message
latest id [] old = old
latest id (m ∷ ms) old = latest id ms (if m.id == id then some m else old)

get-set_all :
    (id : Text) (ms : List Message) (by_id : Map Text Message)
    → JsMap.get id (set_all ms by_id) ≡ latest id ms (JsMap.get id by_id)
unfolding set_all
get-set_all id [] by_id = refl
get-set_all id (m ∷ ms) by_id =
    get-set_all id ms (JsMap.set m.id m by_id) ∙ ap (latest id ms) (get-set m.id id m by_id)

set_all-IsDistinct :
    (ms : List Message) (by_id : Map Text Message)
    → IsDistinct by_id
    → IsDistinct (set_all ms by_id)
unfolding set_all
set_all-IsDistinct [] by_id d = d
set_all-IsDistinct (m ∷ ms) by_id d =
    set_all-IsDistinct ms (JsMap.set m.id m by_id) (set-IsDistinct m.id m by_id d)

set_all-IsKeyed :
    (ms : List Message) (by_id : Map Text Message)
    → IsKeyed (λ (m : Message). m.id) by_id
    → IsKeyed (λ (m : Message). m.id) (set_all ms by_id)
unfolding set_all
set_all-IsKeyed [] by_id h = h
set_all-IsKeyed (m ∷ ms) by_id h =
    set_all-IsKeyed ms (JsMap.set m.id m by_id)
      (set-IsKeyed (λ (m : Message). m.id) m.id m by_id refl h)

pub select-merge_history_and_live :
    (history live : List Message) (id : Text)
    → select (λ m. m.id == id) (merge_history_and_live history live)
      ≡ to_list (latest id live (latest id history none))
unfolding merge_history_and_live JsMap.get
select-merge_history_and_live history live id =
    let by_id = set_all live (set_all history []) in
    let d = set_all-IsDistinct live (set_all history []) (set_all-IsDistinct history [] tt) in
    let k = set_all-IsKeyed live (set_all history []) (set_all-IsKeyed history [] tt) in
    let found =
      select-values (λ (m : Message). m.id) id by_id d k
      ∙ ap to_list (
          get-set_all id live (set_all history [])
          ∙ ap (latest id live) (get-set_all id history [])) in
    select-sort_single (by (λ (m : Message). m.seq)) (λ m. m.id == id) (values by_id)
      (subst (λ (l : List Message). length l ≤ 1) (sym found) (length-to_list _))
    ∙ found

pub merge_history_and_live-IsSorted :
    (history live : List Message)
    → IsSorted (by (λ (m : Message). m.seq)) (merge_history_and_live history live)
unfolding merge_history_and_live
merge_history_and_live-IsSorted history live =
    sort-IsSorted (by (λ (m : Message). m.seq)) (by-IsPreorder (λ m. m.seq))
      (values (set_all live (set_all history [])))

-- For every id, the merged list holds at most one message with that id: the last one of the live
-- list, or else the last one of the history. It is in the order of the sequence numbers.
pub merge_history_and_live_lem :
    (history live : List Message) (id : Text)
    → (select (λ m. m.id == id) (merge_history_and_live history live)
        ≡ to_list (latest id live (latest id history none)))
      × IsSorted (by (λ (m : Message). m.seq)) (merge_history_and_live history live)
merge_history_and_live_lem history live id =
    (select-merge_history_and_live history live id, merge_history_and_live-IsSorted history live)
