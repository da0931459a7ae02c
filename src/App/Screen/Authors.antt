-- ===== src/App/Screen/Authors.antt =====
-- App.tsx: the agents that the feed gets are those that its messages need.
use agentchat_take_home.Base.{
  ℕ, Text, Bool, true, not, List, [], ◌∷◌, map, Option, some, ◌≡◌, refl, arith, All, All-append,
  is_some, select, ◌==◌, text_eq, Bool-cases, inl, inr,
}
use agentchat_take_home.JsMap
use agentchat_take_home.JsMap.{Map}
use agentchat_take_home.JsMap.Laws.{get-set}
use agentchat_take_home.Sort.{by}
use agentchat_take_home.Sort.Laws.{All-sort}
use agentchat_take_home.Types.Ui.{Message, SystemEvent, message, system, Agent, Conversation}
use agentchat_take_home.Stream.Feed.{item_seq, build_feed}
use agentchat_take_home.MessageFeed.{set_agents, group_feed}
use agentchat_take_home.MessageFeed.Authors.{HasAuthor, IsKnown, group_feed-AllKnown}
use agentchat_take_home.App.Agents.Known.{has_id, agents_lem}
use agentchat_take_home.App.Screen.{Inputs, messages_of, agents_of}

abbrev ids : List Agent → List Text
ids = map (λ (a : Agent). a.id)

set-keeps :
    (k : Text) (a : Agent) (m : Map Text Agent)
    → is_some (JsMap.get k m) ≡ true
    → is_some (JsMap.get k (JsMap.set a.id a m)) ≡ true
set-keeps k a m h = rw (get-set a.id k a m) (ground (arith, h))

set_agents-keeps :
    (k : Text) (agents : List Agent) (m : Map Text Agent)
    → is_some (JsMap.get k m) ≡ true
    → is_some (JsMap.get k (set_agents agents m)) ≡ true
set_agents-keeps k [] m h = h
set_agents-keeps k (a ∷ agents) m h = set_agents-keeps k agents _ (set-keeps k a m h)

set_agents-has :
    (k : Text) (agents : List Agent) (m : Map Text Agent)
    → has_id k (ids agents) ≡ true
    → is_some (JsMap.get k (set_agents agents m)) ≡ true
set_agents-has k [] m h = cc (h)
set_agents-has k (a ∷ agents) m h = elim (Bool-cases (a.id == k)) [
  | inl same ↦ set_agents-keeps k agents (JsMap.set a.id a m) (rw (get-set a.id k a m, same) refl)
  | inr other ↦ set_agents-has k agents (JsMap.set a.id a m) (ground (arith, h, other))
]

All-of_select {ℓ κ} :
    {A : Type ℓ} (P : A → Type κ) (q : A → Bool) (xs : List A)
    → All (λ x. q x ≡ true) xs
    → All P (select q xs)
    → All P xs
All-of_select P q [] h k = tt
All-of_select P q (x ∷ xs) (p, h) k =
    let both : All P (x ∷ select q xs) = rw p at k in (both.0, All-of_select P q xs h both.1)

messages-HasAuthor :
    (agents : List Agent) (ms : List Message)
    → All (λ (m : Message). has_id m.agent_id (ids agents) ≡ true) ms
    → All (HasAuthor (set_agents agents [])) (map message ms)
messages-HasAuthor agents [] h = tt
messages-HasAuthor agents (m ∷ ms) (p, h) =
    (set_agents-has m.agent_id agents [] p, messages-HasAuthor agents ms h)

systems-HasAuthor :
    (agents : List Agent) (es : List SystemEvent)
    → All (HasAuthor (set_agents agents [])) (map system es)
systems-HasAuthor agents [] = tt
systems-HasAuthor agents (e ∷ es) = (tt, systems-HasAuthor agents es)

-- Where the authors of the messages are not empty, the feed that is made of the history, the live
-- messages and the events has no group without its agent: the agents that the root component makes
-- up have the author of every message.
pub agents_of-authors :
    (show : ℕ → Text) (i : Inputs) (active : Option Conversation)
    → All (λ (m : Message). not (m.agent_id == []) ≡ true) (messages_of i)
    → All IsKnown (group_feed show (build_feed i.history i.live i.events) (agents_of i active))
unfolding agents_of build_feed
agents_of-authors show i active h =
    let (unique, listed, authors, subjects) =
      agents_lem (some i.now) i.resident i.my_agent_id i.live active (messages_of i) i.events in
    group_feed-AllKnown show (build_feed i.history i.live i.events) (agents_of i active) (
      All-sort (by item_seq) (HasAuthor (set_agents (agents_of i active) [])) _ (
        All-append _ (map message (messages_of i)) (map system i.events)
          (messages-HasAuthor (agents_of i active) (messages_of i)
            (All-of_select _ _ (messages_of i) h authors))
          (systems-HasAuthor (agents_of i active) i.events)))
