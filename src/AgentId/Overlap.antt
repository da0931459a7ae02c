-- ===== src/AgentId/Overlap.antt =====
-- Calls of `ensureAgentId` that overlap. A call reads the storage and sends its request at once; the
-- rest of it runs when the server has answered, with any steps of other calls in between.
use agentchat_take_home.Base.{
  ℕ, ◌+◌, Text, codes, Bool, true, false, List, [], ◌∷◌, ◌++◌, Option, none, some, ◌≡◌,
}
use agentchat_take_home.Types.Json.{Json, string, null, property}
use agentchat_take_home.AgentId.{
  Storage, Fetched, Response, Identified, identified, not_identified, get_agent_id, bootstrap,
}
pub mod Requests

pub data Run : Type 0 where
  waiting : Run
  settled : Identified → Run

-- The calls in the order in which they begin, and how many requests they have sent.
pub record Calls : Type 0 where
  pub storage : Storage
  pub runs : List Run
  pub requests : ℕ

abbrev pub no_calls : Storage → Calls
no_calls s = record { storage = s; runs = []; requests = 0 }

abbrev waits : Calls → Calls
waits c = record c { runs = c.runs ++ waiting ∷ []; requests = c.requests + 1 }

-- A call up to its `fetch`, on what is kept.
abbrev pub begin_from : Option Text → Calls → Calls
begin_from none c = waits c
begin_from (some []) c = waits c
begin_from (some (x ∷ id)) c = record c { runs = c.runs ++ settled (identified (x ∷ id)) ∷ [] }

unfoldable pub begin : Calls → Calls
begin c = begin_from (get_agent_id c.storage) c

-- The id of a body, if it has one, is a string.
abbrev IsTextId : Option Json → Type 0
IsTextId none = Unit
IsTextId (some null) = Unit
IsTextId (some (string t)) = Unit
IsTextId _ = ⊥

abbrev IsTextBody : Option Json → Type 0
IsTextBody none = Unit
IsTextBody (some body) = IsTextId (property (codes "agent_id") body)

abbrev pub IsTextAnswer : Fetched → Type 0
IsTextAnswer none = Unit
IsTextAnswer (some r) = IsTextBody r.json

module _ (show : Json → Text) where
  -- The rest of the call that waits between `before` and `after`.
  unfoldable pub answer : Fetched → List Run → List Run → Calls → Calls
  answer fetched before after c =
      let b = bootstrap show fetched c.storage in
      record c { storage = b.storage; runs = before ++ settled b.settled ∷ after }

  pub data Step (c : Calls) : Calls → Type 0 where
    begins : Step c (begin c)
    answers :
        (fetched : Fetched) (before after : List Run)
        → IsTextAnswer fetched
        → c.runs ≡ before ++ waiting ∷ after
        → Step c (answer fetched before after c)

  pub data Steps (c : Calls) : Calls → Type 0 where
    here : Steps c c
    next : {d e : Calls} → Steps c d → Step d e → Steps c e
