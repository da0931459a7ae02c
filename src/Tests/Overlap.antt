-- ===== src/Tests/Overlap.antt =====
-- Two calls of `ensureAgentId` that overlap, and a third one behind them.
use agentchat_take_home.Base.{Text, codes, true, [], ◌∷◌, none, some, ◌≡◌, refl, text_beq}
use agentchat_take_home.Types.Json.{Json, string, object, field, end}
use agentchat_take_home.AgentId.{Storage, Fetched, identified, get_agent_id, set_agent_id}
use agentchat_take_home.AgentId.Overlap.{
  waiting, settled, Calls, no_calls, begin, answer, begins, answers, Steps, here, next,
}
use agentchat_take_home.AgentId.Overlap.Requests.{IsReady, Steps-once}

abbrev show : Json → Text
show (string t) = t
show _ = codes "?"

abbrev storage : Storage
storage = record { item = none; can_read = true; can_write = true }

abbrev created : Text → Fetched
created id = some (record {
  status = 201;
  status_text = codes "Created";
  json = some (object (field (codes "agent_id") (string id) end));
})

-- Both calls wait, and the first one is answered.
abbrev first : Calls
first = answer show (created (codes "a")) [] (waiting ∷ []) (begin (begin (no_calls storage)))

-- The second one is answered, and a third one begins.
abbrev later : Calls
later = begin (answer show (created (codes "b")) (settled (identified (codes "a")) ∷ []) [] first)

hook : Unit {0}
unfolding begin answer get_agent_id set_agent_id text_beq
hook = tt

-- The two calls have identities that differ, and the third one has that of the second.
later_runs :
    later.runs
    ≡ settled (identified (codes "a"))
      ∷ settled (identified (codes "b"))
      ∷ settled (identified (codes "b"))
      ∷ []
unfolding hook
later_runs = refl

first-Steps : Steps show (no_calls storage) first
unfolding hook
first-Steps =
    next (next (next here begins) begins) (answers (created (codes "a")) [] (waiting ∷ []) tt refl)

later-Steps : Steps show first later
unfolding hook
later-Steps =
    next
      (next here (answers (created (codes "b")) (settled (identified (codes "a")) ∷ []) [] tt refl))
      begins

Steps-once_example : (later.requests ≡ first.requests) × IsReady later.storage
unfolding hook
Steps-once_example = Steps-once show (λ t. refl) storage refl refl first-Steps refl later-Steps
