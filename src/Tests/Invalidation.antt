-- ===== src/Tests/Invalidation.antt =====
-- The queries that a run of frames invalidates.
use agentchat_take_home.Base.{ℕ, Text, codes, List, [], ◌∷◌, some, ◌≡◌, refl, length, nat_eq}
use agentchat_take_home.Queries.{conversations_query_key, messages_query_key}
use agentchat_take_home.Types.Payload.{Payload, appended, joined, left}
use agentchat_take_home.Types.Ui.{Date}
use agentchat_take_home.Stream.{Frame, Clock, reset}
use agentchat_take_home.App.Invalidation.Live.{live_commits, refreshed, live_commits-refreshed}

abbrev parse_date : Text → Date
parse_date t = some (length t)

abbrev at : ℕ → ℕ → Payload → Clock × Frame
at time seq p = (
  record { changed_at = time; compared_at = time; live_at = time },
  record { seq = seq; payload = p },
)

-- Two agents join in the same millisecond, and one leaves later.
abbrev frames : List (Clock × Frame)
frames =
    at 40 1 (joined (record { agent_id = codes "eve"; timestamp = codes "t" }))
    ∷ at 40 2 (joined (record { agent_id = codes "bob"; timestamp = codes "t" }))
    ∷ at 55 3
        (appended (record { message_id = codes "m"; content = codes "x"; timestamp = codes "t" }))
    ∷ at 60 4 (left (record { agent_id = codes "eve"; timestamp = codes "t" }))
    ∷ []

refreshed_twice :
    refreshed (codes "c1") 0 frames
    ≡ conversations_query_key
      ∷ messages_query_key (codes "c1")
      ∷ conversations_query_key
      ∷ messages_query_key (codes "c1")
      ∷ []
refreshed_twice = refl

live_commits-refreshed_example :
    live_commits parse_date
      (codes "c1")
      (some (codes "c1"))
      frames
      reset
      (some (record { changed_at = 0; active = some (codes "c1") }))
    ≡ refreshed (codes "c1") 0 frames
live_commits-refreshed_example =
    live_commits-refreshed parse_date (codes "c1") frames reset _ _ refl
