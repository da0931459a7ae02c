-- ===== src/App/Screen/Counts.antt =====
-- App.tsx: what the header and the member list make of the agents that are made up.
use agentchat_take_home.Base.{
  ◌+◌, Text, true, List, [], ◌∷◌, map, Option, some, ◌≡◌, refl, ◌∙◌, arith, All, All-select, any,
  ◌||◌, ◌&&◌, select, length, Bool-cases, inl, inr, ◌==◌, nat_eq, text_eq,
}
use agentchat_take_home.Types.Ui.{
  Date, Agent, online, idle, offline, streaming, Message, Conversation,
}
use agentchat_take_home.Types.Adapters.{synth_agent}
use agentchat_take_home.MemberList.{is_member, has_status, members}
use agentchat_take_home.MemberList.Groups.{by_status, by_status-members}
use agentchat_take_home.ConversationHeader.{header}
use agentchat_take_home.App.Agents.{agent_of, agents}
use agentchat_take_home.App.Screen.{Inputs, agents_of}

-- An agent that streams or is online.
abbrev IsPresent : Agent → Type 0
IsPresent a = (has_status online a || has_status streaming a) ≡ true

module _ (now : Date) (resident my_agent_id : Option Text) (live : List Message) where
  agent_of-IsPresent : (id : Text) → IsPresent (agent_of now resident my_agent_id live id)
  unfolding synth_agent
  agent_of-IsPresent id =
      elim (Bool-cases (any (λ (m : Message). (m.agent_id == id) && m.is_streaming) live)) [
        | inl streams ↦ rw streams refl
        | inr quiet ↦ rw quiet refl
      ]

  map-IsPresent :
      (ids : List Text) → All IsPresent (map (agent_of now resident my_agent_id live) ids)
  map-IsPresent [] = tt
  map-IsPresent (id ∷ ids) = (agent_of-IsPresent id, map-IsPresent ids)

count_present :
    (ms : List Agent)
    → All IsPresent ms
    → (length (by_status online ms) + length (by_status streaming ms) ≡ length ms)
      × (by_status idle ms ≡ [])
      × (by_status offline ms ≡ [])
count_present [] h = (refl, refl, refl)
count_present (a ∷ ms) (p, h) =
    let (n, i, o) = count_present ms h in (ground (arith, n), ground (arith, i), ground (arith, o))

-- The agents that the root component makes up are online or streaming. So the header counts all
-- members as online, and the member list has no group of idle and none of offline members.
pub agents_of-present :
    (i : Inputs) (c : Conversation)
    → let view = header c (agents_of i (some c)) in
      let ms = members c (agents_of i (some c)) in
      (view.online_count ≡ view.members) × (by_status idle ms ≡ []) × (by_status offline ms ≡ [])
unfolding agents_of agents header
agents_of-present i c =
    let chosen = select (is_member c) (agents_of i (some c)) in
    let (n, no_idle, no_offline) = count_present chosen (
      All-select IsPresent (is_member c) (agents_of i (some c))
        (map-IsPresent (some i.now) i.resident i.my_agent_id i.live _)) in
    (
      n,
      by_status-members c (agents_of i (some c)) idle ∙ no_idle,
      by_status-members c (agents_of i (some c)) offline ∙ no_offline,
    )
