-- ===== src/MemberList/Groups.antt =====
-- MemberList.tsx: the groups are the members, in the order of the groups.
use agentchat_take_home.Base.{
  Text, true, List, [], ◌∷◌, ◌++◌, ◌≡◌, refl, sym, ap, ◌∙◌, arith, All, select, select_in,
  select_out, map, ltb, append-nil,
}
use agentchat_take_home.Sort.{by}
use agentchat_take_home.Sort.Laws.{IsSorted, sort-IsSorted, by-IsPreorder, select-sort}
use agentchat_take_home.Types.Ui.{
  Agent, AgentStatus, online, idle, offline, streaming, Conversation,
}
use agentchat_take_home.MemberList.{
  status_order, is_member, members, has_status, AgentRow, agent_row, StatusGroup, status_group,
  status_groups,
}

-- The agents of the rows of groups, from the first to the last.
abbrev pub drawn : List StatusGroup → List Agent
drawn [] = []
drawn (g ∷ gs) = map (λ r. r.agent) g.rows ++ drawn gs

map-agent_row : (ms : List Agent) → map (λ (r : AgentRow). r.agent) (map agent_row ms) ≡ ms
map-agent_row [] = refl
map-agent_row (a ∷ ms) = ap (◌∷◌ a) (map-agent_row ms)

drawn-status_group :
    (label color : Text) (ms : List Agent) (gs : List StatusGroup)
    → drawn (status_group label color ms ++ gs) ≡ ms ++ drawn gs
drawn-status_group label color [] gs = refl
drawn-status_group label color (a ∷ ms) gs = ap (λ l. (a ∷ l) ++ drawn gs) (map-agent_row ms)

abbrev pub by_status : AgentStatus → List Agent → List Agent
by_status s ms = select (has_status s) ms

abbrev pub in_groups : List Agent → List Agent
in_groups ms =
    by_status streaming ms ++ (by_status online ms ++ (by_status idle ms ++ by_status offline ms))

drawn-status_group_last :
    (label color : Text) (ms : List Agent) → drawn (status_group label color ms) ≡ ms
drawn-status_group_last label color [] = refl
drawn-status_group_last label color (a ∷ ms) =
    append-nil (map (λ (r : AgentRow). r.agent) (map agent_row (a ∷ ms))) ∙ map-agent_row (a ∷ ms)

drawn-status_groups : (ms : List Agent) → drawn (status_groups ms) ≡ in_groups ms
drawn-status_groups ms =
    drawn-status_group _ _ (by_status streaming ms) _
    ∙ ap (◌++◌ (by_status streaming ms)) (
        drawn-status_group _ _ (by_status online ms) _
        ∙ ap (◌++◌ (by_status online ms)) (
            drawn-status_group _ _ (by_status idle ms) _
            ∙ ap (◌++◌ (by_status idle ms)) (drawn-status_group_last _ _ (by_status offline ms))))

by_status_of_later :
    (s : AgentStatus) (a : Agent) (ms : List Agent)
    → ltb (status_order s) (status_order a.status) ≡ true
    → All (λ b. by (λ (c : Agent). status_order c.status) a b ≡ true) ms
    → by_status s ms ≡ []
by_status_of_later s a [] l h = refl
by_status_of_later s a (b ∷ ms) l (p, h) = ground (arith, by_status_of_later s a ms l h)

append_same :
    {o p q r o' p' q' r' : List Agent}
    → o ≡ o'
    → p ≡ p'
    → q ≡ q'
    → r ≡ r'
    → o ++ (p ++ (q ++ r)) ≡ o' ++ (p' ++ (q' ++ r'))
append_same e f g h = cc (e, f, g, h)

module _ (a : Agent) (ms : List Agent) where
  here : (s : AgentStatus) → has_status s a ≡ true → by_status s (a ∷ ms) ≡ a ∷ by_status s ms
  here s = select_in (has_status s) a ms

  away :
      (s : AgentStatus)
      → ltb (status_order a.status) (status_order s) ≡ true
      → by_status s (a ∷ ms) ≡ by_status s ms
  away s h = select_out (has_status s) a ms (ground (arith, h))

  module _ (later : All (λ b. by (λ (c : Agent). status_order c.status) a b ≡ true) ms) where
    gone :
        (s : AgentStatus)
        → ltb (status_order s) (status_order a.status) ≡ true
        → (by_status s (a ∷ ms) ≡ []) × (by_status s ms ≡ [])
    gone s l =
        let e = by_status_of_later s a ms l later in
        (select_out (has_status s) a ms (ground (arith, l)) ∙ e, e)

    in_groups_cons :
        (s : AgentStatus) → a.status ≡ s → in_groups ms ≡ ms → in_groups (a ∷ ms) ≡ a ∷ ms
    in_groups_cons streaming e k =
        let o = ap status_order e in
        append_same (here streaming (ground (arith, o))) (away online (ground (arith, o)))
          (away idle (ground (arith, o))) (away offline (ground (arith, o)))
        ∙ ap (◌∷◌ a) k
    in_groups_cons online e k =
        let o = ap status_order e in
        let (f, f') = gone streaming (ground (arith, o)) in
        append_same f (here online (ground (arith, o))) (away idle (ground (arith, o)))
          (away offline (ground (arith, o)))
        ∙ ap (◌∷◌ a) (
            append_same {p = by_status online ms} {q = by_status idle ms} {r = by_status offline ms}
              (sym f') refl refl refl
            ∙ k)
    in_groups_cons idle e k =
        let o = ap status_order e in
        let (f, f') = gone streaming (ground (arith, o)) in
        let (g, g') = gone online (ground (arith, o)) in
        append_same f g (here idle (ground (arith, o))) (away offline (ground (arith, o)))
        ∙ ap (◌∷◌ a) (
            append_same {q = by_status idle ms} {r = by_status offline ms} (sym f') (sym g') refl
              refl
            ∙ k)
    in_groups_cons offline e k =
        let o = ap status_order e in
        let (f, f') = gone streaming (ground (arith, o)) in
        let (g, g') = gone online (ground (arith, o)) in
        let (h, h') = gone idle (ground (arith, o)) in
        append_same f g h (here offline (ground (arith, o)))
        ∙ ap (◌∷◌ a) (append_same {r = by_status offline ms} (sym f') (sym g') (sym h') refl ∙ k)

in_groups_of_IsSorted :
    (ms : List Agent) → IsSorted (by (λ (a : Agent). status_order a.status)) ms → in_groups ms ≡ ms
in_groups_of_IsSorted [] h = refl
in_groups_of_IsSorted (a ∷ ms) (h, k) =
    in_groups_cons a ms h a.status refl (in_groups_of_IsSorted ms k)

pub in_groups-members :
    (c : Conversation) (agents : List Agent) → in_groups (members c agents) ≡ members c agents
unfolding members
in_groups-members c agents =
    in_groups_of_IsSorted (members c agents)
      (sort-IsSorted _ (by-IsPreorder _) (select (is_member c) agents))

pub by_status-members :
    (c : Conversation) (agents : List Agent) (s : AgentStatus)
    → by_status s (members c agents) ≡ by_status s (select (is_member c) agents)
unfolding members
by_status-members c agents s =
    select-sort _ (has_status s) (λ a b h k. ground (arith, h, k)) (select (is_member c) agents)

-- The rows of the groups, from the first to the last, are the members, sorted by their status. The
-- members of each status are those agents of the conversation with it, in the order in which the
-- agents came.
pub members-groups :
    (c : Conversation) (agents : List Agent) (s : AgentStatus)
    → (drawn (status_groups (members c agents)) ≡ members c agents)
      × (by_status s (members c agents) ≡ by_status s (select (is_member c) agents))
members-groups c agents s = (
  drawn-status_groups (members c agents) ∙ in_groups-members c agents,
  by_status-members c agents s,
)
