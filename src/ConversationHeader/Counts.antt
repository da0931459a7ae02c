-- ===== src/ConversationHeader/Counts.antt =====
-- ConversationHeader.tsx: the counts agree with the member list.
use agentchat_take_home.Base.{
  ◌+◌, ◌≤◌, List, ◌≡◌, sym, ap, ◌∙◌, arith, select, length, length-append,
}
use agentchat_take_home.Sort.Laws.{length-sort}
use agentchat_take_home.Types.Ui.{Agent, online, idle, offline, streaming, Conversation}
use agentchat_take_home.MemberList.{is_member, members}
use agentchat_take_home.MemberList.Groups.{
  by_status, in_groups, in_groups-members, by_status-members,
}
use agentchat_take_home.ConversationHeader.{shown_count, header}

length-in_groups :
    (ms : List Agent)
    → length (in_groups ms)
      ≡ length (by_status streaming ms)
        + (length (by_status online ms)
            + (length (by_status idle ms) + length (by_status offline ms)))
length-in_groups ms =
    length-append (by_status streaming ms) _
    ∙ ap (◌+◌ (length (by_status streaming ms))) (
        length-append (by_status online ms) _
        ∙ ap (◌+◌ (length (by_status online ms)))
            (length-append (by_status idle ms) (by_status offline ms)))

-- The header counts as the member list groups: its members are those of the list, its streaming
-- ones, not shown where there are none, and its online ones are those of the groups, and online
-- are at most all the members.
pub header-members :
    (c : Conversation) (agents : List Agent)
    → let ms = members c agents in
      ((header c agents).members ≡ length ms)
      × ((header c agents).streaming ≡ shown_count (length (by_status streaming ms)))
      × ((header c agents).online_count
          ≡ length (by_status online ms) + length (by_status streaming ms))
      × ((header c agents).online_count ≤ (header c agents).members)
unfolding header members
header-members c agents =
    let chosen = select (is_member c) agents in
    let all : length (members c agents) ≡ length chosen = length-sort _ chosen in
    let on = ap length (by_status-members c agents online) in
    let streams = ap length (by_status-members c agents streaming) in
    let sum = sym (length-in_groups (members c agents)) ∙ ap length (in_groups-members c agents) in
    (
      sym all,
      ap shown_count (sym streams),
      ap (λ n. n + length (by_status streaming chosen)) (sym on)
          ∙ ap (◌+◌ (length (by_status online (members c agents)))) (sym streams),
      omega (arith, all, on, streams, sum),
    )
