-- ===== src/Stream/Feed/Interleave.antt =====
-- What `buildFeed` returns: messages and system events in the order of their sequence numbers.
use agentchat_take_home.Base.{
  ℕ, List, [], ◌∷◌, ◌++◌, map, Bool, true, false, ◌≡◌, refl, ap, ◌∙◌, arith, ◌==◌, nat_eq, select,
  select-append,
}
use agentchat_take_home.Sort.{sort, by}
use agentchat_take_home.Sort.Laws.{
  IsSorted, by-IsPreorder, sort-IsSorted, sort_of_IsSorted, select-sort,
}
use agentchat_take_home.Sort.Select.{select-sort_comm, sort-map}
use agentchat_take_home.Types.Ui.{Message, SystemEvent, FeedItem, message, system}
use agentchat_take_home.Stream.Feed.{item_seq, merge_history_and_live, build_feed}
use agentchat_take_home.Stream.Feed.Merge.{merge_history_and_live-IsSorted}

abbrev pub is_message : FeedItem → Bool
is_message (message m) = true
is_message (system e) = false

abbrev pub is_system : FeedItem → Bool
is_system (message m) = false
is_system (system e) = true

select_messages :
    (ms : List Message) (es : List SystemEvent)
    → select is_message (map message ms ++ map system es) ≡ map message ms
select_messages [] [] = refl
select_messages [] (e ∷ es) = select_messages [] es
select_messages (m ∷ ms) es = ap (◌∷◌ (message m)) (select_messages ms es)

select_systems :
    (ms : List Message) (es : List SystemEvent)
    → select is_system (map message ms ++ map system es) ≡ map system es
select_systems [] [] = refl
select_systems [] (e ∷ es) = ap (◌∷◌ (system e)) (select_systems [] es)
select_systems (m ∷ ms) es = select_systems ms es

module _ (history live : List Message) (events : List SystemEvent) where
  -- The feed is in the order of the sequence numbers. Its messages are those of the merged list
  -- in their order, its system events are the given ones sorted by sequence number, and where a
  -- message and a system event have the same number the message stands first.
  pub build_feed_lem :
      (seq : ℕ)
      → IsSorted (by item_seq) (build_feed history live events)
        × (select is_message (build_feed history live events)
            ≡ map message (merge_history_and_live history live))
        × (select is_system (build_feed history live events)
            ≡ map system (sort (by (λ e. e.seq)) events))
        × (select (λ i. item_seq i == seq) (build_feed history live events)
            ≡ select (λ i. item_seq i == seq) (map message (merge_history_and_live history live))
              ++ select (λ i. item_seq i == seq) (map system events))
  unfolding build_feed
  build_feed_lem seq =
      let o = by-IsPreorder item_seq in
      let ms = merge_history_and_live history live in
      let all : List FeedItem = map message ms ++ map system events in
      (
        sort-IsSorted (by item_seq) o all,
        select-sort_comm (by item_seq) o is_message all
            ∙ ap (sort (by item_seq)) (select_messages ms events)
            ∙ sort-map (by item_seq) message ms
            ∙ ap (map message) (
                sort_of_IsSorted (by (λ (m : Message). m.seq)) ms
                  (merge_history_and_live-IsSorted history live)),
        select-sort_comm (by item_seq) o is_system all
            ∙ ap (sort (by item_seq)) (select_systems ms events)
            ∙ sort-map (by item_seq) system events,
        select-sort (by item_seq) (λ i. item_seq i == seq) (λ a b h k. ground arith) all
            ∙ select-append (λ i. item_seq i == seq) (map message ms) (map system events),
      )
