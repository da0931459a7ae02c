-- ===== src/Tests/Queries.antt =====
-- A page of history, newest first.
use agentchat_take_home.Base.{codes, [], ◌∷◌, none, some, ◌≡◌, arith, false}
use agentchat_take_home.Sort.{sort, insert}
use agentchat_take_home.Types.Wire.{HistoryResponse, complete, in_progress}
use agentchat_take_home.Types.Adapters.{to_ui_message}
use agentchat_take_home.Stream.Feed.{merge_history_and_live}
use agentchat_take_home.Queries.{messages_query}
use agentchat_take_home.Queries.Loaded.{Differ, messages_query-shown}

abbrev page : HistoryResponse
page = record {
  messages =
      record {
        message_id = codes "n";
        sender_id = codes "a";
        content = codes "yo";
        seq_start = 4;
        seq_end = 6;
        status = in_progress;
      }
      ∷ record {
        message_id = codes "m";
        sender_id = codes "a";
        content = codes "hi";
        seq_start = 1;
        seq_end = 3;
        status = complete;
      }
      ∷ [];
  has_more = false;
}

different : Differ (messages_query none (some (codes "c")) page)
unfolding messages_query sort insert to_ui_message
different = ((ground arith, tt), (tt, tt))

messages_query-shown_example :
    merge_history_and_live (messages_query none (some (codes "c")) page) []
    ≡ messages_query none (some (codes "c")) page
messages_query-shown_example = messages_query-shown none (some (codes "c")) page different
