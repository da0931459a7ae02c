-- ===== src/ConversationHeader.antt =====
-- artifacts/agentmail-ui/src/components/ConversationHeader.tsx: the name and the counts.
use agentchat_take_home.Base.{
  ℕ, zero, suc, ◌+◌, Text, codes, [], ◌∷◌, List, Option, none, some, length, select,
}
use agentchat_take_home.Strings.{replace}
use agentchat_take_home.Types.Ui.{Agent, streaming, online, Conversation}
use agentchat_take_home.MemberList.{is_member, has_status}
pub mod Counts

-- What the header shows. `streaming` and `description` are none where they are not drawn.
pub record HeaderView : Type 0 where
  pub name : Text
  pub description : Option Text
  pub streaming : Option ℕ
  pub online_count : ℕ
  pub members : ℕ
  pub messages : ℕ

abbrev shown_text : Option Text → Option Text
shown_text (some []) = none
shown_text t = t

abbrev pub shown_count : ℕ → Option ℕ
shown_count zero = none
shown_count (suc n) = some (suc n)

unfoldable pub header : Conversation → List Agent → HeaderView
header c agents =
    let members = select (is_member c) agents in
    let streaming = select (has_status streaming) members in
    let online = select (has_status online) members in
    record {
      name = replace (codes "# ") [] c.name;
      description = shown_text c.description;
      streaming = shown_count (length streaming);
      online_count = length online + length streaming;
      members = length members;
      messages = c.message_count;
    }
