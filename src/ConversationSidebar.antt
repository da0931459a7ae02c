-- ===== src/ConversationSidebar.antt =====
-- artifacts/agentmail-ui/src/components/ConversationSidebar.tsx: the order of the conversations and
-- what each item shows.
use agentchat_take_home.Base.{
  ℕ, Text, codes, Bool, true, false, not, ◌&&◌, ◌||◌, List, [], ◌∷◌, Option, none, some, ◌==◌,
  text_eq, map, length, any, leb, if◌then◌else◌,
}
use agentchat_take_home.Strings.{replace}
use agentchat_take_home.Sort.{sort}
use agentchat_take_home.Types.Ui.{Conversation, Date}
pub mod Order

-- `Set.prototype.has`
abbrev pub has : Text → List Text → Bool
has id ids = any (λ i. i == id) ids

-- `b - a` is at most 0; it is not where it is NaN, but then `sort` takes it for 0.
abbrev pub later : Date → Date → Bool
later (some a) (some b) = leb b a
later _ _ = true

-- The comparator's value at two flags that differ, or what is behind.
abbrev pub flagged_first : Bool → Bool → Bool → Bool
flagged_first true false rest = true
flagged_first false true rest = false
flagged_first _ _ rest = rest

module _ (streaming_ids unread_ids : List Text) where
  -- The comparator at `(a, b)` is at most 0.
  abbrev pub precedes : Conversation → Conversation → Bool
  precedes a b = flagged_first (has a.id streaming_ids) (has b.id streaming_ids) (
      flagged_first (has a.id unread_ids) (has b.id unread_ids)
        (later a.last_activity b.last_activity))

  unfoldable pub sorted : List Conversation → List Conversation
  sorted conversations = sort precedes conversations

pub data Badge : Type 0 where
  live new : Badge
  head_seq : ℕ → Badge

-- `ConvItem`; `marker` is the class of the left edge marker, where there is one, and `hash` that of
-- the hash sign, none where the radio sign stands instead.
pub record ConvItem : Type 0 where
  pub id : Text
  pub tone : Text
  pub marker : Option Text
  pub hash : Option Text
  pub name : Text
  pub badge : Badge

abbrev tone : Bool → Bool → Bool → Text
tone true is_streaming is_unread = codes "bg-accent text-foreground"
tone false true is_unread = codes "text-streaming hover:bg-streaming/10"
tone false false true = codes "text-foreground hover:bg-accent/40 font-semibold"
tone false false false = codes "text-muted-foreground hover:bg-accent/40 hover:text-foreground/80"

abbrev pub marker : Bool → Bool → Bool → Option Text
marker is_active is_streaming is_unread =
    if (is_streaming || is_unread) && not is_active
    then some (if is_streaming then codes "bg-streaming animate-pulse" else codes "bg-primary")
    else none

abbrev hash : Bool → Bool → Option Text
hash true is_unread = none
hash false true = some (codes "opacity-90")
hash false false = some (codes "opacity-60")

abbrev pub badge : Bool → Bool → ℕ → Badge
badge true is_unread seq = live
badge false true seq = new
badge false false seq = head_seq seq

unfoldable pub conv_item : Conversation → Bool → Bool → Bool → ConvItem
conv_item c is_active is_streaming is_unread = record {
  id = c.id;
  tone = tone is_active is_streaming is_unread;
  marker = marker is_active is_streaming is_unread;
  hash = hash is_streaming is_unread;
  name = replace (codes "# ") [] c.name;
  badge = badge is_streaming is_unread c.head_seq;
}

-- The count of the header, and the items.
unfoldable pub conversation_sidebar :
    List Conversation → Text → List Text → List Text → ℕ × List ConvItem
conversation_sidebar conversations active_id streaming_ids unread_ids =
    let shown = sorted streaming_ids unread_ids conversations in
    (
      length shown,
      map
          (λ (c : Conversation).
            conv_item c (c.id == active_id) (has c.id streaming_ids) (has c.id unread_ids))
          shown,
    )
