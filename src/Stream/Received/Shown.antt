-- ===== src/Stream/Received/Shown.antt =====
-- From the bytes of a stream to the feed that is shown.
use agentchat_take_home.Base.{
  ℕ, Text, Bool, true, false, List, [], ◌∷◌, ◌++◌, map, Option, none, some, ◌≡◌, refl, sym, ap, ap₂,
  ◌∙◌, subst, select, select-append, select_in, select_out, length, ◌≤◌, arith, All, ◌==◌, text_eq,
  if◌then◌else◌, Bool-cases, inl, inr,
}
use agentchat_take_home.JsMap
use agentchat_take_home.JsMap.{values}
use agentchat_take_home.JsMap.Values.{to_list, length-to_list, select-values}
use agentchat_take_home.Sort.{by}
use agentchat_take_home.Sort.Select.{select-sort_single}
use agentchat_take_home.Types.Adapters.{to_ui_message}
use agentchat_take_home.Types.Json.{Json, Number}
use agentchat_take_home.Types.Ui.{Date, Message, SystemEvent, FeedItem, message, system}
use agentchat_take_home.Sse.Lines.{index_of_blank}
use agentchat_take_home.Sse.Buffer.Chunks.{concat}
use agentchat_take_home.Sse.Frame.Blocks.{Block, IsBlock, print_blocks}
use agentchat_take_home.Sse.Frame.Print.{Without}
use agentchat_take_home.Sse.Open.{response, chunk, open_conversation_stream}
use agentchat_take_home.Sse.Open.Printed.{callbacks_of, End, answer}
use agentchat_take_home.Stream.Assembly.{Token, Ending, names, message_frames, row, contents}
use agentchat_take_home.Stream.Events.{Event, steps}
use agentchat_take_home.Stream.Feed.{merge_history_and_live, item_seq, build_feed}
use agentchat_take_home.Stream.Feed.Merge.{latest, select-merge_history_and_live}
use agentchat_take_home.Stream.Invariant.{IsValid, steps-IsValid_from, steps-IsValid}
use agentchat_take_home.Stream.Received.{frames_of, events_of, open_conversation_stream-steps}
use agentchat_take_home.Stream.{Stream, Clock, run_effect}

-- The item is the message with this id.
abbrev pub has_id : Text → FeedItem → Bool
has_id id (message m) = m.id == id
has_id id (system e) = false

latest-select :
    (id : Text) (ms : List Message) (old : Option Message)
    → latest id ms old ≡ latest id (select (λ m. m.id == id) ms) old
latest-select id [] old = refl
latest-select id (m ∷ ms) old =
    let named : Message → Bool = λ m. m.id == id in
    let pick : Bool → Option Message = λ b. if b then some m else old in
    elim (Bool-cases (m.id == id)) [
      | inl same ↦
          ap (λ b. latest id ms (pick b)) same
          ∙ latest-select id ms (some m)
          ∙ sym (
              ap (λ l. latest id l old) (select_in named m ms same)
              ∙ ap (λ b. latest id (select named ms) (pick b)) same)
      | inr other ↦
          ap (λ b. latest id ms (pick b)) other
          ∙ latest-select id ms old
          ∙ sym (ap (λ l. latest id l old) (select_out named m ms other))
    ]

select-message :
    (id : Text) (ms : List Message)
    → select (has_id id) (map message ms) ≡ map message (select (λ m. m.id == id) ms)
select-message id [] = refl
select-message id (m ∷ ms) = elim (Bool-cases (m.id == id)) [
  | inl same ↦
      select_in (has_id id) (message m) (map message ms) same
      ∙ ap (◌∷◌ (message m)) (select-message id ms)
      ∙ ap (map message) (sym (select_in (λ m. m.id == id) m ms same))
  | inr other ↦
      select_out (has_id id) (message m) (map message ms) other
      ∙ select-message id ms
      ∙ ap (map message) (sym (select_out (λ m. m.id == id) m ms other))
]

select-system : (id : Text) (es : List SystemEvent) → select (has_id id) (map system es) ≡ []
select-system id [] = refl
select-system id (e ∷ es) = select-system id es

-- A message that the merged list holds once is once in the feed.
select-build_feed :
    (id : Text) (history live : List Message) (events : List SystemEvent) (m : Message)
    → select (λ m. m.id == id) (merge_history_and_live history live) ≡ m ∷ []
    → select (has_id id) (build_feed history live events) ≡ message m ∷ []
unfolding build_feed
select-build_feed id history live events m h =
    let ms = merge_history_and_live history live in
    let one : select (has_id id) (map message ms ++ map system events) ≡ message m ∷ [] =
      select-append (has_id id) (map message ms) (map system events)
      ∙ ap₂ ◌++◌ (select-message id ms ∙ ap (map message) h) (select-system id events) in
    select-sort_single (by item_seq) (has_id id) (map message ms ++ map system events)
      (subst (λ (l : List FeedItem). length l ≤ 1) (sym one) (omega arith))
    ∙ one

-- What is published for an id is what the map of the messages holds for it.
select-live_messages :
    (cid id : Text) (s : Stream)
    → IsValid cid s
    → select (λ m. m.id == id) s.live_messages ≡ to_list (JsMap.get id s.messages)
select-live_messages cid id s v =
    let held = select-values (λ (m : Message). m.id) id s.messages v.distinct v.keyed in
    ap (select (λ m. m.id == id)) v.published
    ∙ select-sort_single (by (λ (m : Message). m.seq)) (λ m. m.id == id) (values s.messages)
        (subst (λ (l : List Message). length l ≤ 1) (sym held) (length-to_list _))
    ∙ held

-- A live message is in the feed once, in its live form, whatever the history holds.
build_feed-live :
    (cid id : Text) (s : Stream) (history : List Message) (m : Message)
    → IsValid cid s
    → m.id ≡ id
    → JsMap.get id s.messages ≡ some m
    → select (has_id id) (build_feed history s.live_messages s.live_system_events) ≡ message m ∷ []
build_feed-live cid id s history m v named found =
    let old = latest id history none in
    select-build_feed id history s.live_messages s.live_system_events m (
      select-merge_history_and_live history s.live_messages id
      ∙ ap to_list (
          latest-select id s.live_messages old
          ∙ ap (λ l. latest id l old) (select-live_messages cid id s v ∙ ap to_list found)
          ∙ ap (λ b. if b then some m else old) ((text_eq.same_iff m.id id).1 named)))

to_ui_message-id :
    (now : Date) (id sender content cid : Text) (n n' : ℕ) (e : Ending)
    → (to_ui_message now (row id sender content n n' e) cid).id ≡ id
unfolding to_ui_message
to_ui_message-id now id sender content cid n n' e = refl

module _ (parse_date : Text → Date) (cid : Text) where
  -- The state of the hook when the callbacks of a stream have run.
  abbrev pub received :
      (Text → Number)
      → (Text → Option Json)
      → ℕ
      → Text
      → List Text
      → End
      → (ℕ → Clock)
      → Stream
      → Stream
  received to_number parse_json status status_text chunks end clock s =
      let fetched = response true status status_text true in
      let reads = map chunk chunks ++ answer end ∷ [] in
      steps parse_date cid
        (events_of clock (open_conversation_stream to_number parse_json [] fetched reads).callbacks)
        s

  received-IsValid :
      (to_number : Text → Number) (parse_json : Text → Option Json) (status : ℕ)
      (status_text : Text) (chunks : List Text) (end : End) (clock : ℕ → Clock) (es : List Event)
      → IsValid cid (
          received to_number parse_json status status_text chunks end clock
            (steps parse_date cid es (run_effect (some cid)).0))
  received-IsValid to_number parse_json status status_text chunks end clock es =
      let fetched = response true status status_text true in
      let reads = map chunk chunks ++ answer end ∷ [] in
      steps-IsValid_from parse_date cid
        (events_of clock (open_conversation_stream to_number parse_json [] fetched reads).callbacks)
        (steps parse_date cid es (run_effect (some cid)).0) (steps-IsValid parse_date cid es)

  -- The hook of a conversation, after any callbacks and not cleaned up, gets a stream of blocks as
  -- the server writes them, cut into chunks anyhow, which may break off inside a block, and end or
  -- fail. Take the frames that its blocks carry, and among them those of one message:
  -- `message_start`, any tokens, and `message_end` or `message_abort`, with any other blocks
  -- between them. When the callbacks of `openConversationStream` have run, the feed of `buildFeed`
  -- holds the message with this id once, whether the history has it already or not: as
  -- `toUIMessage` makes it of the row that the history has of it when it has ended, but for the
  -- date, which is that of the first frame. The calls of `onFrame` return normally. No payload
  -- holds a carriage return, and comments, ids and names no line break.
  pub open_conversation_stream-build_feed :
      (to_number : Text → Number) (parse_json : Text → Option Json) (status : ℕ)
      (status_text : Text) (bs : List Block) (partial : Text) (chunks : List Text) (end : End)
      (clock : ℕ → Clock) (es : List Event) (history : List Message) (id sender at : Text)
      (c : Clock) (n : ℕ) (tokens : List Token) (c' : Clock) (n' : ℕ) (e : Ending) (now : Date)
      → All (IsBlock to_number parse_json) bs
      → Without b'\r' partial
      → index_of_blank partial ≡ none
      → concat chunks ≡ print_blocks bs partial
      → (steps parse_date cid es (run_effect (some cid)).0).cancelled ≡ false
      → select (names id) (frames_of clock (callbacks_of to_number parse_json bs))
        ≡ message_frames id sender at c n tokens c' n' e
      → let t =
          received to_number parse_json status status_text chunks end clock
            (steps parse_date cid es (run_effect (some cid)).0) in
        select (has_id id) (build_feed history t.live_messages t.live_system_events)
        ≡ message (record (to_ui_message now (row id sender (contents tokens) n n' e) cid) {
          timestamp = parse_date at;
        })
          ∷ []
  open_conversation_stream-build_feed to_number parse_json status status_text bs partial chunks end
        clock es history id sender at c n tokens c' n' e now blocks w unended parts live picked =
      let s = steps parse_date cid es (run_effect (some cid)).0 in
      let t = received to_number parse_json status status_text chunks end clock s in
      build_feed-live cid id t history _
        (received-IsValid to_number parse_json status status_text chunks end clock es)
        (to_ui_message-id now id sender (contents tokens) cid n n' e)
        (open_conversation_stream-steps parse_date cid to_number parse_json status status_text bs
          partial chunks end clock s id sender at c n tokens c' n' e now blocks w unended parts live
          picked)
