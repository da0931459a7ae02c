-- ===== src/Stream/Invariant.antt =====
-- What holds of the hook's state after every callback.
use agentchat_take_home.Base.{
  ℕ, ◌≤◌, Text, Bool, true, false, ◌&&◌, List, [], ◌∷◌, Option, none, some, ◌≡◌, refl, arith, All,
  if-both, text_eq, nat_eq, leb,
}
use agentchat_take_home.JsMap
use agentchat_take_home.JsMap.{Map, values}
use agentchat_take_home.JsMap.Laws.{IsDistinct, set-IsDistinct, All-get, All-set}
use agentchat_take_home.JsMap.Values.{IsKeyed, set-IsKeyed, get-IsKeyed}
use agentchat_take_home.Sort.{sort}
use agentchat_take_home.Types.Event.{MembershipPayload}
use agentchat_take_home.Types.Payload.{Payload, started, appended, ended, aborted, joined, left}
use agentchat_take_home.Types.Ui.{Date, Message, SystemEvent, MembershipKind}
use agentchat_take_home.Sse.Open.{Failure}
use agentchat_take_home.Stream.Events.{Event, opened, framed, failed, timer, cleaned, step, steps}
use agentchat_take_home.Stream.{
  Stream, Frame, Clock, by_seq, events_by_seq, reset, flush, flush_system, connect, run_effect,
  on_open, on_error, on_timer, cleanup, put, append_to, close, membership, handle, on_frame,
  max_retries, Effect,
}

-- A message of the conversation, which does not both stream and count as complete.
pub record IsOwn (cid : Text) (m : Message) : Type 0 where
  pub conversation : m.conversation_id ≡ cid
  pub coherent : (m.is_streaming && m.stream_complete) ≡ false

pub record IsValid (cid : Text) (s : Stream) : Type 0 where
  pub distinct : IsDistinct s.messages
  pub keyed : IsKeyed (λ (m : Message). m.id) s.messages
  pub own : All (IsOwn cid) (values s.messages)
  pub events_distinct : IsDistinct s.system_events
  pub events_keyed : IsKeyed (λ (e : SystemEvent). e.seq) s.system_events
  pub published : s.live_messages ≡ by_seq (values s.messages)
  pub events_published : s.live_system_events ≡ events_by_seq (values s.system_events)
  pub resumable : s.last_seen_seq ≡ s.last_seq
  pub retries : s.retry_count ≤ max_retries

-- Callbacks that leave messages and system events alone.
same_messages :
    {cid : Text} {s t : Stream}
    → IsValid cid s
    → t.messages ≡ s.messages
    → t.system_events ≡ s.system_events
    → t.live_messages ≡ s.live_messages
    → t.live_system_events ≡ s.live_system_events
    → t.last_seen_seq ≡ s.last_seen_seq
    → t.last_seq ≡ s.last_seq
    → t.retry_count ≤ max_retries
    → IsValid cid t
same_messages v a b c d e f g = record {
  distinct = rw a v.distinct;
  keyed = rw a v.keyed;
  own = rw a v.own;
  events_distinct = rw b v.events_distinct;
  events_keyed = rw b v.events_keyed;
  published = rw (a, c) v.published;
  events_published = rw (b, d) v.events_published;
  resumable = rw (e, f) v.resumable;
  retries = g;
}

pub reset-IsValid : (cid : Text) → IsValid cid reset
unfolding sort
reset-IsValid cid = record {
  distinct = tt;
  keyed = tt;
  own = tt;
  events_distinct = tt;
  events_keyed = tt;
  published = refl;
  events_published = refl;
  resumable = refl;
  retries = omega arith;
}

module _ (parse_date : Text → Date) (cid : Text) where
  put-IsValid :
      (id : Text) (m : Message) (s : Stream)
      → m.id ≡ id
      → IsOwn cid m
      → IsValid cid s
      → IsValid cid (put parse_date cid id m s)
  unfolding flush
  put-IsValid id m s p o v = record {
    distinct = set-IsDistinct id m s.messages v.distinct;
    keyed = set-IsKeyed (λ (m : Message). m.id) id m s.messages p v.keyed;
    own = All-set (IsOwn cid) id m s.messages v.own o;
    events_distinct = v.events_distinct;
    events_keyed = v.events_keyed;
    published = refl;
    events_published = v.events_published;
    resumable = v.resumable;
    retries = v.retries;
  }

  append_to-IsOwn :
      (seq : ℕ) (id content timestamp : Text) (o : Option Message) (s : Stream)
      → JsMap.get id s.messages ≡ o
      → IsValid cid s
      → IsValid cid (put parse_date cid id (append_to parse_date cid seq id content timestamp o) s)
  append_to-IsOwn seq id content timestamp none s e v =
      put-IsValid id _ s refl (record { conversation = refl; coherent = refl }) v
  append_to-IsOwn seq id content timestamp (some m) s e v =
      let o = All-get (IsOwn cid) id s.messages v.own e in
      put-IsValid id _ s (get-IsKeyed (λ (m : Message). m.id) id s.messages v.keyed e)
        (record { conversation = o.conversation; coherent = o.coherent }) v

  close-IsValid :
      (complete : Bool) (id : Text) (o : Option Message) (s : Stream)
      → JsMap.get id s.messages ≡ o
      → IsValid cid s
      → IsValid cid (close parse_date cid complete id o s)
  close-IsValid complete id none s e v = v
  close-IsValid complete id (some m) s e v =
      let o = All-get (IsOwn cid) id s.messages v.own e in
      put-IsValid id _ s (get-IsKeyed (λ (m : Message). m.id) id s.messages v.keyed e)
        (record { conversation = o.conversation; coherent = refl }) v

  membership-IsValid :
      (clock : Clock) (seq : ℕ) (kind : MembershipKind) (p : MembershipPayload) (s : Stream)
      → IsValid cid s
      → IsValid cid (membership parse_date cid clock seq kind p s)
  unfolding membership flush_system
  membership-IsValid clock seq kind p s v = record {
    distinct = v.distinct;
    keyed = v.keyed;
    own = v.own;
    events_distinct = set-IsDistinct seq _ s.system_events v.events_distinct;
    events_keyed =
        set-IsKeyed (λ (e : SystemEvent). e.seq) seq _ s.system_events refl v.events_keyed;
    published = v.published;
    events_published = refl;
    resumable = v.resumable;
    retries = v.retries;
  }

  handle-IsValid :
      (clock : Clock) (seq : ℕ) (p : Payload) (s : Stream)
      → IsValid cid s
      → IsValid cid (handle parse_date cid clock seq p s)
  unfolding handle
  handle-IsValid clock seq (started p) s v =
      put-IsValid p.message_id _ s refl (record { conversation = refl; coherent = refl }) v
  handle-IsValid clock seq (appended p) s v =
      append_to-IsOwn seq p.message_id p.content p.timestamp (JsMap.get p.message_id s.messages) s
        refl v
  handle-IsValid clock seq (ended p) s v =
      close-IsValid true p.message_id (JsMap.get p.message_id s.messages) s refl v
  handle-IsValid clock seq (aborted p) s v =
      close-IsValid false p.message_id (JsMap.get p.message_id s.messages) s refl v
  handle-IsValid clock seq (joined p) s v = membership-IsValid clock seq _ p s v
  handle-IsValid clock seq (left p) s v = membership-IsValid clock seq _ p s v

  pub on_frame-IsValid :
      (clock : Clock) (f : Frame) (s : Stream)
      → IsValid cid s
      → IsValid cid (on_frame parse_date cid clock f s)
  unfolding on_frame
  on_frame-IsValid clock f s v =
      if-both (IsValid cid) s.cancelled (λ _. v)
        (λ _. handle-IsValid clock f.seq f.payload _ (record {
          distinct = v.distinct;
          keyed = v.keyed;
          own = v.own;
          events_distinct = v.events_distinct;
          events_keyed = v.events_keyed;
          published = v.published;
          events_published = v.events_published;
          resumable = refl;
          retries = v.retries;
        }))

on_open-IsValid : (cid : Text) (s : Stream) → IsValid cid s → IsValid cid (on_open s)
unfolding on_open
on_open-IsValid cid s v =
    if-both (IsValid cid) s.cancelled (λ _. v)
      (λ _. same_messages v refl refl refl refl refl refl (omega arith))

on_error-IsValid :
    (cid : Text) (e : Failure) (s : Stream) → IsValid cid s → IsValid cid (on_error e s).0
unfolding on_error
on_error-IsValid cid e s v =
    if-both (λ (r : Stream × List Effect). IsValid cid r.0) s.cancelled (λ _. v)
      λ _.
        if-both (λ (r : Stream × List Effect). IsValid cid r.0) (leb max_retries s.retry_count)
          (λ _. same_messages v refl refl refl refl refl refl v.retries)
          (λ more. same_messages v refl refl refl refl refl refl (ground arith))

connect-IsValid : (cid : Text) (s : Stream) → IsValid cid s → IsValid cid (connect s).0
unfolding connect
connect-IsValid cid s v =
    if-both (λ (r : Stream × List Effect). IsValid cid r.0) s.cancelled (λ _. v)
      (λ _. same_messages v refl refl refl refl refl refl v.retries)

on_timer-IsValid : (cid : Text) (s : Stream) → IsValid cid s → IsValid cid (on_timer s).0
unfolding on_timer
on_timer-IsValid cid s v =
    connect-IsValid cid _ (same_messages v refl refl refl refl refl refl v.retries)

cleanup-IsValid : (cid : Text) (s : Stream) → IsValid cid s → IsValid cid (cleanup s).0
unfolding cleanup
cleanup-IsValid cid s v = same_messages v refl refl refl refl refl refl v.retries

module _ (parse_date : Text → Date) (cid : Text) where
  step-IsValid : (e : Event) (s : Stream) → IsValid cid s → IsValid cid (step parse_date cid e s)
  step-IsValid opened s v = on_open-IsValid cid s v
  step-IsValid (framed clock f) s v = on_frame-IsValid parse_date cid clock f s v
  step-IsValid (failed e) s v = on_error-IsValid cid e s v
  step-IsValid timer s v = on_timer-IsValid cid s v
  step-IsValid cleaned s v = cleanup-IsValid cid s v

  pub steps-IsValid_from :
      (es : List Event) (s : Stream) → IsValid cid s → IsValid cid (steps parse_date cid es s)
  steps-IsValid_from [] s v = v
  steps-IsValid_from (e ∷ es) s v =
      steps-IsValid_from es (step parse_date cid e s) (step-IsValid e s v)

  pub run_effect-IsValid : (c : Option Text) → IsValid cid (run_effect c).0
  unfolding run_effect
  run_effect-IsValid none = reset-IsValid cid
  run_effect-IsValid (some []) = reset-IsValid cid
  run_effect-IsValid (some (c ∷ t)) = connect-IsValid cid reset (reset-IsValid cid)

  -- From the start of the effect, after any callbacks in any order, the state is valid: the map
  -- holds each message once and under its own id, for this conversation and never both streaming
  -- and complete; each system event once and under its number; what is published is what the maps
  -- hold, sorted; the number to resume from is the one shown; at most `MAX_RETRIES` are counted.
  pub steps-IsValid :
      (es : List Event) → IsValid cid (steps parse_date cid es (run_effect (some cid)).0)
  steps-IsValid es = steps-IsValid_from es _ (run_effect-IsValid (some cid))
