-- ===== src/App/Invalidation/Live.antt =====
-- Frames of the stream, and the queries that they invalidate.
use agentchat_take_home.Base.{
  ℕ, Text, Bool, true, false, not, ◌&&◌, List, [], ◌∷◌, ◌++◌, Option, none, some, ◌≡◌, refl, sym,
  ap, ◌∙◌, ◌==◌, ==_refl, nat_eq, text_eq, if◌then◌else◌, Bool-cases, inl, inr,
}
use agentchat_take_home.Queries.{conversations_query_key, messages_key}
use agentchat_take_home.Types.Payload.{Payload, started, appended, ended, aborted, joined, left}
use agentchat_take_home.Types.Ui.{Date, Message}
use agentchat_take_home.Stream.{
  Stream, Frame, Clock, flush, flush_system, put, close, membership, handle, on_frame,
}
use agentchat_take_home.Stream.Kept.{seen, on_frame-handle, on_frame-Kept}
use agentchat_take_home.App.Invalidation.{Deps, invalidate, same_deps, commit}

abbrev pub is_membership : Payload → Bool
is_membership (joined p) = true
is_membership (left p) = true
is_membership _ = false

-- The value of `agentMembershipChangedAt` behind a frame.
abbrev changed_by : Clock → Payload → ℕ → ℕ
changed_by clock p old = if is_membership p then clock.changed_at else old

-- A frame that changes the members, at a time that is neither 0 nor that of the change before.
abbrev pub is_signal : Clock → Payload → ℕ → Bool
is_signal clock p old =
    is_membership p && (not (clock.changed_at == old) && not (clock.changed_at == 0))

-- The keys of both hooks, once for each signal.
abbrev pub refreshed : Text → ℕ → List (Clock × Frame) → List (List Text)
refreshed cid old [] = []
refreshed cid old ((clock, f) ∷ fs) =
    let rest = refreshed cid (changed_by clock f.payload old) fs in
    if is_signal clock f.payload old
    then conversations_query_key ∷ messages_key (some cid) ∷ rest
    else rest

abbrev deps : ℕ → Text → Deps
deps n cid = record { changed_at = n; active = some cid }

abbrev keys_of : Text → Bool → List (List Text)
keys_of cid true = conversations_query_key ∷ messages_key (some cid) ∷ []
keys_of cid false = []

and_true : (b : Bool) → (b && true) ≡ b
and_true true = refl
and_true false = refl

same_deps-deps : (m n : ℕ) (cid : Text) → same_deps (deps m cid) (deps n cid) ≡ (m == n)
same_deps-deps m n cid = ap (◌&&◌ (m == n)) (==_refl cid) ∙ and_true (m == n)

invalidate-deps :
    (n c : ℕ) (name : Text) → invalidate (deps n (c ∷ name)) ≡ keys_of (c ∷ name) (not (n == 0))
unfolding invalidate
invalidate-deps n c name = elim (Bool-cases (n == 0)) [
  | inl nothing ↦ rw nothing refl
  | inr something ↦ rw something refl
]

commit-deps :
    (new old : ℕ) (c : ℕ) (name : Text)
    → commit (deps new (c ∷ name)) (some (deps old (c ∷ name)))
      ≡ (deps new (c ∷ name), keys_of (c ∷ name) (not (new == old) && not (new == 0)))
unfolding commit invalidate
commit-deps new old c name =
    let cid = c ∷ name in
    let decided : Bool → Deps × List (List Text) =
      λ b. if b then (deps old cid, []) else (deps new cid, invalidate (deps new cid)) in
    let pick : Bool → Bool → Deps × List (List Text) =
      λ a b. (deps new cid, keys_of cid (not a && not b)) in
    ap decided (same_deps-deps new old cid) ∙ elim (Bool-cases (new == old)) [
      | inl same ↦
          ap decided same
          ∙ ap (λ n. (deps n cid, [])) (sym ((nat_eq.same_iff new old).0 same))
          ∙ sym (ap (λ a. pick a (new == 0)) same)
      | inr other ↦
          ap decided other
          ∙ ap (λ ks. (deps new cid, ks)) (invalidate-deps new c name)
          ∙ sym (ap (λ a. pick a (new == 0)) other)
    ]

unsignalled : (n : ℕ) → (not (n == n) && not (n == 0)) ≡ false
unsignalled n = ap (λ b. not b && not (n == 0)) (==_refl n)

signal-changed :
    (clock : Clock) (p : Payload) (old : ℕ)
    → (not (changed_by clock p old == old) && not (changed_by clock p old == 0))
      ≡ is_signal clock p old
signal-changed clock (joined p) old = refl
signal-changed clock (left p) old = refl
signal-changed clock (started p) old = unsignalled old
signal-changed clock (appended p) old = unsignalled old
signal-changed clock (ended p) old = unsignalled old
signal-changed clock (aborted p) old = unsignalled old

keys_of-append :
    (cid : Text) (b : Bool) (rest : List (List Text))
    → keys_of cid b ++ rest
      ≡ (if b then conversations_query_key ∷ messages_key (some cid) ∷ rest else rest)
keys_of-append cid true rest = refl
keys_of-append cid false rest = refl

module _ (parse_date : Text → Date) (cid : Text) where
  put-changed_at :
      (k : Text) (m : Message) (s : Stream)
      → (put parse_date cid k m s).agent_membership_changed_at ≡ s.agent_membership_changed_at
  unfolding flush
  put-changed_at k m s = refl

  close-changed_at :
      (complete : Bool) (k : Text) (o : Option Message) (s : Stream)
      → (close parse_date cid complete k o s).agent_membership_changed_at
        ≡ s.agent_membership_changed_at
  close-changed_at complete k none s = refl
  close-changed_at complete k (some m) s = put-changed_at k _ s

  handle-changed_at :
      (clock : Clock) (seq : ℕ) (p : Payload) (s : Stream)
      → (handle parse_date cid clock seq p s).agent_membership_changed_at
        ≡ changed_by clock p s.agent_membership_changed_at
  unfolding handle membership flush_system
  handle-changed_at clock seq (started p) s = put-changed_at _ _ s
  handle-changed_at clock seq (appended p) s = put-changed_at _ _ s
  handle-changed_at clock seq (ended p) s = close-changed_at true _ _ s
  handle-changed_at clock seq (aborted p) s = close-changed_at false _ _ s
  handle-changed_at clock seq (joined p) s = refl
  handle-changed_at clock seq (left p) s = refl

  on_frame-changed_at :
      (clock : Clock) (f : Frame) (s : Stream)
      → s.cancelled ≡ false
      → (on_frame parse_date cid clock f s).agent_membership_changed_at
        ≡ changed_by clock f.payload s.agent_membership_changed_at
  on_frame-changed_at clock f s live =
      ap (λ (t : Stream). t.agent_membership_changed_at)
        (on_frame-handle parse_date cid clock f s live)
      ∙ handle-changed_at clock f.seq f.payload (seen f.seq s)

  -- Frames, with a rendering behind each: the keys that are invalidated.
  abbrev pub live_commits :
      Option Text → List (Clock × Frame) → Stream → Option Deps → List (List Text)
  live_commits active [] s ran = []
  live_commits active ((clock, f) ∷ fs) s ran =
      let t = on_frame parse_date cid clock f s in
      let result =
        commit (record { changed_at = t.agent_membership_changed_at; active = active }) ran in
      result.1 ++ live_commits active fs t (some result.0)

  -- The hook and the effect start with the same `agentMembershipChangedAt`, and the effect has run
  -- for the conversation that is shown, whose id is not empty; then frames arrive, with a rendering
  -- behind each. The query of `useConversations` and then that of `useMessages` for this
  -- conversation are invalidated once for each frame that changes the members, at a time that is
  -- not 0 and not that of the change before, and never for the tokens of messages.
  pub live_commits-refreshed :
      (fs : List (Clock × Frame)) (s : Stream) (c : ℕ) (name : Text)
      → s.cancelled ≡ false
      → live_commits
          (some (c ∷ name))
          fs
          s
          (some (record { changed_at = s.agent_membership_changed_at; active = some (c ∷ name) }))
        ≡ refreshed (c ∷ name) s.agent_membership_changed_at fs
  live_commits-refreshed [] s c name live = refl
  live_commits-refreshed ((clock, f) ∷ fs) s c name live =
      let shown = c ∷ name in
      let old = s.agent_membership_changed_at in
      let t = on_frame parse_date cid clock f s in
      let new = t.agent_membership_changed_at in
      ap (λ (r : Deps × List (List Text)). r.1 ++ live_commits (some shown) fs t (some r.0))
        (commit-deps new old c name)
      ∙ ap (◌++◌ (keys_of shown (not (new == old) && not (new == 0)))) (
          live_commits-refreshed fs t c name
            ((on_frame-Kept parse_date cid clock f s).cancelled ∙ live))
      ∙ ap (λ n. keys_of shown (not (n == old) && not (n == 0)) ++ refreshed shown n fs)
          (on_frame-changed_at clock f s live)
      ∙ ap (λ b. keys_of shown b ++ refreshed shown (changed_by clock f.payload old) fs)
          (signal-changed clock f.payload old)
      ∙ keys_of-append shown (is_signal clock f.payload old) _
