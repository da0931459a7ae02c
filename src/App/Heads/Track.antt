-- ===== src/App/Heads/Track.antt =====
-- How polls and views change what is known of one conversation.
use agentchat_take_home.Base.{
  ℕ, ◌≤◌, Text, false, List, [], ◌∷◌, Option, none, some, ◌==◌, text_eq, if◌then◌else◌, ltb, get_or,
  ◌≡◌, refl, sym, subst, arith, Option-cases, Bool-cases, inl, inr, text_beq_iff,
}
use agentchat_take_home.JsMap
use agentchat_take_home.JsMap.{Map}
use agentchat_take_home.JsMap.Laws.{get-set, get-set_self}
use agentchat_take_home.Types.Ui.{Conversation}
use agentchat_take_home.App.Heads.{
  Heads, see_from, see, poll, view_to, view, HeadEvent, polled, viewed, head_steps,
}

-- The head and the viewed number of one conversation.
abbrev pub Track : Type 0
Track = Option ℕ × Option ℕ

abbrev pub track : Text → Heads → Track
track id h = (JsMap.get id h.last_seen_seq, JsMap.get id h.viewed_seq)

abbrev see_at : ℕ → Track → Track
see_at n (none, w) = (some n, some (get_or w n))
see_at n (some p, w) = if ltb p n then (some n, w) else (some p, w)

abbrev pub view_at : Track → Track
view_at (none, w) = (none, w)
view_at (some p, w) = (some p, some p)

track-see_self :
    (o : Option ℕ) (now : ℕ) (c : Conversation) (h : Heads)
    → JsMap.get c.id h.last_seen_seq ≡ o
    → track c.id (see_from o now c h) ≡ see_at c.head_seq (o, JsMap.get c.id h.viewed_seq)
track-see_self none now c h e = elim (Option-cases (JsMap.get c.id h.viewed_seq)) [
  | inl missing ↦
      rw missing (
        rw
          (get-set_self c.id c.head_seq h.last_seen_seq, get-set_self c.id c.head_seq h.viewed_seq))
  | inr (v, there) ↦ rw there (rw (get-set_self c.id c.head_seq h.last_seen_seq, there))
]
track-see_self (some p) now c h e = elim (Bool-cases (ltb p c.head_seq)) [
  | inl newer ↦ rw newer (rw (get-set_self c.id c.head_seq h.last_seen_seq))
  | inr older ↦ rw older (rw e)
]

track-see_other :
    (id : Text) (o : Option ℕ) (now : ℕ) (c : Conversation) (h : Heads)
    → (c.id == id) ≡ false
    → track id (see_from o now c h) ≡ track id h
track-see_other id none now c h other = elim (Option-cases (JsMap.get c.id h.viewed_seq)) [
  | inl missing ↦ rw missing (
      rw (
        get-set c.id id c.head_seq h.last_seen_seq,
        get-set c.id id c.head_seq h.viewed_seq,
        other,
      ))
  | inr (v, there) ↦ rw there (rw (get-set c.id id c.head_seq h.last_seen_seq, other))
]
track-see_other id (some p) now c h other = elim (Bool-cases (ltb p c.head_seq)) [
  | inl newer ↦ rw newer (rw (get-set c.id id c.head_seq h.last_seen_seq, other))
  | inr older ↦ rw older
]

-- One conversation of a poll changes the track of its id only.
track-see :
    (P : Track → Type 0) (id : Text) (now : ℕ) (c : Conversation) (h : Heads)
    → P (see_at c.head_seq (track id h))
    → P (track id h)
    → P (track id (see now c h))
unfolding see
track-see P id now c h p q = elim (Bool-cases (c.id == id)) [
  | inl same ↦
      subst (λ k. P (see_at c.head_seq (track k h)) → P (track k (see now c h)))
        ((text_beq_iff c.id id).0 same)
        (subst P (sym (track-see_self (JsMap.get c.id h.last_seen_seq) now c h refl))) p
  | inr other ↦ subst P (sym (track-see_other id (JsMap.get c.id h.last_seen_seq) now c h other)) q
]

pub track-view_self :
    (k : Text) (n : ℕ) (h : Heads)
    → JsMap.get k h.last_seen_seq ≡ some n
    → track k (view_to k (some n) h) ≡ view_at (track k h)
track-view_self k n h e = rw (get-set_self k n h.viewed_seq, e)

track-view_other :
    (id k : Text) (n : ℕ) (h : Heads)
    → (k == id) ≡ false
    → track id (view_to k (some n) h) ≡ track id h
track-view_other id k n h other = rw (get-set k id n h.viewed_seq, other)

track-view_to :
    (P : Track → Type 0) (id k : Text) (o : Option ℕ) (h : Heads)
    → JsMap.get k h.last_seen_seq ≡ o
    → P (view_at (track id h))
    → P (track id h)
    → P (track id (view_to k o h))
track-view_to P id k none h e p q = q
track-view_to P id k (some n) h e p q = elim (Bool-cases (k == id)) [
  | inl same ↦
      subst (λ j. P (view_at (track j h)) → P (track j (view_to k (some n) h)))
        ((text_beq_iff k id).0 same) (subst P (sym (track-view_self k n h e))) p
  | inr other ↦ subst P (sym (track-view_other id k n h other)) q
]

-- A head is known exactly where a viewed number is, which is not beyond it.
abbrev pub IsTracked : Track → Type 0
IsTracked (none, none) = Unit
IsTracked (some n, some v) = v ≤ n
IsTracked _ = ⊥

abbrev pub IsViewed : ℕ → Track → Type 0
IsViewed n (o, none) = ⊥
IsViewed n (o, some v) = n ≤ v

see_at-IsTracked : (n : ℕ) (t : Track) → IsTracked t → IsTracked (see_at n t)
see_at-IsTracked n (none, none) h = omega arith
see_at-IsTracked n (some p, some v) h = ground arith
see_at-IsTracked n (none, some v) h = absurd h
see_at-IsTracked n (some p, none) h = absurd h

pub view_at-IsTracked : (t : Track) → IsTracked t → IsTracked (view_at t)
view_at-IsTracked (none, none) h = h
view_at-IsTracked (some p, some v) h = omega arith
view_at-IsTracked (none, some v) h = absurd h
view_at-IsTracked (some p, none) h = absurd h

see_at-IsViewed : (n m : ℕ) (t : Track) → IsViewed n t → IsViewed n (see_at m t)
see_at-IsViewed n m (none, some v) h = h
see_at-IsViewed n m (some p, some v) h = ground arith
see_at-IsViewed n m (o, none) h = absurd h

view_at-IsViewed : (n : ℕ) (t : Track) → IsTracked t → IsViewed n t → IsViewed n (view_at t)
view_at-IsViewed n (none, none) i h = absurd h
view_at-IsViewed n (some p, some v) i h = omega (arith, i, h)
view_at-IsViewed n (none, some v) i h = h
view_at-IsViewed n (some p, none) i h = absurd h

module _ (id : Text) where
  pub track-view :
      (P : Track → Type 0) (active : Option Text) (h : Heads)
      → P (view_at (track id h))
      → P (track id h)
      → P (track id (view active h))
  unfolding view
  track-view P none h p q = q
  track-view P (some []) h p q = q
  track-view P (some (c ∷ t)) h p q =
      track-view_to P id (c ∷ t) (JsMap.get (c ∷ t) h.last_seen_seq) h refl p q

  poll-IsTracked :
      (now : ℕ) (cs : List Conversation) (h : Heads)
      → IsTracked (track id h)
      → IsTracked (track id (poll now cs h))
  poll-IsTracked now [] h i = i
  poll-IsTracked now (c ∷ cs) h i =
      poll-IsTracked now cs (see now c h)
        (track-see IsTracked id now c h (see_at-IsTracked c.head_seq (track id h) i) i)

  poll-IsViewed :
      (n now : ℕ) (cs : List Conversation) (h : Heads)
      → IsViewed n (track id h)
      → IsViewed n (track id (poll now cs h))
  poll-IsViewed n now [] h i = i
  poll-IsViewed n now (c ∷ cs) h i =
      poll-IsViewed n now cs (see now c h)
        (track-see (IsViewed n) id now c h (see_at-IsViewed n c.head_seq (track id h) i) i)

  pub head_steps-IsTracked :
      (es : List HeadEvent) (h : Heads)
      → IsTracked (track id h)
      → IsTracked (track id (head_steps es h))
  head_steps-IsTracked [] h i = i
  head_steps-IsTracked (polled now cs ∷ es) h i =
      head_steps-IsTracked es (poll now cs h) (poll-IsTracked now cs h i)
  head_steps-IsTracked (viewed active ∷ es) h i =
      head_steps-IsTracked es (view active h)
        (track-view IsTracked active h (view_at-IsTracked (track id h) i) i)

  pub head_steps-IsViewed :
      (n : ℕ) (es : List HeadEvent) (h : Heads)
      → IsTracked (track id h)
      → IsViewed n (track id h)
      → IsViewed n (track id (head_steps es h))
  head_steps-IsViewed n [] h i v = v
  head_steps-IsViewed n (polled now cs ∷ es) h i v =
      head_steps-IsViewed n es (poll now cs h) (poll-IsTracked now cs h i)
        (poll-IsViewed n now cs h v)
  head_steps-IsViewed n (viewed active ∷ es) h i v =
      head_steps-IsViewed n es (view active h)
        (track-view IsTracked active h (view_at-IsTracked (track id h) i) i)
        (track-view (IsViewed n) active h (view_at-IsViewed n (track id h) i v) v)
