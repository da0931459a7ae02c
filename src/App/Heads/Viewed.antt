-- ===== src/App/Heads/Viewed.antt =====
-- What the badges say of a conversation that was viewed.
use agentchat_take_home.Base.{
  ℕ, ◌≤◌, Text, Bool, false, List, [], ◌∷◌, ◌++◌, Option, some, ◌==◌, text_eq, if◌then◌else◌, any,
  select, if-both, ◌≡◌, refl, sym, subst, arith, Option-cases, Bool-cases, inl, inr, All,
  text_beq_iff,
}
use agentchat_take_home.JsMap
use agentchat_take_home.JsMap.{Map}
use agentchat_take_home.JsMap.Laws.{get-set_self}
use agentchat_take_home.Types.Ui.{Conversation}
use agentchat_take_home.App.Heads.{
  Heads, no_heads, view_to, view, add, is_unread, collect, unread_ids, HeadEvent, head_steps,
}
use agentchat_take_home.App.Heads.Track.{
  track, IsTracked, IsViewed, view_at-IsTracked, track-view, head_steps-IsTracked,
  head_steps-IsViewed,
}

module _ (id : Text) where
  any-append_absent :
      (xs ys : List Text)
      → any (λ i. i == id) xs ≡ false
      → any (λ i. i == id) ys ≡ false
      → any (λ i. i == id) (xs ++ ys) ≡ false
  any-append_absent [] ys h k = k
  any-append_absent (x ∷ xs) ys h k = ground (arith, any-append_absent xs ys)

  add-absent :
      (k : Text) (ids : List Text)
      → (k == id) ≡ false
      → any (λ i. i == id) ids ≡ false
      → any (λ i. i == id) (add k ids) ≡ false
  add-absent k ids other h =
      if-both (λ l. any (λ i. i == id) l ≡ false) (any (λ i. i == k) ids) (λ _. h)
        (λ _. any-append_absent ids (k ∷ []) h (ground arith))

  -- No conversation with this id is collected where the test is false of each.
  pub collect-absent :
      (p : Conversation → Bool) (cs : List Conversation) (ids : List Text)
      → any (λ i. i == id) ids ≡ false
      → All (λ c. p c ≡ false) (select (λ (c : Conversation). c.id == id) cs)
      → any (λ i. i == id) (collect p cs ids) ≡ false
  collect-absent p [] ids a h = a
  collect-absent p (c ∷ cs) ids a h = elim (Bool-cases (c.id == id)) [
    | inl same ↦ let (quiet, rest) = rw same at h in rw quiet (collect-absent p cs ids a rest)
    | inr other ↦
        collect-absent p cs (if p c then add c.id ids else ids)
          (if-both (λ l. any (λ i. i == id) l ≡ false) (p c) (λ _. add-absent c.id ids other a)
            (λ _. a))
          (rw other at h)
  ]

  quiet_of-IsViewed :
      (n : ℕ) (active : Option Text) (h : Heads) (c : Conversation)
      → IsViewed n (track c.id h)
      → c.head_seq ≤ n
      → is_unread active h c ≡ false
  quiet_of-IsViewed n active h c v le = elim (Option-cases (JsMap.get c.id h.viewed_seq)) [
    | inl missing ↦ absurd (subst (λ w. IsViewed n (JsMap.get c.id h.last_seen_seq, w)) missing v)
    | inr (w, there) ↦
        let seen : n ≤ w = subst (λ w. IsViewed n (JsMap.get c.id h.last_seen_seq, w)) there v in
        rw there (ground (arith, seen, le))
  ]

  quiet_list :
      (n : ℕ) (active : Option Text) (h : Heads) (cs : List Conversation)
      → IsViewed n (track id h)
      → All (λ c. c.head_seq ≤ n) (select (λ (c : Conversation). c.id == id) cs)
      → All (λ c. is_unread active h c ≡ false) (select (λ (c : Conversation). c.id == id) cs)
  quiet_list n active h [] v le = tt
  quiet_list n active h (c ∷ cs) v le = elim (Bool-cases (c.id == id)) [
    | inl same ↦
        let (first, rest) = rw same at le in
        rw same (
          quiet_of-IsViewed n active h c
              (subst (λ k. IsViewed n (track k h)) (sym ((text_beq_iff c.id id).0 same)) v) first,
          quiet_list n active h cs v rest,
        )
    | inr other ↦ rw other (quiet_list n active h cs v (rw other at le))
  ]

view-IsViewed :
    (u : ℕ) (t : Text) (n : ℕ) (h : Heads)
    → JsMap.get (u ∷ t) h.last_seen_seq ≡ some n
    → IsViewed n (track (u ∷ t) (view (some (u ∷ t)) h))
unfolding view
view-IsViewed u t n h known =
    subst (λ o. IsViewed n (track (u ∷ t) (view_to (u ∷ t) o h))) (sym known)
      (subst (λ w. IsViewed n (JsMap.get (u ∷ t) h.last_seen_seq, w))
        (sym (get-set_self (u ∷ t) n h.viewed_seq)) (omega arith))

no_heads-IsTracked : (id : Text) → IsTracked (track id no_heads)
unfolding JsMap.get
no_heads-IsTracked id = tt

-- After any polls and views, a conversation is viewed whose head is known as `n`. From then on,
-- whatever is polled and viewed, it is not among the unread ones of a list that shows no head of
-- it beyond `n`.
pub unread_ids-viewed :
    (before later : List HeadEvent) (u : ℕ) (t : Text) (n : ℕ) (active : Option Text)
    (cs : List Conversation)
    → JsMap.get (u ∷ t) (head_steps before no_heads).last_seen_seq ≡ some n
    → All (λ c. c.head_seq ≤ n) (select (λ (c : Conversation). c.id == (u ∷ t)) cs)
    → any
        (λ i. i == (u ∷ t))
        (unread_ids active (head_steps later (view (some (u ∷ t)) (head_steps before no_heads))) cs)
      ≡ false
unfolding unread_ids
unread_ids-viewed before later u t n active cs known le =
    let h = head_steps before no_heads in
    let id = u ∷ t in
    let tracked = head_steps-IsTracked id before no_heads (no_heads-IsTracked id) in
    let v = view (some id) h in
    collect-absent id (is_unread active (head_steps later v)) cs [] refl (
      quiet_list id n active (head_steps later v) cs
        (head_steps-IsViewed id n later v
          (track-view id IsTracked (some id) h (view_at-IsTracked (track id h) tracked) tracked)
          (view-IsViewed u t n h known))
        le)
