-- ===== src/App/Screen/Active.antt =====
-- App.tsx and ConversationSidebar.tsx: how the sidebar shows the conversation that is open.
use agentchat_take_home.Base.{
  ℕ, Text, Bool, true, false, List, [], ◌∷◌, map, none, some, ◌≡◌, ◌≢◌, refl, sym, ap, ◌∙◌, All,
  select, Bool-cases, inl, inr, if-both, subst, ◌==◌, text_eq, text_beq_iff,
}
use agentchat_take_home.Types.Ui.{Conversation}
use agentchat_take_home.App.Heads.{Heads, is_unread, unread_ids}
use agentchat_take_home.App.Heads.Viewed.{collect-absent}
use agentchat_take_home.ConversationSidebar.{
  has, new, ConvItem, badge, marker, conv_item, conversation_sidebar,
}

not_unread :
    (id : Text) (h : Heads) (cs : List Conversation)
    → All (λ c. is_unread (some id) h c ≡ false) (select (λ (c : Conversation). c.id == id) cs)
not_unread id h [] = tt
not_unread id h (c ∷ cs) = elim (Bool-cases (c.id == id)) [
  | inl same ↦ rw same (rw same refl, not_unread id h cs)
  | inr other ↦ rw other (not_unread id h cs)
]

badge-not_new : (streams : Bool) (n : ℕ) → badge streams false n ≢ new
badge-not_new true n e = cc (e)
badge-not_new false n e = cc (e)

marker-active : (streams is_unread : Bool) → marker true streams is_unread ≡ none
marker-active true is_unread = refl
marker-active false true = refl
marker-active false false = refl

module _ (id : Text) (streaming unread : List Text) where
  abbrev item : Conversation → ConvItem
  item c = conv_item c (c.id == id) (has c.id streaming) (has c.id unread)

  abbrev pub IsPlain : ConvItem → Type 0
  IsPlain i = (i.marker ≡ none) × (i.badge ≢ new)

  item-IsPlain : (c : Conversation) → has id unread ≡ false → (c.id == id) ≡ true → IsPlain (item c)
  unfolding conv_item
  item-IsPlain c h same =
      let read : has c.id unread ≡ false =
        ap (λ k. has k unread) ((text_beq_iff c.id id).0 same) ∙ h in
      (
        ap (λ b. marker b (has c.id streaming) (has c.id unread)) same
            ∙ marker-active (has c.id streaming) (has c.id unread),
        subst (λ u. badge (has c.id streaming) u c.head_seq ≢ new) (sym read)
            (badge-not_new (has c.id streaming) c.head_seq),
      )

  items-IsPlain :
      (cs : List Conversation)
      → has id unread ≡ false
      → All IsPlain (select (λ (i : ConvItem). i.id == id) (map item cs))
  unfolding conv_item
  items-IsPlain [] h = tt
  items-IsPlain (c ∷ cs) h =
      if-both (All IsPlain) (c.id == id) (λ same. (item-IsPlain c h same, items-IsPlain cs h))
        (λ _. items-IsPlain cs h)

-- In the sidebar that gets the unread ones of the root component, the conversation that is open has
-- no marker at its edge, and its badge does not say that it is new.
pub conversation_sidebar-active :
    (id : Text) (streaming : List Text) (h : Heads) (cs : List Conversation)
    → let unread = unread_ids (some id) h cs in
      All
        (IsPlain id streaming unread)
        (select (λ (i : ConvItem). i.id == id) (conversation_sidebar cs id streaming unread).1)
unfolding conversation_sidebar unread_ids
conversation_sidebar-active id streaming h cs =
    items-IsPlain id streaming (unread_ids (some id) h cs) _
      (collect-absent id (is_unread (some id) h) cs [] refl (not_unread id h cs))
