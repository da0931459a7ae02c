-- ===== src/MessageFeed/Scroll/Undisturbed.antt =====
-- A reader who has scrolled up is left alone, and one at the bottom follows the feed.
use agentchat_take_home.Base.{
  ℕ, suc, ◌+◌, Text, Bool, true, false, List, [], ◌∷◌, ◌++◌, some, ◌≡◌, refl, sym, ap, ◌∙◌, arith,
  ◌==◌, ==_refl, nat_eq, text_eq, if◌then◌else◌, ltb, replicate, Bool-cases, inl, inr,
}
use agentchat_take_home.MessageFeed.Scroll.{
  Behavior, smooth, instant, Scroll, has_followed, has_jumped, follow, jump, draw, handle_scroll,
}

-- Renderings of one conversation, each with its feed.
abbrev pub draws : Text → List ℕ → Scroll → List Behavior
draws cid [] s = []
draws cid (feed ∷ feeds) s = let r = draw feed cid s in r.1 ++ draws cid feeds r.0

-- How often the feed is another one than in the rendering before.
abbrev pub changes : ℕ → List ℕ → ℕ
changes old [] = 0
changes old (feed ∷ feeds) = let rest = changes feed feeds in if feed == old then rest else suc rest

jump-again : (cid : Text) (s : Scroll) → s.jumped ≡ some cid → jump cid s ≡ (s, [])
unfolding jump
jump-again cid s h =
    ap (λ b. if b then (s, []) else (record s { jumped = some cid }, instant ∷ []))
      (ap (has_jumped cid) h ∙ ==_refl cid)

-- Away from the bottom, the effect on the feed may run, but it does not scroll.
follow-away :
    (feed : ℕ) (s : Scroll)
    → s.is_at_bottom ≡ false
    → (t : Scroll) × (follow feed s ≡ (t, [])) × (t.is_at_bottom ≡ false) × (t.jumped ≡ s.jumped)
unfolding follow
follow-away feed s away = elim (Bool-cases (has_followed feed s.is_at_bottom s.followed)) [
  | inl known ↦ (s, ground arith, away, refl)
  | inr fresh ↦ (record s { followed = some (feed, s.is_at_bottom) }, ground arith, away, refl)
]

follow-bottom :
    (feed old : ℕ) (s : Scroll)
    → s.is_at_bottom ≡ true
    → s.followed ≡ some (old, true)
    → follow feed s
      ≡ (record s { followed = some (feed, true) }, if feed == old then [] else smooth ∷ [])
unfolding follow
follow-bottom feed old s bottom h = elim (Bool-cases (feed == old)) [
  | inl same ↦ ground arith
  | inr other ↦ ground arith
]

draws_away :
    (cid : Text) (feeds : List ℕ) (s : Scroll)
    → s.is_at_bottom ≡ false
    → s.jumped ≡ some cid
    → draws cid feeds s ≡ []
unfolding draw
draws_away cid [] s away h = refl
draws_away cid (feed ∷ feeds) s away h =
    let (t, e, still, same) = follow-away feed s away in
    let j = jump-again cid t (same ∙ h) in
    ap
      (λ (r : Scroll × List Behavior).
        let second = jump cid r.0 in (r.1 ++ second.1) ++ draws cid feeds second.0)
      e
    ∙ ap (λ (r : Scroll × List Behavior). r.1 ++ draws cid feeds r.0) j
    ∙ draws_away cid feeds t still (same ∙ h)

smooth-replicate :
    (b : Bool) (n : ℕ)
    → ((if b then [] else smooth ∷ []) ++ []) ++ replicate n smooth
      ≡ replicate (if b then n else suc n) smooth
smooth-replicate true n = refl
smooth-replicate false n = refl

draws_bottom :
    (cid : Text) (feeds : List ℕ) (old : ℕ) (s : Scroll)
    → s.is_at_bottom ≡ true
    → s.followed ≡ some (old, true)
    → s.jumped ≡ some cid
    → draws cid feeds s ≡ replicate (changes old feeds) smooth
unfolding draw
draws_bottom cid [] old s bottom f h = refl
draws_bottom cid (feed ∷ feeds) old s bottom f h =
    let t : Scroll = record s { followed = some (feed, true) } in
    let j = jump-again cid t h in
    let scrolled : List Behavior = if feed == old then [] else smooth ∷ [] in
    ap
      (λ (r : Scroll × List Behavior).
        let second = jump cid r.0 in (r.1 ++ second.1) ++ draws cid feeds second.0)
      (follow-bottom feed old s bottom f)
    ∙ ap (λ (r : Scroll × List Behavior). (scrolled ++ r.1) ++ draws cid feeds r.0) j
    ∙ ap (λ l. (scrolled ++ []) ++ l) (draws_bottom cid feeds feed t bottom refl h)
    ∙ smooth-replicate (feed == old) (changes feed feeds)

-- The effect has run last at the bottom, for the feed `old`; then comes a scroll event, and
-- renderings of the conversation that is shown already. If less than 80 pixels are below what the
-- reader sees, there is one smooth scroll for each change of the feed, and no other; if there are
-- 80 or more, nothing scrolls, whatever the feeds.
pub draws-handle_scroll :
    (height top client old : ℕ) (cid : Text) (feeds : List ℕ) (s : Scroll)
    → s.jumped ≡ some cid
    → s.followed ≡ some (old, true)
    → draws cid feeds (handle_scroll height top client s)
      ≡ replicate (if ltb height (80 + top + client) then changes old feeds else 0) smooth
unfolding handle_scroll
draws-handle_scroll height top client old cid feeds s h f =
    let near = ltb height (80 + top + client) in
    let count : Bool → List Behavior = λ b. replicate (if b then changes old feeds else 0) smooth in
    elim (Bool-cases near) [
      | inl below ↦ draws_bottom cid feeds old _ below f h ∙ sym (ap count below)
      | inr above ↦ draws_away cid feeds _ above h ∙ sym (ap count above)
    ]
