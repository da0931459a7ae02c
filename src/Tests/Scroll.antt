-- ===== src/Tests/Scroll.antt =====
-- Renderings of a feed behind scroll events.
use agentchat_take_home.Base.{
  ◌+◌, codes, true, [], ◌∷◌, some, ◌≡◌, refl, if◌then◌else◌, ltb, replicate, text_beq,
}
use agentchat_take_home.MessageFeed.Scroll.{
  Scroll, smooth, instant, mount, draw, follow, jump, handle_scroll,
}
use agentchat_take_home.MessageFeed.Scroll.Undisturbed.{draws, changes, draws-handle_scroll}

-- The first rendering jumps to the bottom behind the smooth scroll.
mount_draws : (draw 1 (codes "c") mount).1 ≡ smooth ∷ instant ∷ []
unfolding draw follow jump
mount_draws = refl

abbrev shown : Scroll
shown = record { is_at_bottom = true; followed = some (1, true); jumped = some (codes "c") }

draws_up : draws (codes "c") (1 ∷ 2 ∷ 3 ∷ []) (handle_scroll 900 400 420 shown) ≡ []
unfolding draw follow jump handle_scroll text_beq
draws_up = refl

draws-handle_scroll_example :
    draws (codes "c") (1 ∷ 2 ∷ 2 ∷ 3 ∷ []) (handle_scroll 900 401 420 shown)
    ≡ replicate (if ltb 900 (80 + 401 + 420) then changes 1 (1 ∷ 2 ∷ 2 ∷ 3 ∷ []) else 0) smooth
draws-handle_scroll_example =
    draws-handle_scroll 900 401 420 1 (codes "c") (1 ∷ 2 ∷ 2 ∷ 3 ∷ []) shown refl refl
