-- ===== src/Tests/Flash.antt =====
-- A counter that goes up twice, and one that goes up and down.
use agentchat_take_home.Base.{◌≡◌, true, false, [], ◌∷◌, arith}
use agentchat_take_home.Flash.{mount}
use agentchat_take_home.Flash.Ends.{changed, expired, flash_steps, flash_steps_lem}

flash_steps_lem_example :
    ((flash_steps (changed 3 ∷ expired ∷ changed 4 ∷ []) (mount 2)).flashing
      ≡ (flash_steps (changed 3 ∷ expired ∷ changed 4 ∷ []) (mount 2)).timer)
    × (flash_steps (changed 5 ∷ changed 1 ∷ []) (mount 1)
        ≡ record { prev = 1; flashing = true; timer = false })
flash_steps_lem_example =
    flash_steps_lem (changed 3 ∷ expired ∷ changed 4 ∷ []) 2 1 5 (omega arith, (omega arith, tt))
      (omega arith)
