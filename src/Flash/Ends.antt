-- ===== src/Flash/Ends.antt =====
-- When a flash ends.
use agentchat_take_home.Base.{ℕ, ◌<◌, true, false, List, [], ◌∷◌, ◌≡◌, refl, arith, subst, sym}
use agentchat_take_home.Flash.{Flash, mount, change, expire}

pub data FlashEvent : Type 0 where
  changed : ℕ → FlashEvent
  expired : FlashEvent

abbrev pub flash_steps : List FlashEvent → Flash → Flash
flash_steps [] s = s
flash_steps (changed value ∷ es) s = flash_steps es (change value s)
flash_steps (expired ∷ es) s = flash_steps es (expire s)

-- Each new value is beyond the one before.
abbrev pub Increasing : ℕ → List FlashEvent → Type 0
Increasing n [] = Unit
Increasing n (changed value ∷ es) = (n < value) × Increasing value es
Increasing n (expired ∷ es) = Increasing n es

change-timed :
    (value : ℕ) (s : Flash)
    → s.prev < value
    → change value s ≡ record { prev = value; flashing = true; timer = true }
unfolding change
change-timed value s h = ground arith

expire-timed : (s : Flash) → s.flashing ≡ s.timer → (expire s).flashing ≡ (expire s).timer
unfolding expire
expire-timed s h = ground arith

expire-prev : (s : Flash) → (expire s).prev ≡ s.prev
unfolding expire
expire-prev s = ground arith

flash_steps-timed_from :
    (es : List FlashEvent) (s : Flash)
    → s.flashing ≡ s.timer
    → Increasing s.prev es
    → (flash_steps es s).flashing ≡ (flash_steps es s).timer
flash_steps-timed_from [] s h i = h
flash_steps-timed_from (changed value ∷ es) s h (p, i) =
    subst (λ (t : Flash). (flash_steps es t).flashing ≡ (flash_steps es t).timer)
      (sym (change-timed value s p))
      (flash_steps-timed_from es (record { prev = value; flashing = true; timer = true }) refl i)
flash_steps-timed_from (expired ∷ es) s h i =
    flash_steps-timed_from es (expire s) (expire-timed s h) (rw (expire-prev s) i)

-- Where the values only increase, the value flashes exactly while the timer that ends the flash is
-- set. A value that increases and returns before the timer has run flashes with no timer.
pub flash_steps_lem :
    (es : List FlashEvent) (value low high : ℕ)
    → Increasing value es
    → low < high
    → ((flash_steps es (mount value)).flashing ≡ (flash_steps es (mount value)).timer)
      × (flash_steps (changed high ∷ changed low ∷ []) (mount low)
          ≡ record { prev = low; flashing = true; timer = false })
unfolding change
flash_steps_lem es value low high i h =
    (flash_steps-timed_from es (mount value) refl i, ground arith)
