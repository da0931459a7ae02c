-- ===== src/Flash.antt =====
-- `useIncrementFlash` of artifacts/agentmail-ui/src/components/ConversationHeader.tsx, which
-- MemberList.tsx has as well: the value flashes for a while after it has increased.
use agentchat_take_home.Base.{ℕ, Bool, true, false, if◌then◌else◌, ltb}
pub mod Ends

-- The ref, the state, and whether the effect's timer is set.
pub record Flash : Type 0 where
  pub prev : ℕ
  pub flashing : Bool
  pub timer : Bool

abbrev pub mount : ℕ → Flash
mount value = record { prev = value; flashing = false; timer = false }

-- The cleanup of the effect before this one, and the effect on a new value.
unfoldable pub change : ℕ → Flash → Flash
change value s =
    let cleared : Flash = record s { timer = false } in
    if ltb cleared.prev value
    then record { prev = value; flashing = true; timer = true }
    else record cleared { prev = value }

-- The callback of the timer, which runs only while it is set.
unfoldable pub expire : Flash → Flash
expire s = if s.timer then record s { flashing = false; timer = false } else s
