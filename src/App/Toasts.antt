-- ===== src/App/Toasts.antt =====
-- App.tsx: the toasts of live membership changes and their timers.
use agentchat_take_home.Base.{
  ℕ, Text, codes, not, List, [], ◌∷◌, ◌++◌, take, select, ◌==◌, nat_eq, if◌then◌else◌, any, Bool,
}
pub mod Dismissed

pub record Toast : Type 0 where
  pub id : ℕ
  pub text : Text

-- `timers` holds the ids whose timer is set and has not fired.
pub record Toasts : Type 0 where
  pub toasts : List Toast
  pub timers : List ℕ

abbrev pub no_toasts : Toasts
no_toasts = record { toasts = []; timers = [] }

abbrev pub new_toast : ℕ → Toast
new_toast id = record { id = id; text = codes "[*] membership updated" }

-- The effect that a new value of `lastLiveMembershipChangeAt` runs.
unfoldable pub show_toast : ℕ → Toasts → Toasts
show_toast id s = if id == 0 then s else record {
  toasts = take 3 (new_toast id ∷ s.toasts);
  timers = if any (λ i. i == id) s.timers then s.timers else s.timers ++ id ∷ [];
}

-- The callback of a timer.
unfoldable pub dismiss : ℕ → Toasts → Toasts
dismiss id s = record {
  toasts = select (λ (t : Toast). not (t.id == id)) s.toasts;
  timers = select (λ i. not (i == id)) s.timers;
}

-- The cleanup on unmount.
unfoldable pub clear_timers : Toasts → Toasts
clear_timers s = record s { timers = [] }
