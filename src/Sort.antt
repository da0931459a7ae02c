-- ===== src/Sort.antt =====
-- `Array.prototype.sort` with a comparator: it is stable. `le a b` says that the comparator's
-- value at `(a, b)` is at most 0.
use agentchat_take_home.Base.{ℕ, List, [], ◌∷◌, Bool, leb, if◌then◌else◌}
pub mod Laws
pub mod Select
pub mod Split

module _ {ℓ} {A : Type ℓ} (le : A → A → Bool) where
  unfoldable pub insert : A → List A → List A
  insert x [] = x ∷ []
  insert x (y ∷ ys) = let rest = y ∷ insert x ys in if le x y then x ∷ y ∷ ys else rest

  unfoldable pub sort : List A → List A
  sort [] = []
  sort (x ∷ xs) = insert x (sort xs)

-- The comparator `(a, b) => a.key - b.key`.
abbrev pub by {ℓ} : {A : Type ℓ} → (A → ℕ) → A → A → Bool
by key a b = leb (key a) (key b)
