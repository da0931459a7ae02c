-- ===== src/Base/Equality.antt =====
-- The operator `===` on the types that serve as keys, with the law that it decides equality.
use Prim.Native.Nat.{ℕ}
use mathlib.Core.Path.{◌≡◌, refl}
use mathlib.Core.Logic.{◌↔◌, ◌≢◌, inl, inr}
use mathlib.Core.Bool.{Bool, true, false, ◌&&◌}
use mathlib.Core.List.{List, [], ◌∷◌}
use native.Mathlib.Omega.{arith}
use agentchat_take_home.Base.Tests.{nat_beq, nat_beq_iff, Bool-cases}

-- A type of keys.
pub record Key {ℓ} (K : Type ℓ) : Type ℓ where
  pub same : K → K → Bool
  pub same_iff : (j k : K) → (same j k ≡ true) ↔ (j ≡ k)

-- `j === k`
infix 50 ◌==◌
abbrev pub ◌==◌ {ℓ} : {K : Type ℓ} ⦃key : Key K⦄ → K → K → Bool
◌==◌ ⦃key⦄ j k = key.same j k

module _ {ℓ} {K : Type ℓ} ⦃key : Key K⦄ where
  pub ==_refl : (k : K) → (k == k) ≡ true
  ==_refl k = (key.same_iff k k).1 refl

  pub ==_false : (j k : K) → j ≢ k → (j == k) ≡ false
  ==_false j k h = elim (Bool-cases (j == k)) [
    | inl same ↦ absurd (h ((key.same_iff j k).0 same))
    | inr other ↦ other
  ]

instance abbrev pub nat_eq : Key ℕ
nat_eq = record { same = nat_beq; same_iff = nat_beq_iff }

-- Texts are compared code unit by code unit.
unfoldable pub text_beq : List ℕ → List ℕ → Bool
text_beq [] [] = true
text_beq (x ∷ xs) (y ∷ ys) = nat_beq x y && text_beq xs ys
text_beq _ _ = false

pub text_beq_iff : (a b : List ℕ) → (text_beq a b ≡ true) ↔ (a ≡ b)
unfolding text_beq
text_beq_iff (x ∷ a) (y ∷ b) = ground (arith, text_beq_iff a b)
text_beq_iff _ _ = ground arith

instance abbrev pub text_eq : Key (List ℕ)
text_eq = record { same = text_beq; same_iff = text_beq_iff }
