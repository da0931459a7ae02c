-- ===== src/Sort/Split.antt =====
-- A sorted list splits at a test that holds only in front.
use agentchat_take_home.Base.{
  List, [], ◌∷◌, ◌++◌, Bool, true, false, not, ◌≡◌, refl, sym, ap, ◌∙◌, All, All-select, select,
  Bool-cases, inl, inr, if-both,
}
use agentchat_take_home.Sort.Laws.{IsSorted}

pub All-selected {ℓ} :
    {A : Type ℓ} (p : A → Bool) (xs : List A) → All (λ x. p x ≡ true) (select p xs)
All-selected p [] = tt
All-selected p (x ∷ xs) =
    if-both (All (λ x. p x ≡ true)) (p x) (λ h. (h, All-selected p xs)) (λ _. All-selected p xs)

module _ {ℓ} {A : Type ℓ} (le : A → A → Bool) where
  pub select-IsSorted : (p : A → Bool) (xs : List A) → IsSorted le xs → IsSorted le (select p xs)
  select-IsSorted p [] h = tt
  select-IsSorted p (x ∷ xs) (first, rest) =
      if-both (IsSorted le) (p x)
        (λ _. (All-select (λ y. le x y ≡ true) p xs first, select-IsSorted p xs rest))
        (λ _. select-IsSorted p xs rest)

  -- A coarser order on elements of which something holds.
  pub IsSorted-coarser {κ} :
      (other : A → A → Bool) (P : A → Type κ) (xs : List A)
      → ((a b : A) → P a → P b → le a b ≡ true → other a b ≡ true)
      → All P xs
      → IsSorted le xs
      → IsSorted other xs
  IsSorted-coarser other P [] c k h = tt
  IsSorted-coarser other P (x ∷ xs) c (p, k) (first, rest) =
      (later xs k first, IsSorted-coarser other P xs c k rest)
    where
      later :
          (ys : List A) → All P ys → All (λ y. le x y ≡ true) ys → All (λ y. other x y ≡ true) ys
      later [] k h = tt
      later (y ∷ ys) (q, k) (e, h) = (c x y p q e, later ys k h)

  module _ (p : A → Bool) (front : (a b : A) → le a b ≡ true → p b ≡ true → p a ≡ true) where
    none_behind :
        (x : A) (ys : List A)
        → p x ≡ false
        → All (λ y. le x y ≡ true) ys
        → (select p ys ≡ []) × (select (λ y. not (p y)) ys ≡ ys)
    none_behind x [] h k = (refl, refl)
    none_behind x (y ∷ ys) h (e, k) = elim (Bool-cases (p y)) [
      | inl ahead ↦ let clash = front x y e ahead in cc (clash, h)
      | inr behind ↦
          let (nothing, all) = none_behind x ys h k in
          (rw behind nothing, rw behind (ap (◌∷◌ y) all))
    ]

    pub split_of_IsSorted :
        (xs : List A) → IsSorted le xs → xs ≡ select p xs ++ select (λ x. not (p x)) xs
    split_of_IsSorted [] h = refl
    split_of_IsSorted (x ∷ xs) (first, rest) = elim (Bool-cases (p x)) [
      | inl ahead ↦ rw ahead (ap (◌∷◌ x) (split_of_IsSorted xs rest))
      | inr behind ↦
          let (nothing, all) = none_behind x xs behind first in
          rw behind (sym (ap (λ l. l ++ x ∷ select (λ y. not (p y)) xs) nothing ∙ ap (◌∷◌ x) all))
    ]
