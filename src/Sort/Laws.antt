-- ===== src/Sort/Laws.antt =====
-- Sorting permutes, sorts when the comparator is a total preorder, and is stable.
use mathlib.Core.List.{Perm}
use mathlib.Core.List.Perm
use agentchat_take_home.Base.{
  ℕ, List, [], ◌∷◌, Bool, true, false, ◌≡◌, refl, ◌⊎◌, inl, inr, arith, All, select, Bool-cases,
  length, suc, ap, ◌∙◌, if◌then◌else◌,
}
use agentchat_take_home.Sort.{insert, sort, by}

-- A comparator whose sign orders all values, ties included.
pub record IsPreorder {ℓ} {A : Type ℓ} (le : A → A → Bool) : Type ℓ where
  pub total : (a b : A) → (le a b ≡ true) ⊎ (le b a ≡ true)
  pub trans : (a b c : A) → le a b ≡ true → le b c ≡ true → le a c ≡ true

pub by-IsPreorder {ℓ} : {A : Type ℓ} (key : A → ℕ) → IsPreorder (by key)
by-IsPreorder key = record { total = λ a b. ground arith; trans = λ a b c h k. ground arith }

module _ {ℓ} {A : Type ℓ} (le : A → A → Bool) where
  -- Each element is at most every later one.
  abbrev pub IsSorted : List A → Type ℓ
  IsSorted [] = Unit
  IsSorted (x ∷ xs) = All (λ y. le x y ≡ true) xs × IsSorted xs

  insert-perm : (x : A) (ys : List A) → Perm (insert le x ys) (x ∷ ys)
  unfolding insert
  insert-perm x [] = Perm.refl _
  insert-perm x (y ∷ ys) = elim (Bool-cases (le x y)) [
    | inl h ↦ rw h (Perm.refl _)
    | inr h ↦ rw h (Perm.trans (Perm.cons y (insert-perm x ys)) (Perm.swap x y ys))
  ]

  pub sort-perm : (xs : List A) → Perm (sort le xs) xs
  unfolding sort
  sort-perm [] = Perm.refl _
  sort-perm (x ∷ xs) = Perm.trans (insert-perm x (sort le xs)) (Perm.cons x (sort-perm xs))

  length-insert : (x : A) (ys : List A) → length (insert le x ys) ≡ suc (length ys)
  unfolding insert
  length-insert x [] = refl
  length-insert x (y ∷ ys) = ground (arith, length-insert x ys)

  pub length-sort : (xs : List A) → length (sort le xs) ≡ length xs
  unfolding sort
  length-sort [] = refl
  length-sort (x ∷ xs) = length-insert x (sort le xs) ∙ ap suc (length-sort xs)

  All-insert {κ} : (P : A → Type κ) (x : A) (ys : List A) → P x → All P ys → All P (insert le x ys)
  unfolding insert
  All-insert P x [] p h = (p, h)
  All-insert P x (y ∷ ys) p h = elim (Bool-cases (le x y)) [
    | inl q ↦ rw q (p, h)
    | inr q ↦ rw q (h.0, All-insert P x ys p h.1)
  ]

  pub All-sort {κ} : (P : A → Type κ) (xs : List A) → All P xs → All P (sort le xs)
  unfolding sort
  All-sort P [] h = h
  All-sort P (x ∷ xs) (p, h) = All-insert P x (sort le xs) p (All-sort P xs h)

  module _ (o : IsPreorder le) where
    All-trans :
        (x y : A) (ys : List A)
        → le x y ≡ true
        → All (λ z. le y z ≡ true) ys
        → All (λ z. le x z ≡ true) ys
    All-trans x y [] h a = tt
    All-trans x y (z ∷ ys) h (p, a) = (o.trans x y z h p, All-trans x y ys h a)

    le_of_false : (x y : A) → le x y ≡ false → le y x ≡ true
    le_of_false x y h = ground (arith, o.total x y)

    insert-IsSorted : (x : A) (ys : List A) → IsSorted ys → IsSorted (insert le x ys)
    unfolding insert
    insert-IsSorted x [] s = (tt, tt)
    insert-IsSorted x (y ∷ ys) (a, s) = elim (Bool-cases (le x y)) [
      | inl h ↦ rw h ((h, All-trans x y ys h a), (a, s))
      | inr h ↦
          rw h (All-insert (λ z. le y z ≡ true) x ys (le_of_false x y h) a, insert-IsSorted x ys s)
    ]

    pub sort-IsSorted : (xs : List A) → IsSorted (sort le xs)
    unfolding sort
    sort-IsSorted [] = tt
    sort-IsSorted (x ∷ xs) = insert-IsSorted x (sort le xs) (sort-IsSorted xs)

  -- A sorted list is left as it is.
  pub sort_of_IsSorted : (xs : List A) → IsSorted xs → sort le xs ≡ xs
  unfolding sort insert
  sort_of_IsSorted [] s = refl
  sort_of_IsSorted (x ∷ []) s = refl
  sort_of_IsSorted (x ∷ y ∷ ys) ((p, a), s) = rw (sort_of_IsSorted (y ∷ ys) s, p)

  module _ (p : A → Bool) (ties : (a b : A) → p a ≡ true → p b ≡ true → le a b ≡ true) where
    select-insert : (x : A) (ys : List A) → select p (insert le x ys) ≡ select p (x ∷ ys)
    unfolding insert
    select-insert x [] = refl
    select-insert x (y ∷ ys) = ground (arith, ties x y, select-insert x ys)

    -- Elements that tie with one another keep their order.
    pub select-sort : (xs : List A) → select p (sort le xs) ≡ select p xs
    unfolding sort
    select-sort [] = refl
    select-sort (x ∷ xs) = ground (arith, select-insert x (sort le xs), select-sort xs)

-- Comparators that agree on the elements sort them alike.
module _ {ℓ κ} {A : Type ℓ} (le le' : A → A → Bool) (P : A → Type κ)
    (agree : (a b : A) → P a → P b → le a b ≡ le' a b) where
  insert-agree : (x : A) (ys : List A) → P x → All P ys → insert le x ys ≡ insert le' x ys
  unfolding insert
  insert-agree x [] p h = refl
  insert-agree x (y ∷ ys) p (q, h) =
      ap (λ rest. if le x y then x ∷ y ∷ ys else y ∷ rest) (insert-agree x ys p h)
      ∙ ap (λ b. if b then x ∷ y ∷ ys else y ∷ insert le' x ys) (agree x y p q)

  pub sort-agree : (xs : List A) → All P xs → sort le xs ≡ sort le' xs
  unfolding sort
  sort-agree [] h = refl
  sort-agree (x ∷ xs) (p, h) =
      insert-agree x (sort le xs) p (All-sort le P xs h) ∙ ap (insert le' x) (sort-agree xs h)
