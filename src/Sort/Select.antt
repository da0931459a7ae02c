-- ===== src/Sort/Select.antt =====
-- Sorting and selecting: a part of a sorted list is the sorted part.
use agentchat_take_home.Base.{
  List, [], ◌∷◌, Bool, true, false, ◌≡◌, refl, sym, ap, ◌∙◌, inl, inr, arith, All, select,
  Bool-cases, ◌≤◌, length, map,
}
use agentchat_take_home.Sort.{insert, sort}
use agentchat_take_home.Sort.Laws.{IsPreorder, IsSorted, sort-IsSorted}

nil_of_length {ℓ} : {A : Type ℓ} (xs : List A) → length xs ≤ 0 → xs ≡ []
nil_of_length [] h = refl
nil_of_length (x ∷ xs) h = absurd (omega arith)

module _ {ℓ} {A : Type ℓ} (le : A → A → Bool) where
  insert-head : (x : A) (ys : List A) → All (λ y. le x y ≡ true) ys → insert le x ys ≡ x ∷ ys
  unfolding insert
  insert-head x [] h = refl
  insert-head x (y ∷ ys) (p, h) = rw p

  select-insert_out :
      (p : A → Bool) (x : A) (ys : List A) → p x ≡ false → select p (insert le x ys) ≡ select p ys
  unfolding insert
  select-insert_out p x [] h = rw h
  select-insert_out p x (y ∷ ys) h = ground (arith, select-insert_out p x ys h)

  select-insert_single :
      (p : A → Bool) (x : A) (ys : List A)
      → select p ys ≡ []
      → select p (insert le x ys) ≡ select p (x ∷ [])
  unfolding insert
  select-insert_single p x [] h = refl
  select-insert_single p x (y ∷ ys) h = ground (arith, select-insert_single p x ys)

  -- What is alone in being selected stays alone.
  pub select-sort_single :
      (p : A → Bool) (xs : List A) → length (select p xs) ≤ 1 → select p (sort le xs) ≡ select p xs
  unfolding sort
  select-sort_single p [] h = refl
  select-sort_single p (x ∷ xs) h = elim (Bool-cases (p x)) [
    | inl here ↦
        let alone : select p xs ≡ [] = nil_of_length (select p xs) (ground arith) in
        select-insert_single p x (sort le xs) (select-sort_single p xs (ground arith) ∙ alone)
        ∙ ground arith
    | inr away ↦
        select-insert_out p x (sort le xs) away
        ∙ select-sort_single p xs (ground arith)
        ∙ ground arith
  ]

  module _ (o : IsPreorder le) where
    All-select_le :
        (p : A → Bool) (x y : A) (ys : List A)
        → le x y ≡ true
        → All (λ z. le y z ≡ true) ys
        → All (λ z. le x z ≡ true) (select p ys)
    All-select_le p x y [] h a = tt
    All-select_le p x y (z ∷ ys) h (q, a) =
        ground (arith, o.trans x y z, All-select_le p x y ys h a)

    select-insert_in :
        (p : A → Bool) (x : A) (ys : List A)
        → p x ≡ true
        → IsSorted le ys
        → select p (insert le x ys) ≡ insert le x (select p ys)
    unfolding insert
    select-insert_in p x [] h s = rw h
    select-insert_in p x (y ∷ ys) h (a, s) = elim (Bool-cases (le x y)) [
      | inl below ↦
          rw (below, h)
            (sym
              (insert-head x (select p (y ∷ ys)) (ground (arith, All-select_le p x y ys below a))))
      | inr above ↦ ground (arith, select-insert_in p x ys h s)
    ]

    -- The selected part of a sorted list is the sorted part.
    pub select-sort_comm :
        (p : A → Bool) (xs : List A) → select p (sort le xs) ≡ sort le (select p xs)
    unfolding sort
    select-sort_comm p [] = refl
    select-sort_comm p (x ∷ xs) = elim (Bool-cases (p x)) [
      | inl here ↦
          select-insert_in p x (sort le xs) here (sort-IsSorted le o xs)
          ∙ rw here (ap (insert le x) (select-sort_comm p xs))
      | inr away ↦ select-insert_out p x (sort le xs) away ∙ select-sort_comm p xs ∙ rw away
    ]

module _ {ℓ κ} {A : Type ℓ} {B : Type κ} (le : A → A → Bool) (f : B → A) where
  insert-map :
      (x : B) (ys : List B)
      → insert le (f x) (map f ys) ≡ map f (insert (λ a b. le (f a) (f b)) x ys)
  unfolding insert
  insert-map x [] = refl
  insert-map x (y ∷ ys) = ground (arith, insert-map x ys)

  pub sort-map : (xs : List B) → sort le (map f xs) ≡ map f (sort (λ a b. le (f a) (f b)) xs)
  unfolding sort
  sort-map [] = refl
  sort-map (x ∷ xs) =
      ap (insert le (f x)) (sort-map xs) ∙ insert-map x (sort (λ a b. le (f a) (f b)) xs)
