-- ===== src/App/Toasts/Dismissed.antt =====
-- Every toast that is shown will be dismissed.
use agentchat_take_home.Base.{
  ℕ, zero, suc, map, ◌≤◌, not, List, [], ◌∷◌, ◌++◌, take, select, ◌==◌, nat_eq, any, Bool, true,
  false, ◌≡◌, refl, arith, All, Bool-cases, inl, inr, ◌⊎◌, length, length-take-le, subst,
}
use agentchat_take_home.App.Toasts.{new_toast, Toast, Toasts, no_toasts, show_toast, dismiss}

-- What may happen while the component is there.
pub data ToastEvent : Type 0 where
  shown fired : ℕ → ToastEvent

abbrev pub toast_step : ToastEvent → Toasts → Toasts
toast_step (shown id) s = show_toast id s
toast_step (fired id) s = dismiss id s

abbrev pub toast_steps : List ToastEvent → Toasts → Toasts
toast_steps [] s = s
toast_steps (e ∷ es) s = toast_steps es (toast_step e s)

abbrev pub has_timer : List ℕ → Toast → Bool
has_timer timers t = any (λ i. i == t.id) timers

-- At most three toasts are shown, and each has its timer.
pub record IsTimed (s : Toasts) : Type 0 where
  pub few : length s.toasts ≤ 3
  pub timed : All (λ t. has_timer s.timers t ≡ true) s.toasts

List-cases {ℓ} : {A : Type ℓ} (xs : List A) → (xs ≡ []) ⊎ ((x : A) × (ys : List A) × (xs ≡ x ∷ ys))
List-cases [] = inl refl
List-cases (x ∷ xs) = inr (x, xs, refl)

any-append : (p : ℕ → Bool) (xs ys : List ℕ) → any p xs ≡ true → any p (xs ++ ys) ≡ true
any-append p [] ys h = ground arith
any-append p (x ∷ xs) ys h = ground (arith, any-append p xs ys)

any-append_right : (p : ℕ → Bool) (xs ys : List ℕ) → any p ys ≡ true → any p (xs ++ ys) ≡ true
any-append_right p [] ys h = h
any-append_right p (x ∷ xs) ys h = ground (arith, any-append_right p xs ys h)

any-select :
    (id j : ℕ) (xs : List ℕ)
    → (j == id) ≡ false
    → any (λ i. i == j) xs ≡ true
    → any (λ i. i == j) (select (λ i. not (i == id)) xs) ≡ true
any-select id j [] n h = ground arith
any-select id j (x ∷ xs) n h = ground (arith, any-select id j xs n)

All-take {ℓ κ} : {A : Type ℓ} (P : A → Type κ) (n : ℕ) (xs : List A) → All P xs → All P (take n xs)
All-take P zero xs h = tt
All-take P (suc n) [] h = tt
All-take P (suc n) (x ∷ xs) (p, h) = (p, All-take P n xs h)

length-select {ℓ} : {A : Type ℓ} (p : A → Bool) (xs : List A) → length (select p xs) ≤ length xs
length-select p [] = omega arith
length-select p (x ∷ xs) = ground (arith, length-select p xs)

-- A timer more keeps the toasts timed.
timed_more :
    (id : ℕ) (timers : List ℕ) (ts : List Toast)
    → All (λ t. has_timer timers t ≡ true) ts
    → All (λ t. has_timer (timers ++ id ∷ []) t ≡ true) ts
timed_more id timers [] h = tt
timed_more id timers (t ∷ ts) (p, h) =
    (any-append (λ i. i == t.id) timers (id ∷ []) p, timed_more id timers ts h)

timed_select :
    (id : ℕ) (timers : List ℕ) (ts : List Toast)
    → All (λ t. has_timer timers t ≡ true) ts
    → All
        (λ t. has_timer (select (λ i. not (i == id)) timers) t ≡ true)
        (select (λ (t : Toast). not (t.id == id)) ts)
timed_select id timers [] h = tt
timed_select id timers (t ∷ ts) (p, h) = elim (Bool-cases (t.id == id)) [
  | inl same ↦ rw same (timed_select id timers ts h)
  | inr other ↦ rw other (any-select id t.id timers other p, timed_select id timers ts h)
]

show_toast-IsTimed : (id : ℕ) (s : Toasts) → IsTimed s → IsTimed (show_toast id s)
unfolding show_toast
show_toast-IsTimed id s i = elim (Bool-cases (id == 0)) [
  | inl zero_id ↦ rw zero_id i
  | inr live ↦ rw live (elim (Bool-cases (any (λ j. j == id) s.timers)) [
    | inl there ↦ rw there (record {
      few = length-take-le 3 (new_toast id ∷ s.toasts);
      timed =
          All-take (λ t. has_timer s.timers t ≡ true) 3 (new_toast id ∷ s.toasts) (there, i.timed);
    })
    | inr missing ↦ rw missing (record {
      few = length-take-le 3 (new_toast id ∷ s.toasts);
      timed =
          All-take (λ t. has_timer (s.timers ++ id ∷ []) t ≡ true) 3 (new_toast id ∷ s.toasts)
            (
              any-append_right (λ j. j == id) s.timers (id ∷ []) (ground arith),
              timed_more id s.timers s.toasts i.timed,
            );
    })
  ])
]

dismiss-IsTimed : (id : ℕ) (s : Toasts) → IsTimed s → IsTimed (dismiss id s)
unfolding dismiss
dismiss-IsTimed id s i = record {
  few = omega (arith, i.few, length-select (λ (t : Toast). not (t.id == id)) s.toasts);
  timed = timed_select id s.timers s.toasts i.timed;
}

toast_steps-IsTimed_from :
    (es : List ToastEvent) (s : Toasts) → IsTimed s → IsTimed (toast_steps es s)
toast_steps-IsTimed_from [] s i = i
toast_steps-IsTimed_from (shown id ∷ es) s i =
    toast_steps-IsTimed_from es (show_toast id s) (show_toast-IsTimed id s i)
toast_steps-IsTimed_from (fired id ∷ es) s i =
    toast_steps-IsTimed_from es (dismiss id s) (dismiss-IsTimed id s i)

dismiss-others :
    (id : ℕ) (ids : List ℕ) (ts : List Toast)
    → All (λ t. has_timer (id ∷ ids) t ≡ true) ts
    → All (λ t. has_timer ids t ≡ true) (select (λ (t : Toast). not (t.id == id)) ts)
dismiss-others id ids [] h = tt
dismiss-others id ids (t ∷ ts) (p, h) = elim (Bool-cases (t.id == id)) [
  | inl same ↦ rw same (dismiss-others id ids ts h)
  | inr other ↦ rw other (ground arith, dismiss-others id ids ts h)
]

toasts-dismissed :
    (ids : List ℕ) (s : Toasts)
    → All (λ t. has_timer ids t ≡ true) s.toasts
    → (toast_steps (map fired ids) s).toasts ≡ []
unfolding dismiss
toasts-dismissed [] s h = elim (List-cases s.toasts) [
  | inl none_left ↦ none_left
  | inr (t, ts, more) ↦ absurd (ground (arith, subst (All (λ t. has_timer [] t ≡ true)) more h))
]
toasts-dismissed (id ∷ ids) s h =
    toasts-dismissed ids (dismiss id s) (dismiss-others id ids s.toasts h)

-- After any live membership changes and any timers that fire, at most three toasts are shown, and
-- each has its timer. When the timers that are set fire, no toast is left.
pub toast_steps-IsTimed :
    (es : List ToastEvent)
    → IsTimed (toast_steps es no_toasts)
      × ((toast_steps
            (map fired (toast_steps es no_toasts).timers)
            (toast_steps es no_toasts)).toasts
          ≡ [])
toast_steps-IsTimed es =
    let i = toast_steps-IsTimed_from es no_toasts (record { few = omega arith; timed = tt }) in
    (i, toasts-dismissed (toast_steps es no_toasts).timers (toast_steps es no_toasts) i.timed)
