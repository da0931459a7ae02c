-- ===== src/Strings/Laws.antt =====
-- Laws of the string methods.
use agentchat_take_home.Base.{
  ℕ, Text, true, false, [], ◌∷◌, ◌++◌, ◌≡◌, refl, ap, ◌∙◌, sym, arith, append_assoc, append-nil,
  ◌==◌, nat_eq, ==_refl, drop, length, any,
}
use agentchat_take_home.Strings.{starts_with, backwards, ends_with, includes, split_on, push_unit}

pub starts_with-append : (p s : Text) → starts_with p (p ++ s) ≡ true
unfolding starts_with
starts_with-append [] s = refl
starts_with-append (c ∷ p) s = ground (arith, starts_with-append p s)

pub backwards-append : (s t : Text) → backwards (s ++ t) ≡ backwards t ++ backwards s
unfolding backwards
backwards-append [] t = sym (append-nil (backwards t))
backwards-append (c ∷ s) t =
    ap (λ l. l ++ c ∷ []) (backwards-append s t) ∙ append_assoc (backwards t) (backwards s) (c ∷ [])

pub backwards-backwards : (s : Text) → backwards (backwards s) ≡ s
unfolding backwards
backwards-backwards [] = refl
backwards-backwards (c ∷ s) =
    backwards-append (backwards s) (c ∷ []) ∙ ap (◌∷◌ c) (backwards-backwards s)

pub ends_with-append : (s p : Text) → ends_with p (s ++ p) ≡ true
unfolding ends_with
ends_with-append s p =
    ap (starts_with (backwards p)) (backwards-append s p)
    ∙ starts_with-append (backwards p) (backwards s)

pub starts_with-drop : (p s : Text) → starts_with p s ≡ true → s ≡ p ++ drop (length p) s
unfolding starts_with
starts_with-drop [] s h = refl
starts_with-drop (c ∷ p) [] h = cc (h)
starts_with-drop (c ∷ p) (d ∷ s) h = ground (arith, starts_with-drop p s)

includes_of_starts_with : (p s : Text) → starts_with p s ≡ true → includes p s ≡ true
unfolding includes
includes_of_starts_with p [] h = h
includes_of_starts_with p (c ∷ s) h = rw h refl

pub includes-append : (p s t : Text) → includes p (s ++ (p ++ t)) ≡ true
unfolding includes
includes-append p [] t = includes_of_starts_with p (p ++ t) (starts_with-append p t)
includes-append p (c ∷ s) t = ground (arith, includes-append p s t)

pub split_on-segment : (c : ℕ) (s : Text) → any (λ d. d == c) s ≡ false → split_on c s ≡ s ∷ []
unfolding split_on
split_on-segment c [] h = refl
split_on-segment c (d ∷ s) h =
    let other : (d == c) ≡ false = ground (arith, h) in
    let others : any (λ d. d == c) s ≡ false = ground (arith, h) in
    rw other (ap (push_unit d) (split_on-segment c s others))

pub split_on-append :
    (c : ℕ) (s t : Text) → any (λ d. d == c) s ≡ false → split_on c (s ++ c ∷ t) ≡ s ∷ split_on c t
unfolding split_on
split_on-append c [] t h = rw (==_refl c) refl
split_on-append c (d ∷ s) t h =
    let other : (d == c) ≡ false = ground (arith, h) in
    let others : any (λ d. d == c) s ≡ false = ground (arith, h) in
    rw other (ap (push_unit d) (split_on-append c s t others))
